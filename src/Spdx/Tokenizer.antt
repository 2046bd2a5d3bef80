-- ===== src/Spdx/Tokenizer.antt =====
-- spdx_tokenizer.py. The loop of `tokenize` walks the text that is still unread, with `pos` the
-- offset of its first character, and takes fuel for its rounds.
pub mod Matches
pub mod Scanned
pub mod Slices
use debcraft.Prelude.{
  ℕ, zero, suc, ◌+◌, ◌-◌, Bool, ◌||◌, Option, none, some, List, [], ◌∷◌, map, ◌==◌, length,
  if◌then◌else◌, Result, ok, err, ◌>>=◌,
}
use debcraft.Prelude.Text.{Text, codes, text_eq}
use debcraft.Spdx.Values.{
  SpdxToken, TokenType, license_id, or_later, and, or, with, lparen, rparen, document_ref,
  license_ref,
}
use debcraft.Spdx.Chars.{is_lower, is_ident_char, span, match_license_ref, match_document_ref}

-- `SPDXTokenizeError`, with the character of its message; `out_of_fuel` is the model's own.
pub data TokenizeError : Type 0 where
  invalid_character : (char : ℕ) → (offset : ℕ) → TokenizeError
  out_of_fuel : TokenizeError

-- What one round finds at the start of the unread text.
pub data Scan : Type 0 where
  skip : (rest : Text) → Scan
  emit : SpdxToken → (rest : Text) → Scan
  invalid : (char : ℕ) → Scan

-- `str.upper` on identifier characters, which are ASCII.
unfoldable pub upper : Text → Text
upper = map (λ c. if is_lower c then c - 32 else c)

-- The type of an identifier that no `+` follows.
unfoldable pub word_type : Text → Option TokenType
word_type value =
    let upper_value = upper value in
    if text_eq upper_value (codes "AND")
    then some and
    else if text_eq upper_value (codes "OR")
    then some or
    else if text_eq upper_value (codes "WITH")
    then some with
    else none

-- The test on `+` of `_consume_identifier`, for an identifier that is no operator.
unfoldable pub consume_plus : Text → Text → ℕ → Scan
consume_plus value [] start = emit (record { type = license_id; value = value; offset = start }) []
consume_plus value (c ∷ s) start =
    if c == b'+'
    then emit (record { type = or_later; value = value; offset = start }) s
    else emit (record { type = license_id; value = value; offset = start }) (c ∷ s)

-- `_consume_identifier`, given the longest run of identifier characters and what follows it.
unfoldable pub consume_identifier : Text → Text → ℕ → Scan
consume_identifier value rest start = elim (word_type value) [
  | some t ↦ emit (record { type = t; value = value; offset = start }) rest
  | none ↦ consume_plus value rest start
]

-- The tests of one round after those on blanks and parentheses: `_try_document_ref`, then
-- `_try_license_ref`, then an identifier or operator.
unfoldable pub scan_word : ℕ → Text → ℕ → Scan
scan_word c s pos = elim (match_document_ref (c ∷ s)) [
  | some (value, rest) ↦ emit (record { type = document_ref; value = value; offset = pos }) rest
  | none ↦ elim (match_license_ref (c ∷ s)) [
    | some (value, rest) ↦ emit (record { type = license_ref; value = value; offset = pos }) rest
    | none ↦
        if is_ident_char c
        then (let (value, rest) = span is_ident_char (c ∷ s) in consume_identifier value rest pos)
        else invalid c
  ]
]

-- One round of the loop at the character `c`, before the text `s`.
unfoldable pub scan : ℕ → Text → ℕ → Scan
scan c s pos =
    if c == b' ' || c == 9
    then skip s
    else if c == b'('
    then emit (record { type = lparen; value = codes "("; offset = pos }) s
    else if c == b')'
    then emit (record { type = rparen; value = codes ")"; offset = pos }) s
    else scan_word c s pos

-- `while pos < length`
unfoldable pub tokenize_loop : ℕ → Text → ℕ → Result TokenizeError (List SpdxToken)
tokenize_loop zero s pos = err out_of_fuel
tokenize_loop (suc fuel) [] pos = ok []
tokenize_loop (suc fuel) (c ∷ s) pos = elim (scan c s pos) [
  | skip rest ↦ tokenize_loop fuel rest (pos + 1)
  | emit token rest ↦ do
    tokens ← tokenize_loop fuel rest (pos + (length (c ∷ s) - length rest))
    ok (token ∷ tokens)
  | invalid char ↦ err (invalid_character char pos)
]

-- Each round reads at least one character, so the fuel is one more than the length.
unfoldable pub tokenize : Text → Result TokenizeError (List SpdxToken)
tokenize expression = tokenize_loop (suc (length expression)) expression 0
