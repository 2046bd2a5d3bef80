-- ===== src/Spdx/Chars.antt =====
-- The character classes of spdx_tokenizer.py, and its two compiled patterns for references.
use debcraft.Prelude.{
  ℕ, ◌+◌, Bool, ◌&&◌, ◌||◌, Option, none, some, [], ◌∷◌, ◌++◌, leb, ◌==◌, is_empty, if◌then◌else◌,
}
use debcraft.Prelude.Text.{Text, codes}

abbrev pub is_upper : ℕ → Bool
is_upper c = leb b'A' c && leb c b'Z'

abbrev pub is_lower : ℕ → Bool
is_lower c = leb b'a' c && leb c b'z'

abbrev pub is_digit : ℕ → Bool
is_digit c = leb b'0' c && leb c b'9'

-- `[A-Za-z0-9\-.]`
unfoldable pub is_ident_char : ℕ → Bool
is_ident_char c = is_upper c || is_lower c || is_digit c || c == b'-' || c == b'.'

-- How `re.IGNORECASE` folds a character before it compares it with an ASCII one: besides the
-- capitals, U+0130 and U+0131 go to `i`, U+017F to `s` and U+212A to `k`.
unfoldable pub fold_case : ℕ → ℕ
fold_case c =
    if is_upper c
    then c + 32
    else if c == 0x130 || c == 0x131
    then b'i'
    else if c == 0x17f
    then b's'
    else if c == 0x212a
    then b'k'
    else c

-- The class `[A-Za-z0-9\-.]` under `re.IGNORECASE`.
unfoldable pub is_ref_char : ℕ → Bool
is_ref_char c = is_ident_char (fold_case c)

-- A greedy `[...]*`: the longest prefix in the class, and what follows it.
unfoldable pub span : (ℕ → Bool) → Text → Text × Text
span p [] = ([], [])
span p (c ∷ s) = let (a, b) = span p s in if p c then (c ∷ a, b) else ([], c ∷ s)

-- A literal under `re.IGNORECASE`, in lower case: the text that it matches, and what follows it.
unfoldable pub match_literal : Text → Text → Option (Text × Text)
match_literal [] s = some ([], s)
match_literal (l ∷ ls) [] = none
match_literal (l ∷ ls) (c ∷ s) =
    let rest = match_literal ls s in
    if fold_case c == l then elim rest [ none ↦ none | some (a, b) ↦ some (c ∷ a, b) ] else none

-- `[A-Za-z0-9\-.]+`
unfoldable pub match_name : Text → Option (Text × Text)
match_name s = let (a, b) = span is_ref_char s in if is_empty a then none else some (a, b)

-- The concatenation of two patterns, of which the first never has to give characters back.
unfoldable pub match_then :
    (Text → Option (Text × Text)) → (Text → Option (Text × Text)) → Text → Option (Text × Text)
match_then first second s = elim (first s) [
  | none ↦ none
  | some (a, s1) ↦ elim (second s1) [ none ↦ none | some (b, s2) ↦ some (a ++ b, s2) ]
]

-- `_LICENSE_REF_RE.match`
unfoldable pub match_license_ref : Text → Option (Text × Text)
match_license_ref = match_then (match_literal (codes "licenseref-")) match_name

-- `_DOCUMENT_REF_RE.match`: the class holds no colon, so the greedy name ends at the colon.
unfoldable pub match_document_ref : Text → Option (Text × Text)
match_document_ref =
    match_then (match_literal (codes "documentref-"))
      (match_then match_name (match_then (match_literal (codes ":")) match_license_ref))
