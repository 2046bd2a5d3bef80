-- ===== src/Spdx/Tokenizer/Scanned.antt =====
-- What one round of the tokenizer reads (src/debcraft/domain/package_intelligence/spdx_tokenizer.py).
use debcraft.Prelude.{
  ℕ, ◌≡◌, refl, Bool, true, false, ◌||◌, Bool-cases, inl, inr, Option, none, some, [], ◌∷◌, ◌++◌,
  arith, ◌==◌, get_elem?, is_empty, if◌then◌else◌,
}
use debcraft.Prelude.Text.{Text}
use debcraft.Spdx.Values.{TokenType}
use debcraft.Spdx.Chars.{is_ident_char, span, match_license_ref, match_document_ref}
use debcraft.Spdx.Tokenizer.{
  Scan, skip, emit, invalid, consume_plus, word_type, consume_identifier, scan_word, scan,
}
use debcraft.Spdx.Tokenizer.Matches.{
  Splits, span-splits, match_license_ref-Splits, match_document_ref-Splits, Filled,
  match_license_ref-Filled, match_document_ref-Filled,
}

-- What a round says of the text `s` at offset `pos`.
abbrev pub Found : Text → ℕ → Scan → Type 0
Found s pos (skip rest) = (blank : ℕ) × (s ≡ blank ∷ rest)
Found s pos (emit t rest) =
    (gap : Text) × (s ≡ t.value ++ (gap ++ rest)) × (t.offset ≡ pos) × (is_empty t.value ≡ false)
Found s pos (invalid c) = get_elem? s 0 ≡ some c

consume_plus-Found :
    (value rest s : Text) (pos : ℕ)
    → s ≡ value ++ rest
    → is_empty value ≡ false
    → Found s pos (consume_plus value rest pos)
unfolding consume_plus
consume_plus-Found value [] s pos e h = ([], e, refl, h)
consume_plus-Found value (c ∷ rest) s pos e h = elim (Bool-cases (c == b'+')) [
  | inl p ↦ rw p (c ∷ [], e, refl, h)
  | inr p ↦ rw p ([], e, refl, h)
]

consume_identifier-Found :
    (value rest s : Text) (pos : ℕ)
    → s ≡ value ++ rest
    → is_empty value ≡ false
    → Found s pos (consume_identifier value rest pos)
unfolding consume_identifier
consume_identifier-Found value rest s pos e h = by_type (word_type value)
  where
    by_type :
        (o : Option TokenType)
        → Found s pos (elim o [
          | some t ↦ emit (record { type = t; value = value; offset = pos }) rest
          | none ↦ consume_plus value rest pos
        ])
    by_type none = consume_plus-Found value rest s pos e h
    by_type (some t) = ([], e, refl, h)

span-Filled : (p : ℕ → Bool) (c : ℕ) (s : Text) → p c ≡ true → is_empty (span p (c ∷ s)).0 ≡ false
unfolding span
span-Filled p c s h = rw h

scan_word-Found : (c : ℕ) (s : Text) (pos : ℕ) → Found (c ∷ s) pos (scan_word c s pos)
unfolding scan_word
scan_word-Found c s pos =
    document (match_document_ref (c ∷ s)) (match_document_ref-Splits (c ∷ s))
      (match_document_ref-Filled (c ∷ s))
  where
    word : Scan
    word =
        if is_ident_char c
        then (let (value, rest) = span is_ident_char (c ∷ s) in consume_identifier value rest pos)
        else invalid c

    word_Found : Found (c ∷ s) pos word
    word_Found = elim (Bool-cases (is_ident_char c)) [
      | inl e ↦ rw e (
          consume_identifier-Found _ _ (c ∷ s) pos (span-splits is_ident_char (c ∷ s))
            (span-Filled is_ident_char c s e))
      | inr e ↦ rw e refl
    ]

    license :
        (o : Option (Text × Text))
        → Splits (c ∷ s) o
        → Filled o
        → Found (c ∷ s) pos (elim o [
          | some (value, rest) ↦
              emit (record { type = TokenType.license_ref; value = value; offset = pos }) rest
          | none ↦ word
        ])
    license none e h = word_Found
    license (some (a, b)) e h = ([], e, refl, h)

    document :
        (o : Option (Text × Text))
        → Splits (c ∷ s) o
        → Filled o
        → Found (c ∷ s) pos (elim o [
          | some (value, rest) ↦
              emit (record { type = TokenType.document_ref; value = value; offset = pos }) rest
          | none ↦ elim (match_license_ref (c ∷ s)) [
            | some (value, rest) ↦
                emit (record { type = TokenType.license_ref; value = value; offset = pos }) rest
            | none ↦ word
          ]
        ])
    document none e h =
        license (match_license_ref (c ∷ s)) (match_license_ref-Splits (c ∷ s))
          (match_license_ref-Filled (c ∷ s))
    document (some (a, b)) e h = ([], e, refl, h)

pub scan-Found : (c : ℕ) (s : Text) (pos : ℕ) → Found (c ∷ s) pos (scan c s pos)
unfolding scan
scan-Found c s pos = elim (Bool-cases (c == b' ' || c == 9)) [
  | inl e ↦ rw e (c, refl)
  | inr e ↦ elim (Bool-cases (c == b'(')) [
    | inl f ↦ let g : c ≡ b'(' = ground arith in rw (e, f) ([], rw g, refl, refl)
    | inr f ↦ elim (Bool-cases (c == b')')) [
      | inl k ↦ let g : c ≡ b')' = ground arith in rw (e, f, k) ([], rw g, refl, refl)
      | inr k ↦ rw (e, f, k) (scan_word-Found c s pos)
    ]
  ]
]
