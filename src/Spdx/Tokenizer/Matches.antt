-- ===== src/Spdx/Tokenizer/Matches.antt =====
-- What the patterns of src/debcraft/domain/package_intelligence/spdx_tokenizer.py match.
use debcraft.Prelude.{
  ℕ, ◌≡◌, refl, Bool, false, Bool-cases, inl, inr, Option, none, some, [], ◌∷◌, ◌++◌, append_assoc,
  arith, is_empty,
}
use debcraft.Prelude.Text.{Text, codes}
use debcraft.Spdx.Chars.{
  is_ref_char, span, match_literal, match_name, match_then, match_license_ref, match_document_ref,
}

-- A matched prefix and what follows it make up the text.
abbrev pub Splits : Text → Option (Text × Text) → Type 0
Splits s none = Unit
Splits s (some (a, b)) = s ≡ a ++ b

pub span-splits : (p : ℕ → Bool) (s : Text) → s ≡ (span p s).0 ++ (span p s).1
unfolding span
span-splits p [] = refl
span-splits p (c ∷ s) = ground (arith, span-splits p s)

match_literal-Splits : (l s : Text) → Splits s (match_literal l s)
unfolding match_literal
match_literal-Splits [] s = refl
match_literal-Splits (l ∷ ls) [] = tt
match_literal-Splits (l ∷ ls) (c ∷ s) = ground (arith, match_literal-Splits ls s)

match_name-Splits : (s : Text) → Splits s (match_name s)
unfolding match_name
match_name-Splits s = elim (Bool-cases (is_empty (span is_ref_char s).0)) [
  | inl e ↦ rw e tt
  | inr e ↦ rw e (span-splits is_ref_char s)
]

match_then-Splits :
    (f g : Text → Option (Text × Text)) (s : Text)
    → ((u : Text) → Splits u (f u))
    → ((u : Text) → Splits u (g u))
    → Splits s (match_then f g s)
unfolding match_then
match_then-Splits f g s hf hg = first (f s) (hf s)
  where
    second :
        (a s1 : Text) (o : Option (Text × Text))
        → s ≡ a ++ s1
        → Splits s1 o
        → Splits s (elim o [ none ↦ none | some (b, s2) ↦ some (a ++ b, s2) ])
    second a s1 none e h = tt
    second a s1 (some (b, s2)) e h = cc (append_assoc a b s2)

    first :
        (o : Option (Text × Text))
        → Splits s o
        → Splits s (elim o [
          | none ↦ none
          | some (a, s1) ↦ elim (g s1) [ none ↦ none | some (b, s2) ↦ some (a ++ b, s2) ]
        ])
    first none h = tt
    first (some (a, s1)) h = second a s1 (g s1) h (hg s1)

pub match_license_ref-Splits : (s : Text) → Splits s (match_license_ref s)
unfolding match_license_ref
match_license_ref-Splits s =
    match_then-Splits _ _ s (match_literal-Splits (codes "licenseref-")) match_name-Splits

pub match_document_ref-Splits : (s : Text) → Splits s (match_document_ref s)
unfolding match_document_ref
match_document_ref-Splits s =
    match_then-Splits _ _ s (match_literal-Splits (codes "documentref-")) (λ u.
      match_then-Splits _ _ u match_name-Splits
        (λ v. match_then-Splits _ _ v (match_literal-Splits (codes ":")) match_license_ref-Splits))

-- A match reads something.
abbrev pub Filled : Option (Text × Text) → Type 0
Filled none = Unit
Filled (some (a, b)) = is_empty a ≡ false

match_literal-Filled : (l : ℕ) (ls s : Text) → Filled (match_literal (l ∷ ls) s)
unfolding match_literal
match_literal-Filled l ls [] = tt
match_literal-Filled l ls (c ∷ s) = ground arith

match_then-Filled :
    (f g : Text → Option (Text × Text)) (s : Text) → Filled (f s) → Filled (match_then f g s)
unfolding match_then
match_then-Filled f g s h = first (f s) h
  where
    second :
        (c : ℕ) (a : Text) (o : Option (Text × Text))
        → Filled (elim o [ none ↦ none | some (b, s2) ↦ some ((c ∷ a) ++ b, s2) ])
    second c a none = tt
    second c a (some (b, s2)) = refl

    first :
        (o : Option (Text × Text))
        → Filled o
        → Filled (elim o [
          | none ↦ none
          | some (a, s1) ↦ elim (g s1) [ none ↦ none | some (b, s2) ↦ some (a ++ b, s2) ]
        ])
    first none h = tt
    first (some ([], s1)) h = cc
    first (some (c ∷ a, s1)) h = second c a (g s1)

pub match_license_ref-Filled : (s : Text) → Filled (match_license_ref s)
unfolding match_license_ref
match_license_ref-Filled s = match_then-Filled _ _ s (match_literal-Filled _ _ s)

pub match_document_ref-Filled : (s : Text) → Filled (match_document_ref s)
unfolding match_document_ref
match_document_ref-Filled s = match_then-Filled _ _ s (match_literal-Filled _ _ s)
