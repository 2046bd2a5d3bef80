-- ===== src/Sbom/Assembler/Labels.antt =====
-- The ids that `_build_packages` of src/debcraft/domain/sbom/assembler.py gives: a base, and from
-- its second use on a hyphen and a number.
use debcraft.Prelude.{
  ℕ, zero, suc, ◌≤◌, ◌≡◌, refl, ap, ◌∙◌, sym, Bool, true, false, ◌&&◌, Option, none, some, [], ◌∷◌,
  ◌++◌, append_assoc, arith, All,
}
use debcraft.Prelude.Text.{Text, list_text_eq}
use debcraft.Prelude.Lines.{Lacks}
use debcraft.Prelude.Strip.{strip_prefix}
use debcraft.Prelude.Decimal.{
  decimal, value_from, value_from-decimal, is_digit, IsDigit, decimal-IsDigit,
}

-- The id of the use of a base with the given number, the first one being 1.
abbrev pub label : Text → ℕ → Text
label base zero = base
label base (suc zero) = base
label base (suc (suc n)) = base ++ b'-' ∷ decimal (suc (suc n))

not-Lacks : (c : ℕ) (s t : Text) → Lacks c (s ++ c ∷ t) → ⊥
not-Lacks c [] t h = h.0 refl
not-Lacks c (d ∷ s) t h = not-Lacks c s t h.1

-- What stands before the last separator, and after it.
last_part :
    (c : ℕ) (a b s t : Text)
    → Lacks c s
    → Lacks c t
    → (a ++ c ∷ s) ≡ (b ++ c ∷ t)
    → (a ≡ b) × (s ≡ t)
last_part c [] [] s t hs ht e = (refl, cc)
last_part c [] (d ∷ b) s t hs ht e =
    let k : s ≡ b ++ c ∷ t = cc in absurd (not-Lacks c b t (rw k at hs))
last_part c (d ∷ a) [] s t hs ht e =
    let k : a ++ c ∷ s ≡ t = cc in absurd (not-Lacks c a s (rw (sym k) at ht))
last_part c (d ∷ a) (x ∷ b) s t hs ht e = let r = last_part c a b s t hs ht (cc) in (cc, r.1)

IsDigit-Lacks : (s : Text) → All IsDigit s → Lacks b'-' s
IsDigit-Lacks [] h = tt
IsDigit-Lacks (c ∷ s) h = (λ e. ground arith, IsDigit-Lacks s h.1)

decimal_injective : (m n : ℕ) → decimal m ≡ decimal n → m ≡ n
decimal_injective m n e = sym (value_from-decimal m) ∙ ap (value_from 0) e ∙ value_from-decimal n

all_digits : Option Text → Bool
all_digits none = false
all_digits (some []) = true
all_digits (some (c ∷ s)) = is_digit c && all_digits (some s)

-- `id` is `base` with a hyphen and nothing but digits after it.
unfoldable pub is_numbered : Text → Text → Bool
unfolding all_digits
is_numbered base id = all_digits (strip_prefix (base ++ b'-' ∷ []) id)

strip_prefix-append : (p s : Text) → strip_prefix p (p ++ s) ≡ some s
unfolding strip_prefix
strip_prefix-append [] s = refl
strip_prefix-append (c ∷ p) s = ground (arith, strip_prefix-append p s)

IsDigit-all_digits : (s : Text) → All IsDigit s → all_digits (some s) ≡ true
unfolding all_digits
IsDigit-all_digits [] h = refl
IsDigit-all_digits (c ∷ s) h = ground (arith, IsDigit-all_digits s h.1)

is_numbered-decimal : (base : Text) (n : ℕ) → is_numbered base (base ++ b'-' ∷ decimal n) ≡ true
unfolding is_numbered
is_numbered-decimal base n =
    rw
      (
        ← append_assoc base (b'-' ∷ []) (decimal n),
        strip_prefix-append (base ++ b'-' ∷ []) (decimal n),
      )
      (IsDigit-all_digits (decimal n) (decimal-IsDigit n))

-- Labels of bases of which neither is the other with a number are equal only when the bases and the
-- numbers are.
pub label_injective :
    (a b : Text) (m n : ℕ)
    → is_numbered a b ≡ false
    → is_numbered b a ≡ false
    → 1 ≤ m
    → 1 ≤ n
    → label a m ≡ label b n
    → (a ≡ b) × (m ≡ n)
label_injective a b zero n ha hb hm hn e = absurd (omega arith)
label_injective a b (suc m) zero ha hb hm hn e = absurd (omega arith)
label_injective a b (suc zero) (suc zero) ha hb hm hn e = (e, refl)
label_injective a b (suc zero) (suc (suc n)) ha hb hm hn e =
    cc (rw e at hb, is_numbered-decimal b (suc (suc n)))
label_injective a b (suc (suc m)) (suc zero) ha hb hm hn e =
    cc (rw (sym e) at ha, is_numbered-decimal a (suc (suc m)))
label_injective a b (suc (suc m)) (suc (suc n)) ha hb hm hn e =
    let r =
      last_part b'-' a b (decimal (suc (suc m))) (decimal (suc (suc n)))
        (IsDigit-Lacks (decimal (suc (suc m))) (decimal-IsDigit (suc (suc m))))
        (IsDigit-Lacks (decimal (suc (suc n))) (decimal-IsDigit (suc (suc n)))) e in
    (r.0, decimal_injective (suc (suc m)) (suc (suc n)) r.1)
