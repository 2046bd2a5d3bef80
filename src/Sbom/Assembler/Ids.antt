-- ===== src/Sbom/Assembler/Ids.antt =====
-- The SPDX ids of a document's packages (src/debcraft/domain/sbom/assembler.py).
use debcraft.Prelude.{
  ℕ, zero, suc, ◌+◌, ◌<◌, ◌≡◌, ◌≢◌, refl, ap, ◌∙◌, sym, inl, inr, Bool, true, false, Option, none,
  some, List, [], ◌∷◌, ◌++◌, map, arith, Bool-cases, All, any, contains, same_refl,
}
use debcraft.Prelude.Text.{Text, codes, list_text_eq, text_eq_refl}
use debcraft.Prelude.Dict.{Dict, get, put, get-put, get-nil}
use debcraft.Prelude.Decimal.{decimal}
use debcraft.Sbom.Assembler.{EnrichedPackage, base_id, number_id, resolve_collisions, final_ids}
use debcraft.Sbom.Assembler.Labels.{label, is_numbered, label_injective}

-- No id is given twice.
abbrev pub Distinct : List Text → Type 0
Distinct [] = Unit
Distinct (id ∷ ids) = All (λ other. other ≢ id) ids × Distinct ids

-- Some base of the list is another one with a hyphen and digits after it.
abbrev pub clash : List Text → Bool
clash bases = any (λ a. any (λ b. is_numbered a b) bases) bases

abbrev used : Option ℕ → ℕ
used none = 0
used (some n) = n

-- A count is never 0.
abbrev Positive : Dict Text ℕ → Type 0
Positive counts = (base : Text) → get counts base ≢ some 0

number_id-label :
    (base : Text) (o : Option ℕ)
    → o ≢ some 0
    → number_id base o ≡ (label base (suc (used o)), suc (used o))
unfolding number_id
number_id-label base none h = refl
number_id-label base (some zero) h = absurd (h refl)
number_id-label base (some (suc n)) h = let e : suc n + 1 ≡ suc (suc n) = omega arith in rw e

put-Positive :
    (counts : Dict Text ℕ) (base : Text) (n : ℕ)
    → Positive counts
    → Positive (put counts base (suc n))
put-Positive counts base n h other e = ground (arith, get-put counts base other (suc n), h other)

any-contains :
    (p : Text → Bool) (xs : List Text) (x : Text)
    → any p xs ≡ false
    → contains xs x ≡ true
    → p x ≡ false
any-contains p [] x h k = cc
any-contains p (y ∷ ys) x h k = elim (Bool-cases (list_text_eq.same y x)) [
  | inl e ↦ let q : p y ≡ p x = ap p ((list_text_eq.same_iff y x).0 e) in ground (arith, q)
  | inr e ↦ ground (arith, any-contains p ys x)
]

clash-is_numbered :
    (bases : List Text) (a b : Text)
    → clash bases ≡ false
    → contains bases a ≡ true
    → contains bases b ≡ true
    → is_numbered a b ≡ false
clash-is_numbered bases a b h ha hb =
    any-contains (λ y. is_numbered a y) bases b
      (any-contains (λ x. any (λ y. is_numbered x y) bases) bases a h ha) hb

module _ (bases : List Text) where
  -- A label of one of the bases, with a number above its count.
  record Labelled (counts : Dict Text ℕ) (id : Text) : Type 0 where
    base : Text
    number : ℕ
    member : contains bases base ≡ true
    above : used (get counts base) < number
    labelled : id ≡ label base number

  Labelled-put :
      (counts : Dict Text ℕ) (base : Text) (ids : List Text)
      → All (Labelled (put counts base (suc (used (get counts base))))) ids
      → All (Labelled counts) ids
  Labelled-put counts base [] h = tt
  Labelled-put counts base (id ∷ ids) h =
      let l = h.0 in
      (
        record {
          base = l.base;
          number = l.number;
          member = l.member;
          above = ground (
            arith,
            get-put counts base l.base (suc (used (get counts base))),
            list_text_eq.same_iff base l.base,
            l.above,
          );
          labelled = l.labelled;
        },
        Labelled-put counts base ids h.1,
      )

  -- The first id is none of the later ones.
  Labelled-apart :
      (counts : Dict Text ℕ) (base : Text) (ids : List Text)
      → clash bases ≡ false
      → contains bases base ≡ true
      → All (Labelled (put counts base (suc (used (get counts base))))) ids
      → All (λ id. id ≢ label base (suc (used (get counts base)))) ids
  Labelled-apart counts base [] c m h = tt
  Labelled-apart counts base (id ∷ ids) c m (l, h) = (
    λ e.
        let same =
          label_injective l.base base l.number (suc (used (get counts base)))
            (clash-is_numbered bases l.base base c l.member m)
            (clash-is_numbered bases base l.base c m l.member) (omega (arith, l.above))
            (omega arith) (sym l.labelled ∙ e) in
        ground (
          arith,
          l.above,
          same.0,
          same.1,
          get-put counts base l.base (suc (used (get counts base))),
          list_text_eq.same_iff base l.base,
        ),
    Labelled-apart counts base ids c m h,
  )

  resolve_collisions-Labelled :
      (todo : List Text) (counts : Dict Text ℕ)
      → clash bases ≡ false
      → All (λ base. contains bases base ≡ true) todo
      → Positive counts
      → All (Labelled counts) (resolve_collisions todo counts)
        × Distinct (resolve_collisions todo counts)
  unfolding resolve_collisions
  resolve_collisions-Labelled [] counts c m p = (tt, tt)
  resolve_collisions-Labelled (base ∷ todo) counts c m p =
      let n = suc (used (get counts base)) in
      let later = put counts base n in
      let rest =
        resolve_collisions-Labelled todo later c m.1
          (put-Positive counts base (used (get counts base)) p) in
      rw (number_id-label base (get counts base) (p base)) (
        (
          record { base = base; number = n; member = m.0; above = omega arith; labelled = refl },
          Labelled-put counts base (resolve_collisions todo later) rest.0,
        ),
        (Labelled-apart counts base (resolve_collisions todo later) c m.0 rest.0, rest.1),
      )

contains-cons :
    (x : Text) (xs ys : List Text)
    → All (λ y. contains xs y ≡ true) ys
    → All (λ y. contains (x ∷ xs) y ≡ true) ys
contains-cons x xs [] h = tt
contains-cons x xs (y ∷ ys) h = (ground (arith, h.0), contains-cons x xs ys h.1)

pub contains-All : (xs : List Text) → All (λ x. contains xs x ≡ true) xs
contains-All [] = tt
contains-All (x ∷ xs) = (ground (arith, same_refl x), contains-cons x xs xs (contains-All xs))

abbrev pub bases_of : List EnrichedPackage → List Text
bases_of = map (λ e. base_id e.identified)

-- The packages of a document have different ids when the id made of a package's name and version is
-- never that of another one with a hyphen and digits after it.
pub final_ids-Distinct :
    (packages : List EnrichedPackage)
    → clash (bases_of packages) ≡ false
    → Distinct (final_ids packages)
unfolding final_ids
final_ids-Distinct packages h =
    (resolve_collisions-Labelled (bases_of packages) (bases_of packages) [] h
      (contains-All (bases_of packages)) (λ base e. ground (arith, get-nil {V = ℕ} base))).1

longer-ne : (base : Text) → list_text_eq.same base (base ++ codes "-2") ≡ false
longer-ne [] = refl
longer-ne (c ∷ base) = ground (arith, longer-ne base)

resolve_collisions_repeats :
    (base : Text)
    → resolve_collisions (base ∷ base ∷ (base ++ codes "-2") ∷ []) []
      ≡ base ∷ (base ++ codes "-2") ∷ (base ++ codes "-2") ∷ []
unfolding resolve_collisions number_id decimal
resolve_collisions_repeats base = simp (get-nil, get-put, text_eq_refl, longer-ne base)

-- Where a package is listed twice, and a third one has its id with `-2` after it, as the versions `1`
-- and `1-2` of one name have, two packages of the document have the same id.
pub final_ids_repeats :
    (p q : EnrichedPackage)
    → base_id q.identified ≡ base_id p.identified ++ codes "-2"
    → ¬ Distinct (final_ids (p ∷ p ∷ q ∷ []))
unfolding final_ids
final_ids_repeats p q e d =
    let r = resolve_collisions_repeats (base_id p.identified) in
    let k : Distinct (
        resolve_collisions
          (base_id p.identified ∷ base_id p.identified ∷ (base_id p.identified ++ codes "-2") ∷ [])
          []) =
      rw e at d in
    let m = rw r at k in m.1.0.0 refl
