-- ===== src/Prelude/Lines.antt =====
-- `str.split(sep)` and `sep.join` at a separator of one character, and their laws.
use Prim.Native.Nat.{ℕ}
use mathlib.Core.Path.{◌≡◌, refl, ap, ◌∙◌, sym}
use mathlib.Core.Logic.{◌≢◌, inl, inr}
use mathlib.Core.Bool.{true, false}
use mathlib.Core.List.{List, [], ◌∷◌, ◌++◌, append-nil}
use native.Mathlib.Omega.{arith}
use debcraft.Prelude.Tests.{◌==◌, if◌then◌else◌, Bool-cases}
use debcraft.Prelude.Lists.{All, is_empty}
use debcraft.Prelude.Text.{Text}

-- One more character in front of the first part.
abbrev pub onto_first : ℕ → List Text → List Text
onto_first c [] = (c ∷ []) ∷ []
onto_first c (p ∷ ps) = (c ∷ p) ∷ ps

unfoldable pub split_on : ℕ → Text → List Text
split_on sep [] = [] ∷ []
split_on sep (c ∷ s) =
    let parts = split_on sep s in if c == sep then [] ∷ parts else onto_first c parts

-- `sep.join(parts)`
unfoldable pub join : Text → List Text → Text
join sep [] = []
join sep (p ∷ []) = p
join sep (p ∷ q ∷ ps) = p ++ (sep ++ join sep (q ∷ ps))

pub split_on-ne-nil : (sep : ℕ) (s : Text) → is_empty (split_on sep s) ≡ false
unfolding split_on
split_on-ne-nil sep [] = refl
split_on-ne-nil sep (c ∷ s) = ground (arith, split_on-ne-nil sep s)

join-onto_first :
    (sep c : ℕ) (ps : List Text)
    → is_empty ps ≡ false
    → join (sep ∷ []) (onto_first c ps) ≡ c ∷ join (sep ∷ []) ps
unfolding join
join-onto_first sep c [] h = cc
join-onto_first sep c (p ∷ []) h = refl
join-onto_first sep c (p ∷ q ∷ ps) h = refl

join-nil_cons :
    (sep : ℕ) (ps : List Text)
    → is_empty ps ≡ false
    → join (sep ∷ []) ([] ∷ ps) ≡ sep ∷ join (sep ∷ []) ps
unfolding join
join-nil_cons sep [] h = cc
join-nil_cons sep (p ∷ ps) h = refl

-- Joining the parts of a split gives the text back.
pub join-split_on : (sep : ℕ) (s : Text) → join (sep ∷ []) (split_on sep s) ≡ s
unfolding split_on
join-split_on sep [] = unfold join in refl
join-split_on sep (c ∷ s) = elim (Bool-cases (c == sep)) [
  | inl e ↦
      let k : c ≡ sep = ground arith in
      rw e
        (join-nil_cons sep (split_on sep s) (split_on-ne-nil sep s) ∙ rw (join-split_on sep s, k))
  | inr e ↦
      rw e
        (join-onto_first sep c (split_on sep s) (split_on-ne-nil sep s) ∙ rw (join-split_on sep s))
]

onto_first-append :
    (c : ℕ) (ps qs : List Text)
    → is_empty ps ≡ false
    → onto_first c ps ++ qs ≡ onto_first c (ps ++ qs)
onto_first-append c [] qs h = cc
onto_first-append c (p ∷ ps) qs h = refl

-- A separator between two texts separates their parts.
pub split_on-append :
    (sep : ℕ) (s t : Text) → split_on sep (s ++ sep ∷ t) ≡ split_on sep s ++ split_on sep t
unfolding split_on
split_on-append sep [] t = let e : (sep == sep) ≡ true = ground arith in rw e
split_on-append sep (c ∷ s) t = elim (Bool-cases (c == sep)) [
  | inl e ↦ rw (e, split_on-append sep s t)
  | inr e ↦ rw (
    e,
    split_on-append sep s t,
    onto_first-append c (split_on sep s) (split_on sep t) (split_on-ne-nil sep s),
  )
]

abbrev pub Lacks : ℕ → Text → Type 0
Lacks c = All (λ d. d ≢ c)

-- A text without the separator is one part.
pub split_on-Lacks : (sep : ℕ) (s : Text) → Lacks sep s → split_on sep s ≡ s ∷ []
unfolding split_on
split_on-Lacks sep [] h = refl
split_on-Lacks sep (c ∷ s) h = ground (arith, split_on-Lacks sep s h.1)

onto_first-Lacks :
    (sep c : ℕ) (ps : List Text) → c ≢ sep → All (Lacks sep) ps → All (Lacks sep) (onto_first c ps)
onto_first-Lacks sep c [] h k = ((h, tt), tt)
onto_first-Lacks sep c (p ∷ ps) h k = ((h, k.0), k.1)

-- No part holds the separator.
pub split_on-absent : (sep : ℕ) (s : Text) → All (Lacks sep) (split_on sep s)
unfolding split_on
split_on-absent sep [] = (tt, tt)
split_on-absent sep (c ∷ s) = elim (Bool-cases (c == sep)) [
  | inl e ↦ rw e (tt, split_on-absent sep s)
  | inr e ↦ rw e (onto_first-Lacks sep c (split_on sep s) (ground arith) (split_on-absent sep s))
]

-- The parts of a join are the parts of what is joined.
unfoldable pub split_all : ℕ → List Text → List Text
split_all sep [] = []
split_all sep (p ∷ ps) = split_on sep p ++ split_all sep ps

pub split_on-join :
    (sep : ℕ) (p : Text) (ps : List Text)
    → split_on sep (join (sep ∷ []) (p ∷ ps)) ≡ split_all sep (p ∷ ps)
unfolding join split_all
split_on-join sep p [] = sym (append-nil (split_on sep p))
split_on-join sep p (q ∷ ps) =
    split_on-append sep p (join (sep ∷ []) (q ∷ ps))
    ∙ ap (λ x. split_on sep p ++ x) (split_on-join sep q ps)

pub split_all-Lacks : (sep : ℕ) (ps : List Text) → All (Lacks sep) ps → split_all sep ps ≡ ps
unfolding split_all
split_all-Lacks sep [] h = refl
split_all-Lacks sep (p ∷ ps) h = rw (split_on-Lacks sep p h.0, split_all-Lacks sep ps h.1)
