-- ===== src/Sbom/Assembler/Targets.antt =====
-- The dependencies of one package (src/debcraft/domain/sbom/assembler.py).
use debcraft.Prelude.{
  ℕ, ◌≡◌, refl, ap, ◌∙◌, sym, inl, inr, Bool, true, false, not, Option, none, some, List, [], ◌∷◌,
  arith, Bool-cases, contains, keep, is_empty, ◌==◌, if◌then◌else◌,
}
use debcraft.Prelude.Text.{Text, list_text_eq}
use debcraft.Prelude.Lines.{split_on}
use debcraft.Prelude.Strip.{strip, lstrip, rstrip, partition}
use debcraft.Prelude.Dict.{Dict, get}
use debcraft.Sbom.Assembler.{
  EnrichedPackage, PackageEnrichment, before_first, target_of, unless_seen, prepend, depend_targets,
  depends_of, targets_of, dependency_name,
}

-- The text before the first of one character.
abbrev pub upto : ℕ → Text → Text
upto sep [] = []
upto sep (c ∷ s) = let rest = upto sep s in if c == sep then [] else c ∷ rest

-- The name that a part of a `Depends` field begins with: its text before a version and before the
-- alternatives.
abbrev pub named_by : Text → Text
named_by part = strip (upto b'|' (strip (upto b'(' (strip part))))

-- The id of the last package of a name.
abbrev pub last_named : Text → List EnrichedPackage → List Text → Option Text
last_named name [] ids = none
last_named name (e ∷ es) [] = none
last_named name (e ∷ es) (id ∷ ids) = elim (last_named name es ids) [
  | some later ↦ some later
  | none ↦ if list_text_eq.same e.identified.name name then some id else none
]

-- An id in front of others, if there is a name and a package for it.
abbrev pub onto_found : (is_nameless : Bool) → Option Text → List Text → List Text
onto_found true o ids = ids
onto_found false none ids = ids
onto_found false (some id) ids = id ∷ ids

-- The ids of the packages that the parts name, where there are such.
abbrev pub found : List EnrichedPackage → List Text → List Text → List Text
found es ids [] = []
found es ids (part ∷ parts) =
    onto_found (is_empty (named_by part)) (last_named (named_by part) es ids) (found es ids parts)

-- Each id once, at its first place.
abbrev pub distinct : List Text → List Text
distinct [] = []
distinct (t ∷ ts) = t ∷ keep (λ u. not (list_text_eq.same t u)) (distinct ts)

abbrev pub depended : List EnrichedPackage → List Text → Option PackageEnrichment → List Text
depended es ids none = []
depended es ids (some e) = elim e.depends [
  | none ↦ []
  | some depends ↦ distinct (found es ids (split_on b',' depends))
]

before_first-upto : (sep : ℕ) (s : Text) → before_first sep s ≡ upto sep s
unfolding before_first partition
before_first-upto sep [] = refl
before_first-upto sep (c ∷ s) = ground (arith, before_first-upto sep s)

dependency_name-named_by : (part : Text) → dependency_name (strip part) ≡ named_by part
unfolding dependency_name
dependency_name-named_by part =
    rw (before_first-upto b'(' (strip part))
      (rw (before_first-upto b'|' (strip (upto b'(' (strip part)))) refl)

no_name : (s : Text) → is_empty s ≡ true → is_empty (strip (upto b'|' (strip (upto b'(' s)))) ≡ true
unfolding strip lstrip rstrip
no_name [] h = refl
no_name (c ∷ s) h = cc

module _ (es : List EnrichedPackage) (ids : List Text) (index : Dict Text Text)
    (indexed : (name : Text) → get index name ≡ last_named name es ids) where
  target_of-last_named :
      (part : Text)
      → target_of index part
        ≡ (if is_empty (named_by part) then none else last_named (named_by part) es ids)
  unfolding target_of
  target_of-last_named part =
      rw (dependency_name-named_by part)
        (ground (arith, no_name (strip part), indexed (named_by part)))

  keep-contains :
      (seen : List Text) (t : Text) (ts : List Text)
      → contains seen t ≡ true
      → keep (λ u. not (contains seen u)) (keep (λ u. not (list_text_eq.same t u)) ts)
        ≡ keep (λ u. not (contains seen u)) ts
  keep-contains seen t [] h = refl
  keep-contains seen t (u ∷ ts) h = elim (Bool-cases (list_text_eq.same t u)) [
    | inl e ↦
        let k : contains seen u ≡ true = rw (← ((list_text_eq.same_iff t u).0 e)) h in
        simp (e, k) (keep-contains seen t ts h)
    | inr e ↦ simp (e, keep-contains seen t ts h)
  ]

  keep-keep :
      (seen : List Text) (t : Text) (ts : List Text)
      → keep (λ u. not (contains (t ∷ seen) u)) ts
        ≡ keep (λ u. not (contains seen u)) (keep (λ u. not (list_text_eq.same t u)) ts)
  keep-keep seen t [] = refl
  keep-keep seen t (u ∷ ts) = elim (Bool-cases (list_text_eq.same t u)) [
    | inl e ↦ simp (e, keep-keep seen t ts)
    | inr e ↦ simp (e, keep-keep seen t ts)
  ]

  depend_targets-distinct :
      (seen parts : List Text)
      → depend_targets index seen parts
        ≡ keep (λ u. not (contains seen u)) (distinct (found es ids parts))
  unfolding depend_targets unless_seen
  depend_targets-distinct seen [] = refl
  depend_targets-distinct seen (part ∷ parts) = rw (target_of-last_named part) (
      go (is_empty (named_by part)) (last_named (named_by part) es ids)
        (λ s. depend_targets-distinct s parts))
    where
      go :
          (b : Bool) (o : Option Text)
          → ((s : List Text)
              → depend_targets index s parts
                ≡ keep (λ u. not (contains s u)) (distinct (found es ids parts)))
          → let target = unless_seen seen (if b then none else o) in
            prepend target (depend_targets index (prepend target seen) parts)
            ≡ keep (λ u. not (contains seen u)) (distinct (onto_found b o (found es ids parts)))
      go true o k = k seen
      go false none k = k seen
      go false (some t) k = elim (Bool-cases (contains seen t)) [
        | inl c ↦ simp c (k seen ∙ sym (keep-contains seen t (distinct (found es ids parts)) c))
        | inr c ↦
            simp c
              (ap (λ l. t ∷ l) (k (t ∷ seen) ∙ keep-keep seen t (distinct (found es ids parts))))
      ]

  keep-all : (ts : List Text) → keep (λ u. not (contains {A = Text} [] u)) ts ≡ ts
  keep-all [] = refl
  keep-all (t ∷ ts) = ap (λ l. t ∷ l) (keep-all ts)

  pub targets_of-depended :
      (o : Option PackageEnrichment) → targets_of index (depends_of o) ≡ depended es ids o
  unfolding targets_of depends_of
  targets_of-depended none = refl
  targets_of-depended (some e) = go e.depends
    where
      go :
          (d : Option Text)
          → targets_of index d
            ≡ elim d [ none ↦ [] | some depends ↦ distinct (found es ids (split_on b',' depends)) ]
      go none = refl
      go (some depends) =
          depend_targets-distinct [] (split_on b',' depends)
          ∙ keep-all (distinct (found es ids (split_on b',' depends)))
