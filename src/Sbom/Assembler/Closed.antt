-- ===== src/Sbom/Assembler/Closed.antt =====
-- The ids that the relationships of a document join (src/debcraft/domain/sbom/assembler.py).
use debcraft.Prelude.{
  ℕ, ◌≡◌, refl, ap, ◌∙◌, sym, inl, inr, true, ◌||◌, Option, none, some, List, [], ◌∷◌, map, arith,
  length, Bool-cases, All, contains, ok, >>=-eq-ok, is_empty,
}
use debcraft.Prelude.Text.{Text, list_text_eq}
use debcraft.Prelude.Lines.{split_on}
use debcraft.Prelude.Strip.{strip}
use debcraft.Prelude.Dict.{Dict, get, put, get-put}
use debcraft.Sbom.Values.{
  RelationshipType, SbomPackage, check_package, SbomRelationship, check_relationship, SbomDocument,
  check_document,
}
use debcraft.Sbom.Assembler.Ids.{bases_of}
use debcraft.Sbom.Assembler.{
  EnrichedPackage, PackageEnrichment, final_ids, resolve_collisions, plain_package, enrich,
  build_single_package, build_each, build_packages, references_of, checksums_of, name_index, edge,
  edges, target_of, unless_seen, prepend, depend_targets, targets_of, spdx_ids, dependency_name,
}

pub check_package-same : (p q : SbomPackage) → check_package p ≡ ok q → p ≡ q
unfolding check_package
check_package-same p q h = ground arith

check_relationship-same : (r s : SbomRelationship) → check_relationship r ≡ ok s → r ≡ s
unfolding check_relationship
check_relationship-same r s h = ground arith

enrich-spdx_id :
    (p q : SbomPackage) (o : Option PackageEnrichment) → enrich p o ≡ ok q → q.spdx_id ≡ p.spdx_id
unfolding enrich
enrich-spdx_id p q none h = ap (λ x. x.spdx_id) (sym (check_package-same p q h))
enrich-spdx_id p q (some e) h =
    let k = >>=-eq-ok (references_of e.purl) _ h in
    let l = >>=-eq-ok (checksums_of e.sha256) _ k.2 in
    ap (λ x. x.spdx_id) (sym (check_package-same _ q l.2))

-- The packages have the given ids, in their order.
build_each-spdx_ids :
    (es : List EnrichedPackage) (ids : List Text) (ps : List SbomPackage)
    → length es ≡ length ids
    → build_each es ids ≡ ok ps
    → spdx_ids ps ≡ ids
unfolding build_each build_single_package
build_each-spdx_ids [] [] ps l h = ground arith
build_each-spdx_ids [] (id ∷ ids) ps l h = absurd (omega (arith, l))
build_each-spdx_ids (e ∷ es) [] ps l h = absurd (omega (arith, l))
build_each-spdx_ids (e ∷ es) (id ∷ ids) ps l h =
    let k = >>=-eq-ok (enrich (plain_package e.identified id) e.enrichment) _ h in
    let m = >>=-eq-ok (build_each es ids) _ k.2 in
    let own : k.0.spdx_id ≡ id =
      enrich-spdx_id (plain_package e.identified id) k.0 e.enrichment k.1
      ∙ unfold plain_package in refl in
    let ih = build_each-spdx_ids es ids m.0 (omega (arith, l)) m.1 in
    let same : k.0 ∷ m.0 ≡ ps = ground (arith, m.2) in rw (← same) (cc (own, ih))

-- A value of the index is the id of a package.
pub get-name_index :
    (ids : List Text) (ps : List SbomPackage) (index : Dict Text Text) (name target : Text)
    → All (λ id. contains ids id ≡ true) (spdx_ids ps)
    → ((k t : Text) → get index k ≡ some t → contains ids t ≡ true)
    → get (name_index ps index) name ≡ some target
    → contains ids target ≡ true
unfolding name_index
get-name_index ids [] index name target m k h = k name target h
get-name_index ids (p ∷ ps) index name target m k h =
    get-name_index ids ps (put index p.name p.spdx_id) name target m.1
      (λ j t e. ground (arith, get-put index p.name j p.spdx_id, k j t, m.0)) h

-- The relationship of a kind between two ids.
abbrev pub joined : RelationshipType → Text → Text → SbomRelationship
joined kind source target = record {
  source_id = source;
  target_id = target;
  relationship_type = kind;
}

pub edges-map :
    (kind : RelationshipType) (source : Text) (targets : List Text) (rs : List SbomRelationship)
    → edges kind source targets ≡ ok rs
    → rs ≡ map (joined kind source) targets
unfolding edges edge
edges-map kind source [] rs h = ground arith
edges-map kind source (target ∷ targets) rs h =
    let k = >>=-eq-ok (check_relationship (joined kind source target)) _ h in
    let l = >>=-eq-ok (edges kind source targets) _ k.2 in
    ground (
      arith,
      check_relationship-same (joined kind source target) k.0 k.1,
      edges-map kind source targets l.0 l.1,
      l.2,
    )

unless_seen-contains :
    (ids : List Text) (index : Dict Text Text) (seen : List Text) (part t : Text)
    → ((k t : Text) → get index k ≡ some t → contains ids t ≡ true)
    → unless_seen seen (target_of index part) ≡ some t
    → contains ids t ≡ true
unfolding target_of
unless_seen-contains ids index seen part t h e = go (target_of index part) e (λ u k.
    h (dependency_name (strip part)) u
      (elim (Bool-cases (is_empty (strip part) || is_empty (dependency_name (strip part)))) [
        | inl b ↦ ground (arith, k, b)
        | inr b ↦ ground (arith, k, b)
      ]))
  where
    go :
        (o : Option Text)
        → unless_seen seen o ≡ some t
        → ((u : Text) → o ≡ some u → contains ids u ≡ true)
        → contains ids t ≡ true
    go none e k = unfold unless_seen in cc
    go (some u) e k = unfold unless_seen in ground (arith, k u refl)

prepend-contains :
    (ids : List Text) (o : Option Text) (ts : List Text)
    → ((t : Text) → o ≡ some t → contains ids t ≡ true)
    → All (λ t. contains ids t ≡ true) ts
    → All (λ t. contains ids t ≡ true) (prepend o ts)
prepend-contains ids none ts m k = k
prepend-contains ids (some t) ts m k = (m t refl, k)

-- All targets are values of the index.
depend_targets-contains :
    (ids : List Text) (index : Dict Text Text) (seen parts : List Text)
    → ((k t : Text) → get index k ≡ some t → contains ids t ≡ true)
    → All (λ t. contains ids t ≡ true) (depend_targets index seen parts)
unfolding depend_targets
depend_targets-contains ids index seen [] h = tt
depend_targets-contains ids index seen (part ∷ parts) h =
    let o = unless_seen seen (target_of index part) in
    prepend-contains ids o (depend_targets index (prepend o seen) parts)
      (λ t e. unless_seen-contains ids index seen part t h e)
      (depend_targets-contains ids index (prepend o seen) parts h)

pub targets_of-contains :
    (ids : List Text) (index : Dict Text Text) (depends : Option Text)
    → ((k t : Text) → get index k ≡ some t → contains ids t ≡ true)
    → All (λ t. contains ids t ≡ true) (targets_of index depends)
unfolding targets_of
targets_of-contains ids index none h = tt
targets_of-contains ids index (some depends) h =
    depend_targets-contains ids index [] (split_on b',' depends) h

pub length-resolve_collisions :
    (bases : List Text) (counts : Dict Text ℕ)
    → length (resolve_collisions bases counts) ≡ length bases
unfolding resolve_collisions
length-resolve_collisions [] counts = refl
length-resolve_collisions (base ∷ bases) counts = omega (arith, length-resolve_collisions bases _)

pub length-bases_of : (es : List EnrichedPackage) → length (bases_of es) ≡ length es
length-bases_of [] = refl
length-bases_of (e ∷ es) = omega (arith, length-bases_of es)

pub build_packages-spdx_ids :
    (es : List EnrichedPackage) (ps : List SbomPackage)
    → build_packages es ≡ ok ps
    → spdx_ids ps ≡ final_ids es
unfolding build_packages
build_packages-spdx_ids es ps h =
    build_each-spdx_ids es (final_ids es) ps
      (unfold final_ids in
        omega (arith, length-resolve_collisions (bases_of es) [], length-bases_of es))
      h

pub check_document-same : (d e : SbomDocument) → check_document d ≡ ok e → d ≡ e
unfolding check_document
check_document-same d e h = ground arith
