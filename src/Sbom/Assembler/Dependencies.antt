-- ===== src/Sbom/Assembler/Dependencies.antt =====
-- The packages of a document and the dependencies between them
-- (src/debcraft/domain/sbom/assembler.py).
use debcraft.Prelude.{
  ◌≡◌, refl, ap, ◌∙◌, sym, Option, none, some, List, [], ◌∷◌, ◌++◌, map, arith, length, ok,
  >>=-eq-ok,
}
use debcraft.Prelude.Text.{Text, codes, list_text_eq}
use debcraft.Prelude.Dict.{Dict, get, put, get-put, get-nil}
use debcraft.Sbom.Values.{
  RelationshipType, SbomPackage, check_package, SbomRelationship, SbomDocument,
}
use debcraft.Sbom.Assembler.Ids.{bases_of}
use debcraft.Sbom.Assembler.Closed.{
  joined, check_package-same, edges-map, check_document-same, length-resolve_collisions,
  length-bases_of,
}
use debcraft.Sbom.Assembler.{
  EnrichedPackage, Environment, final_ids, build_packages, name_index, edges, depends_of,
  targets_of, build_depends_on_relationships, depend_all, root_spdx_id, root_package,
  build_relationships, assemble, generate_namespace,
}
use debcraft.Sbom.Assembler.Packages.{ArePackagesOf, build_each-ArePackagesOf}
use debcraft.Sbom.Assembler.Targets.{last_named, depended, targets_of-depended}

-- The dependencies of some of the packages, with their ids, on all of them.
abbrev pub dependencies :
    List EnrichedPackage → List Text → List EnrichedPackage → List Text → List SbomRelationship
dependencies es ids [] own = []
dependencies es ids (x ∷ xs) [] = []
dependencies es ids (x ∷ xs) (id ∷ own) =
    map (joined RelationshipType.depends_on id) (depended es ids x.enrichment)
    ++ dependencies es ids xs own

-- The index has the last package of each name.
get-name_index-last_named :
    (es : List EnrichedPackage) (ids : List Text) (ps : List SbomPackage) (index : Dict Text Text)
    (name : Text)
    → ArePackagesOf es ids ps
    → get (name_index ps index) name
      ≡ elim (last_named name es ids) [ some later ↦ some later | none ↦ get index name ]
unfolding name_index
get-name_index-last_named [] [] [] index name h = refl
get-name_index-last_named [] [] (p ∷ ps) index name h = absurd h
get-name_index-last_named [] (id ∷ ids) ps index name h = absurd h
get-name_index-last_named (e ∷ es) [] ps index name h = absurd h
get-name_index-last_named (e ∷ es) (id ∷ ids) [] index name h = absurd h
get-name_index-last_named (e ∷ es) (id ∷ ids) (p ∷ ps) index name (own, h) = ground (
  arith,
  own.0,
  own.1,
  get-name_index-last_named es ids ps (put index p.name p.spdx_id) name h,
  get-put index p.name name p.spdx_id,
)

module _ (es : List EnrichedPackage) (ids : List Text) (index : Dict Text Text)
    (indexed : (name : Text) → get index name ≡ last_named name es ids) where
  depend_all-dependencies :
      (xs : List EnrichedPackage) (own : List Text) (ps : List SbomPackage)
      (rs : List SbomRelationship)
      → ArePackagesOf xs own ps
      → depend_all index xs ps ≡ ok rs
      → rs ≡ dependencies es ids xs own
  unfolding depend_all build_depends_on_relationships
  depend_all-dependencies [] [] [] rs h e = ground arith
  depend_all-dependencies [] [] (p ∷ ps) rs h e = absurd h
  depend_all-dependencies [] (id ∷ own) ps rs h e = absurd h
  depend_all-dependencies (x ∷ xs) [] ps rs h e = absurd h
  depend_all-dependencies (x ∷ xs) (id ∷ own) [] rs h e = absurd h
  depend_all-dependencies (x ∷ xs) (id ∷ own) (p ∷ ps) rs (h, hs) e =
      let targets = targets_of index (depends_of x.enrichment) in
      let k = >>=-eq-ok (edges RelationshipType.depends_on p.spdx_id targets) _ e in
      let l = >>=-eq-ok (depend_all index xs ps) _ k.2 in
      let same : k.0 ++ l.0 ≡ rs = ground (arith, l.2) in
      let first =
        edges-map RelationshipType.depends_on p.spdx_id targets k.0 k.1
        ∙ ap (λ i. map (joined RelationshipType.depends_on i) targets) h.0
        ∙ ap (λ ts. map (joined RelationshipType.depends_on id) ts)
            (targets_of-depended es ids index indexed x.enrichment) in
      let rest = depend_all-dependencies xs own ps l.0 hs l.1 in
      sym same
      ∙ ap (λ r. r ++ l.0) first
      ∙ ap (λ r. map (joined RelationshipType.depends_on id) (depended es ids x.enrichment) ++ r)
          rest

spdx_ids-ids :
    (es : List EnrichedPackage) (ids : List Text) (ps : List SbomPackage)
    → ArePackagesOf es ids ps
    → map (λ (p : SbomPackage). p.spdx_id) ps ≡ ids
spdx_ids-ids [] [] [] h = refl
spdx_ids-ids [] [] (p ∷ ps) h = absurd h
spdx_ids-ids [] (id ∷ ids) ps h = absurd h
spdx_ids-ids (e ∷ es) [] ps h = absurd h
spdx_ids-ids (e ∷ es) (id ∷ ids) [] h = absurd h
spdx_ids-ids (e ∷ es) (id ∷ ids) (p ∷ ps) (h, hs) = cc (h.0, spdx_ids-ids es ids ps hs)

build_relationships-dependencies :
    (es : List EnrichedPackage) (ids : List Text) (ps : List SbomPackage)
    (rs : List SbomRelationship)
    → ArePackagesOf es ids ps
    → build_relationships es ps ≡ ok rs
    → rs ≡ map (joined RelationshipType.describes root_spdx_id) ids ++ dependencies es ids es ids
unfolding build_relationships
build_relationships-dependencies es ids ps rs own h =
    let k = >>=-eq-ok (edges RelationshipType.describes root_spdx_id _) _ h in
    let l = >>=-eq-ok (depend_all (name_index ps []) es ps) _ k.2 in
    let described =
      edges-map RelationshipType.describes root_spdx_id _ k.0 k.1
      ∙ ap (map (joined RelationshipType.describes root_spdx_id)) (spdx_ids-ids es ids ps own) in
    let depending =
      depend_all-dependencies es ids (name_index ps [])
        (λ name.
          get-name_index-last_named es ids ps [] name own ∙ unlooked name (last_named name es ids))
        es ids ps l.0 own l.1 in
    let same : k.0 ++ l.0 ≡ rs = ground (arith, l.2) in
    sym same
    ∙ ap (λ r. r ++ l.0) described
    ∙ ap (λ r. map (joined RelationshipType.describes root_spdx_id) ids ++ r) depending
  where
    unlooked :
        (name : Text) (o : Option Text)
        → elim o [ some later ↦ some later | none ↦ get {V = Text} [] name ] ≡ o
    unlooked name none = get-nil {V = Text} name
    unlooked name (some later) = refl

length-final_ids : (es : List EnrichedPackage) → length es ≡ length (final_ids es)
unfolding final_ids
length-final_ids es = omega (arith, length-resolve_collisions (bases_of es) [], length-bases_of es)

-- The document of an artifact's packages.
pub record Assembled (artifact_path : Text) (es : List EnrichedPackage) (doc : SbomDocument)
    : Type 0 where
  pub name : doc.name ≡ artifact_path
  pub root : (doc.root_package).name ≡ artifact_path
  pub packages : ArePackagesOf es (final_ids es) doc.packages
  pub relationships :
      doc.relationships
      ≡ map (joined RelationshipType.describes (codes "SPDXRef-Package-root")) (final_ids es)
        ++ dependencies es (final_ids es) es (final_ids es)

module _ (env : Environment) where
  -- An assembled document and its root are named for the artifact. It has one package for each package
  -- of the scan, with the final ids in their order, and that package's name, version, maintainer,
  -- download URL and package URL. Its relationships are the root's descriptions of these and then,
  -- for each package in its order, its dependencies: one on the last package of the document of each
  -- name that a part of its `Depends` field begins with, in the order of the parts and
  -- without repetition.
  pub assemble-Assembled :
      (artifact_path : Text) (es : List EnrichedPackage) (doc : SbomDocument)
      → assemble env artifact_path es ≡ ok doc
      → Assembled artifact_path es doc
  unfolding assemble
  assemble-Assembled artifact_path es doc h =
      let n = >>=-eq-ok (generate_namespace env artifact_path) _ h in
      let k = >>=-eq-ok (check_package (root_package artifact_path)) _ n.2 in
      let l = >>=-eq-ok (build_packages es) _ k.2 in
      let m = >>=-eq-ok (build_relationships es l.0) _ l.2 in
      let own =
        build_each-ArePackagesOf es (final_ids es) l.0 (length-final_ids es)
          (unfold build_packages in l.1) in
      rw (← (check_document-same _ doc m.2)) (record {
        name = refl;
        root =
            ap (λ (p : SbomPackage). p.name) (sym (check_package-same _ k.0 k.1))
            ∙ unfold root_package in refl;
        packages = own;
        relationships = build_relationships-dependencies es (final_ids es) l.0 m.0 own m.1;
      })
