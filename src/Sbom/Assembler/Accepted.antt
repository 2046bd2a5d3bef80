-- ===== src/Sbom/Assembler/Accepted.antt =====
-- When a document is assembled without an error (src/debcraft/domain/sbom/assembler.py and the
-- constructors of src/debcraft/domain/sbom/values.py).
use debcraft.Prelude.{
  ℕ, ◌+◌, ◌≤◌, ◌<◌, ◌≡◌, ◌⊎◌, any, take, refl, inl, inr, true, false, Option, none, some, List, [],
  ◌∷◌, ◌++◌, arith, length, ltb, Bool-cases, All, All-append, contains, ok, is_empty,
}
use debcraft.Prelude.Text.{Text, codes, list_text_eq}
use debcraft.Prelude.Strip.{strip_prefix}
use debcraft.Prelude.Dict.{Dict, get, put, get-nil}
use debcraft.Prelude.Decimal.{decimal, IsDigit, decimal-IsDigit}
use debcraft.Dpkg.{IdentifiedPackage}
use debcraft.Sbom.Values.{
  RelationshipType, ChecksumAlgorithm, is_safe, safe_to_end, SbomChecksum, SbomExternalReference,
  ReferenceCategory, SbomPackage, check_package, SbomRelationship, check_relationship,
  check_checksum, check_reference, hash_length, matches_hex, SbomDocument, check_document,
  matches_spdx_id,
}
use debcraft.Sbom.Assembler.{
  EnrichedPackage, PackageEnrichment, Environment, sanitize_for_spdx_id, base_id, number_id,
  resolve_collisions, final_ids, plain_package, enrich, references_of, checksums_of, first_license,
  build_single_package, build_each, build_packages, name_index, edge, edges, depends_of, targets_of,
  build_depends_on_relationships, depend_all, root_spdx_id, root_package, spdx_ids,
  build_relationships, assemble, is_surrogate, generate_namespace, build_creation_info, comment_on,
}
use debcraft.Sbom.Assembler.Ids.{contains-All, bases_of}
use debcraft.Sbom.Assembler.Closed.{
  joined, build_packages-spdx_ids, get-name_index, targets_of-contains,
}

abbrev IsSafe : Text → Type 0
IsSafe = All (λ c. is_safe c ≡ true)

IsSafe-to_end : (s : Text) → IsSafe s → safe_to_end s ≡ true
unfolding safe_to_end
IsSafe-to_end [] h = refl
IsSafe-to_end (c ∷ s) h = simp (h.0, IsSafe-to_end s h.1)

sanitize-IsSafe : (s : Text) → IsSafe (sanitize_for_spdx_id s)
unfolding sanitize_for_spdx_id
sanitize-IsSafe [] = tt
sanitize-IsSafe (c ∷ s) =
    (elim (Bool-cases (is_safe c)) [ inl e ↦ rw e e | inr e ↦ rw e refl ], sanitize-IsSafe s)

IsDigit-IsSafe : (s : Text) → All IsDigit s → IsSafe s
IsDigit-IsSafe [] h = tt
IsDigit-IsSafe (c ∷ s) h = (ground arith, IsDigit-IsSafe s h.1)

-- An id of a component package.
abbrev IsId : Text → Type 0
IsId id = (u : Text) × (id ≡ codes "SPDXRef-Package-" ++ u) × IsSafe u

IsId-matches_spdx_id : (id : Text) → IsId id → matches_spdx_id id ≡ true
unfolding matches_spdx_id strip_prefix safe_to_end
IsId-matches_spdx_id id (u, e, h) = rw e (rw (IsSafe-to_end u h))

base_id-IsId : (p : IdentifiedPackage) → IsId (base_id p)
unfolding base_id
base_id-IsId p = (
  sanitize_for_spdx_id p.name ++ b'-' ∷ sanitize_for_spdx_id p.version,
  refl,
  All-append (λ c. is_safe c ≡ true) (sanitize_for_spdx_id p.name)
      (b'-' ∷ sanitize_for_spdx_id p.version) (sanitize-IsSafe p.name)
      (refl, sanitize-IsSafe p.version),
)

number_id-IsId : (base : Text) (o : Option ℕ) → IsId base → IsId (number_id base o).0
unfolding number_id
number_id-IsId base none h = h
number_id-IsId base (some n) (u, e, h) = (
  u ++ b'-' ∷ decimal (n + 1),
  rw e refl,
  All-append (λ c. is_safe c ≡ true) u (b'-' ∷ decimal (n + 1)) h
      (refl, IsDigit-IsSafe (decimal (n + 1)) (decimal-IsDigit (n + 1))),
)

abbrev Match : List Text → Type 0
Match = All (λ id. matches_spdx_id id ≡ true)

resolve_collisions-Match :
    (bases : List Text) (counts : Dict Text ℕ)
    → All IsId bases
    → Match (resolve_collisions bases counts)
unfolding resolve_collisions
resolve_collisions-Match [] counts h = tt
resolve_collisions-Match (base ∷ bases) counts h =
    let r = number_id base (get counts base) in
    (
      IsId-matches_spdx_id r.0 (number_id-IsId base (get counts base) h.0),
      resolve_collisions-Match bases (put counts base r.1) h.1,
    )

bases_of-IsId : (es : List EnrichedPackage) → All IsId (bases_of es)
bases_of-IsId [] = tt
bases_of-IsId (e ∷ es) = (base_id-IsId e.identified, bases_of-IsId es)

final_ids-Match : (es : List EnrichedPackage) → Match (final_ids es)
unfolding final_ids
final_ids-Match es = resolve_collisions-Match (bases_of es) [] (bases_of-IsId es)

-- A value that is given is not empty.
abbrev pub IsFilled : Option Text → Type 0
IsFilled none = Unit
IsFilled (some s) = is_empty s ≡ false

-- A value that is given is 64 lowercase hexadecimal digits.
abbrev pub IsSha256 : Option Text → Type 0
IsSha256 none = Unit
IsSha256 (some s) = (length s ≡ 64) × (matches_hex s ≡ true)

abbrev pub IsSound : Option PackageEnrichment → Type 0
IsSound none = Unit
IsSound (some e) = IsFilled e.purl × IsSha256 e.sha256

-- A package has a name, and of its enrichment the URL is not empty and the checksum a SHA-256.
abbrev pub IsAcceptable : EnrichedPackage → Type 0
IsAcceptable e = (is_empty e.identified.name ≡ false) × IsSound e.enrichment

references_of-ok :
    (o : Option Text) → IsFilled o → (rs : List SbomExternalReference) × (references_of o ≡ ok rs)
unfolding references_of check_reference
references_of-ok none h = ([], refl)
references_of-ok (some url) h =
    (record { category = ReferenceCategory.package_manager; url = url } ∷ [], rw h)

checksums_of-ok :
    (o : Option Text) → IsSha256 o → (cs : List SbomChecksum) × (checksums_of o ≡ ok cs)
unfolding checksums_of check_checksum hash_length
checksums_of-ok none h = ([], refl)
checksums_of-ok (some value) h =
    (record { algorithm = ChecksumAlgorithm.sha256; value = value } ∷ [], rw (h.0, h.1))

check_package-ok :
    (p : SbomPackage)
    → matches_spdx_id p.spdx_id ≡ true
    → is_empty p.name ≡ false
    → check_package p ≡ ok p
unfolding check_package
check_package-ok p h k = simp (h, k)

build_single_package-ok :
    (e : EnrichedPackage) (id : Text)
    → IsAcceptable e
    → matches_spdx_id id ≡ true
    → (p : SbomPackage) × (build_single_package e id ≡ ok p)
unfolding build_single_package plain_package
build_single_package-ok e id h m = go (plain_package e.identified id) e.enrichment m h.0 h.1
  where
    go :
        (p : SbomPackage) (o : Option PackageEnrichment)
        → matches_spdx_id p.spdx_id ≡ true
        → is_empty p.name ≡ false
        → IsSound o
        → (q : SbomPackage) × (enrich p o ≡ ok q)
    go p none m n s = (p, unfold enrich in check_package-ok p m n)
    go p (some x) m n s =
        let r = references_of-ok x.purl s.0 in
        let c = checksums_of-ok x.sha256 s.1 in
        let q = record p {
          supplier = x.maintainer;
          download_location = x.download_url;
          checksums = c.0;
          package_url = x.purl;
          concluded_license = first_license x.license_expressions;
          declared_license = first_license x.license_expressions;
          external_references = r.0;
        } in
        (q, unfold enrich in simp (r.1, c.1) (check_package-ok q m n))

build_each-ok :
    (es : List EnrichedPackage) (ids : List Text)
    → All IsAcceptable es
    → Match ids
    → (ps : List SbomPackage) × (build_each es ids ≡ ok ps)
unfolding build_each
build_each-ok [] ids h m = ([], refl)
build_each-ok (e ∷ es) [] h m = ([], refl)
build_each-ok (e ∷ es) (id ∷ ids) h m =
    let p = build_single_package-ok e id h.0 m.0 in
    let ps = build_each-ok es ids h.1 m.1 in (p.0 ∷ ps.0, rw (p.1, ps.1))

edges-ok :
    (kind : RelationshipType) (source : Text) (targets : List Text)
    → matches_spdx_id source ≡ true
    → Match targets
    → (rs : List SbomRelationship) × (edges kind source targets ≡ ok rs)
unfolding edges edge check_relationship
edges-ok kind source [] h m = ([], refl)
edges-ok kind source (t ∷ ts) h m =
    let rs = edges-ok kind source ts h m.1 in (joined kind source t ∷ rs.0, rw (h, m.0, rs.1))

contains-Match :
    (ids : List Text) (id : Text) → Match ids → contains ids id ≡ true → matches_spdx_id id ≡ true
contains-Match [] id m h = cc
contains-Match (x ∷ ids) id m h = elim (Bool-cases (list_text_eq.same x id)) [
  | inl e ↦ rw (← (list_text_eq.same_iff x id).0 e) m.0
  | inr e ↦ contains-Match ids id m.1 (ground arith)
]

contains-Match-All :
    (ids targets : List Text) → Match ids → All (λ t. contains ids t ≡ true) targets → Match targets
contains-Match-All ids [] m h = tt
contains-Match-All ids (t ∷ ts) m h = (contains-Match ids t m h.0, contains-Match-All ids ts m h.1)

depend_all-ok :
    (ids : List Text) (index : Dict Text Text) (es : List EnrichedPackage) (ps : List SbomPackage)
    → Match ids
    → ((k t : Text) → get index k ≡ some t → contains ids t ≡ true)
    → Match (spdx_ids ps)
    → (rs : List SbomRelationship) × (depend_all index es ps ≡ ok rs)
unfolding depend_all build_depends_on_relationships
depend_all-ok ids index [] ps m h k = ([], refl)
depend_all-ok ids index (e ∷ es) [] m h k = ([], refl)
depend_all-ok ids index (e ∷ es) (p ∷ ps) m h k =
    let targets = targets_of index (depends_of e.enrichment) in
    let rs = edges-ok RelationshipType.depends_on p.spdx_id targets k.0 (
      contains-Match-All ids targets m
        (targets_of-contains ids index (depends_of e.enrichment) h)) in
    let more = depend_all-ok ids index es ps m h k.1 in (rs.0 ++ more.0, rw (rs.1, more.1))

build_relationships-ok :
    (es : List EnrichedPackage) (ps : List SbomPackage)
    → Match (spdx_ids ps)
    → (rs : List SbomRelationship) × (build_relationships es ps ≡ ok rs)
unfolding build_relationships
build_relationships-ok es ps m =
    let ids = spdx_ids ps in
    let described =
      edges-ok RelationshipType.describes root_spdx_id ids
        (unfold matches_spdx_id strip_prefix safe_to_end in refl) m in
    let depending =
      depend_all-ok ids (name_index ps []) es ps m
        (λ name t e.
          get-name_index ids ps [] name t (contains-All ids)
            (λ j u n. ground (arith, get-nil {V = Text} j)) e)
        m in
    (described.0 ++ depending.0, rw (described.1, depending.1))

check_document-ok :
    (d : SbomDocument)
    → is_empty d.namespace ≡ false
    → is_empty d.name ≡ false
    → length d.name ≤ 255
    → check_document d ≡ ok d
unfolding check_document
check_document-ok d s n l = let k : ltb 255 (length d.name) ≡ false = ground arith in simp (s, n, k)

no_surrogate :
    (path : Text) → All (λ c. (c < 0xd800) ⊎ (0xdfff < c)) path → any is_surrogate path ≡ false
no_surrogate [] h = refl
no_surrogate (c ∷ path) h = ground (arith, no_surrogate path h.1)

generate_namespace-ok :
    (env : Environment) (path : Text)
    → All (λ c. (c < 0xd800) ⊎ (0xdfff < c)) path
    → (namespace : Text) × (generate_namespace env path ≡ ok namespace)
      × (is_empty namespace ≡ false)
unfolding generate_namespace
generate_namespace-ok env path h =
    let digits = take 16 (env.path_hash path) ++ b'-' ∷ env.unique_id in
    (codes "https://debcraft.io/spdxdocs/" ++ digits, rw (no_surrogate path h) refl, refl)

module _ (env : Environment) where
  -- A document is assembled for every artifact whose path has 1 to 255 characters, none of them a
  -- surrogate, and every list of acceptable packages: the constructors of its ids, packages and relationships raise no error.
  pub assemble-ok :
      (artifact_path : Text) (es : List EnrichedPackage)
      → is_empty artifact_path ≡ false
      → length artifact_path ≤ 255
      → All (λ c. (c < 0xd800) ⊎ (0xdfff < c)) artifact_path
      → All IsAcceptable es
      → (doc : SbomDocument) × (assemble env artifact_path es ≡ ok doc)
  unfolding assemble build_packages
  assemble-ok artifact_path es n l u h =
      let namespace = generate_namespace-ok env artifact_path u in
      let ps = build_each-ok es (final_ids es) h (final_ids-Match es) in
      let m : Match (spdx_ids ps.0) =
        rw (build_packages-spdx_ids es ps.0 ps.1) (final_ids-Match es) in
      let rs = build_relationships-ok es ps.0 m in
      let root =
        check_package-ok (root_package artifact_path)
          (unfold root_package matches_spdx_id strip_prefix safe_to_end in refl)
          (unfold root_package in n) in
      let doc : SbomDocument = record {
        namespace = namespace.0;
        name = artifact_path;
        creation_info = build_creation_info env;
        root_package = root_package artifact_path;
        packages = ps.0;
        relationships = rs.0;
        comment = comment_on es;
        provenance_tool = codes "debcraft-" ++ env.debcraft_version;
        provenance_timestamp = (build_creation_info env).created;
      } in
      (doc, simp (namespace.1, root, ps.1, rs.1) (check_document-ok doc namespace.2 n l))
