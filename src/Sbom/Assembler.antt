-- ===== src/Sbom/Assembler.antt =====
-- src/debcraft/domain/sbom/assembler.py: an SBOM document from the packages of a scan.
pub mod Labels
pub mod Ids
pub mod Closed
pub mod Packages
pub mod Targets
pub mod Dependencies
pub mod Accepted
use debcraft.Prelude.{
  ℕ, ◌+◌, Bool, true, false, ◌||◌, Option, none, some, List, [], ◌∷◌, ◌++◌, map, take,
  if◌then◌else◌, is_empty, contains, any, leb, ◌&&◌, Result, ok, err, ◌>>=◌,
}
use debcraft.Prelude.Text.{Text, codes, list_text_eq}
use debcraft.Prelude.Lines.{split_on}
use debcraft.Prelude.Strip.{strip, partition}
use debcraft.Prelude.Dict.{Dict, get, put}
use debcraft.Prelude.Decimal.{decimal}
use debcraft.Dpkg.{IdentifiedPackage}
use debcraft.Sbom.Values.{
  RelationshipType, ChecksumAlgorithm, ReferenceCategory, ValueError, is_safe, SbomChecksum,
  check_checksum, SbomExternalReference, check_reference, SbomPackage, check_package,
  SbomRelationship, check_relationship, SbomCreationInfo, SbomDocument, check_document,
}

-- `PackageEnrichment` of src/debcraft/domain/scanner/values.py, as far as the assembler reads it.
pub record PackageEnrichment : Type 0 where
  pub maintainer : Option Text
  pub depends : Option Text
  pub sha256 : Option Text
  pub download_url : Option Text
  pub purl : Option Text
  pub license_expressions : List (Text × Text)

pub record EnrichedPackage : Type 0 where
  pub identified : IdentifiedPackage
  pub enrichment : Option PackageEnrichment

-- What the standard library gives: the version of the installed program, the time, the hexadecimal
-- SHA-256 of the artifact's path, and a fresh UUID.
pub record Environment : Type 0 where
  pub debcraft_version : Text
  pub now : Text
  pub path_hash : Text → Text
  pub unique_id : Text

unfoldable pub sanitize_for_spdx_id : Text → Text
sanitize_for_spdx_id = map (λ c. if is_safe c then c else b'-')

unfoldable pub base_id : IdentifiedPackage → Text
base_id p =
    codes "SPDXRef-Package-"
    ++ (sanitize_for_spdx_id p.name ++ b'-' ∷ sanitize_for_spdx_id p.version)

-- The id of one package and the new count of its base, given the count so far.
unfoldable pub number_id : Text → Option ℕ → Text × ℕ
number_id base none = (base, 1)
number_id base (some n) = (base ++ b'-' ∷ decimal (n + 1), n + 1)

-- The second pass of `_build_packages`.
unfoldable pub resolve_collisions : List Text → Dict Text ℕ → List Text
resolve_collisions [] id_counts = []
resolve_collisions (base ∷ bases) id_counts =
    let (id, count) = number_id base (get id_counts base) in
    id ∷ resolve_collisions bases (put id_counts base count)

unfoldable pub final_ids : List EnrichedPackage → List Text
final_ids packages = resolve_collisions (map (λ e. base_id e.identified) packages) []

unfoldable pub describe_architecture : Text → Option Text
describe_architecture architecture =
    if is_empty architecture then none else some (codes "Architecture: " ++ architecture)

unfoldable pub references_of : Option Text → Result ValueError (List SbomExternalReference)
references_of none = ok []
references_of (some purl) = do
  r ← check_reference (record { category = ReferenceCategory.package_manager; url = purl })
  ok (r ∷ [])

unfoldable pub checksums_of : Option Text → Result ValueError (List SbomChecksum)
checksums_of none = ok []
checksums_of (some sha256) = do
  c ← check_checksum (record { algorithm = ChecksumAlgorithm.sha256; value = sha256 })
  ok (c ∷ [])

unfoldable pub first_license : List (Text × Text) → Option Text
first_license [] = none
first_license ((expression, source) ∷ more) = some expression

-- The package without its enrichment.
unfoldable pub plain_package : IdentifiedPackage → Text → SbomPackage
plain_package p spdx_id = record {
  spdx_id = spdx_id;
  name = p.name;
  version = some p.version;
  supplier = none;
  download_location = none;
  checksums = [];
  package_url = none;
  concluded_license = none;
  declared_license = none;
  description = describe_architecture p.architecture;
  external_references = [];
}

-- The fields that an enrichment gives, and the last construction of `_build_single_package`.
unfoldable pub enrich : SbomPackage → Option PackageEnrichment → Result ValueError SbomPackage
enrich p none = check_package p
enrich p (some e) = do
  references ← references_of e.purl
  checksums ← checksums_of e.sha256
  check_package (record p {
    supplier = e.maintainer;
    download_location = e.download_url;
    checksums = checksums;
    package_url = e.purl;
    concluded_license = first_license e.license_expressions;
    declared_license = first_license e.license_expressions;
    external_references = references;
  })

unfoldable pub build_single_package : EnrichedPackage → Text → Result ValueError SbomPackage
build_single_package e spdx_id = enrich (plain_package e.identified spdx_id) e.enrichment

unfoldable pub build_each : List EnrichedPackage → List Text → Result ValueError (List SbomPackage)
build_each [] ids = ok []
build_each (e ∷ es) [] = ok []
build_each (e ∷ es) (id ∷ ids) = do
  p ← build_single_package e id
  ps ← build_each es ids
  ok (p ∷ ps)

unfoldable pub build_packages : List EnrichedPackage → Result ValueError (List SbomPackage)
build_packages packages = build_each packages (final_ids packages)

-- `name_to_spdx_id`: of packages with one name the last.
unfoldable pub name_index : List SbomPackage → Dict Text Text → Dict Text Text
name_index [] index = index
name_index (p ∷ ps) index = name_index ps (put index p.name p.spdx_id)

-- `s.split(sep)[0]`
unfoldable pub before_first : ℕ → Text → Text
before_first sep s = elim (partition sep s) [ none ↦ s | some (before, after) ↦ before ]

-- The name at the head of a dependency, of alternatives the first.
unfoldable pub dependency_name : Text → Text
dependency_name spec = strip (before_first b'|' (strip (before_first b'(' spec)))

unfoldable pub edge : RelationshipType → Text → Text → Result ValueError SbomRelationship
edge kind source target =
    check_relationship (record { source_id = source; target_id = target; relationship_type = kind })

-- The package that a dependency names, if the document has one of that name.
unfoldable pub target_of : Dict Text Text → Text → Option Text
target_of index part =
    let dep_spec = strip part in
    let dep_name = dependency_name dep_spec in
    if is_empty dep_spec || is_empty dep_name then none else get index dep_name

unfoldable pub unless_seen : List Text → Option Text → Option Text
unless_seen seen none = none
unless_seen seen (some target) = if contains seen target then none else some target

abbrev pub prepend : Option Text → List Text → List Text
prepend none targets = targets
prepend (some target) targets = target ∷ targets

-- The loop over the dependencies of one package. All its pairs have one source, so `seen_pairs` is
-- kept as their targets.
unfoldable pub depend_targets : Dict Text Text → List Text → List Text → List Text
depend_targets index seen [] = []
depend_targets index seen (part ∷ parts) =
    let target = unless_seen seen (target_of index part) in
    prepend target (depend_targets index (prepend target seen) parts)

unfoldable pub edges :
    RelationshipType → Text → List Text → Result ValueError (List SbomRelationship)
edges kind source [] = ok []
edges kind source (target ∷ targets) = do
  r ← edge kind source target
  rs ← edges kind source targets
  ok (r ∷ rs)

unfoldable pub depends_of : Option PackageEnrichment → Option Text
depends_of none = none
depends_of (some e) = e.depends

unfoldable pub targets_of : Dict Text Text → Option Text → List Text
targets_of index none = []
targets_of index (some depends) = depend_targets index [] (split_on b',' depends)

unfoldable pub build_depends_on_relationships :
    Dict Text Text → EnrichedPackage → Text → Result ValueError (List SbomRelationship)
build_depends_on_relationships index e source =
    edges RelationshipType.depends_on source (targets_of index (depends_of e.enrichment))

-- `zip(enriched_packages, packages)`
unfoldable pub depend_all :
    Dict Text Text
    → List EnrichedPackage
    → List SbomPackage
    → Result ValueError (List SbomRelationship)
depend_all index [] ps = ok []
depend_all index (e ∷ es) [] = ok []
depend_all index (e ∷ es) (p ∷ ps) = do
  rs ← build_depends_on_relationships index e p.spdx_id
  more ← depend_all index es ps
  ok (rs ++ more)

-- A code point that UTF-8 does not encode.
abbrev pub is_surrogate : ℕ → Bool
is_surrogate c = leb 0xd800 c && leb c 0xdfff

abbrev pub root_spdx_id : Text
root_spdx_id = codes "SPDXRef-Package-root"

unfoldable pub root_package : Text → SbomPackage
root_package name = record {
  spdx_id = root_spdx_id;
  name = name;
  version = none;
  supplier = none;
  download_location = none;
  checksums = [];
  package_url = none;
  concluded_license = none;
  declared_license = none;
  description = none;
  external_references = [];
}

abbrev pub spdx_ids : List SbomPackage → List Text
spdx_ids = map (λ p. p.spdx_id)

unfoldable pub build_relationships :
    List EnrichedPackage → List SbomPackage → Result ValueError (List SbomRelationship)
build_relationships es ps = do
  described ← edges RelationshipType.describes root_spdx_id (spdx_ids ps)
  depending ← depend_all (name_index ps []) es ps
  ok (described ++ depending)

unfoldable pub comment_on : List EnrichedPackage → Option Text
comment_on [] = some (codes "No packages were identified during scanning.")
comment_on (e ∷ es) = none

module _ (env : Environment) where
  unfoldable pub build_creation_info : SbomCreationInfo
  build_creation_info = record {
    tools = (codes "Tool: debcraft-" ++ env.debcraft_version) ∷ [];
    created = env.now;
    creators = codes "Tool: debcraft" ∷ [];
  }

  -- `artifact_path.encode()` raises `UnicodeEncodeError`, a `ValueError`, on a surrogate.
  unfoldable pub generate_namespace : Text → Result ValueError Text
  generate_namespace artifact_path =
      if any is_surrogate artifact_path
      then err ValueError.unicode_encode
      else ok (
          codes "https://debcraft.io/spdxdocs/"
          ++ (take 16 (env.path_hash artifact_path) ++ b'-' ∷ env.unique_id))

  unfoldable pub assemble : Text → List EnrichedPackage → Result ValueError SbomDocument
  assemble artifact_path es = do
    namespace ← generate_namespace artifact_path
    root ← check_package (root_package artifact_path)
    packages ← build_packages es
    relationships ← build_relationships es packages
    check_document (record {
      namespace = namespace;
      name = artifact_path;
      creation_info = build_creation_info;
      root_package = root;
      packages = packages;
      relationships = relationships;
      comment = comment_on es;
      provenance_tool = codes "debcraft-" ++ env.debcraft_version;
      provenance_timestamp = build_creation_info.created;
    })
