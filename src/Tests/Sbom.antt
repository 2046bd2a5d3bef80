-- ===== src/Tests/Sbom.antt =====
-- Runs of the SBOM assembler.
use debcraft.Prelude.{◌≡◌, refl, arith, Option, none, some, List, [], ◌∷◌, ◌++◌, ok, All, false}
use debcraft.Prelude.Text.{Text, codes, list_text_eq}
use debcraft.Prelude.Strip.{strip_prefix}
use debcraft.Prelude.Dict.{get, put}
use debcraft.Prelude.Decimal.{decimal}
use debcraft.Sbom.Values.{SbomDocument}
use debcraft.Sbom.Assembler.{
  EnrichedPackage, Environment, assemble, final_ids, sanitize_for_spdx_id, base_id, number_id,
  resolve_collisions,
}
use debcraft.Sbom.Assembler.Ids.{Distinct, clash, bases_of, final_ids-Distinct, final_ids_repeats}
use debcraft.Sbom.Assembler.Labels.{is_numbered}
use debcraft.Sbom.Assembler.Dependencies.{Assembled, assemble-Assembled}
use debcraft.Sbom.Assembler.Accepted.{IsAcceptable, assemble-ok}

abbrev package_of : Text → Text → Option Text → EnrichedPackage
package_of name version depends = record {
  identified = record {
    name = name;
    version = version;
    architecture = codes "amd64";
    status = codes "installed";
  };
  enrichment = some (record {
    maintainer = none;
    depends = depends;
    sha256 = none;
    download_url = none;
    purl = some (codes "pkg:deb/debian/x@1?arch=amd64");
    license_expressions = [];
  });
}

abbrev scanned : List EnrichedPackage
scanned =
    package_of (codes "bash") (codes "5.2+x") (some (codes "libc6 (>= 2.36), debianutils | dash"))
    ∷ package_of (codes "libc6") (codes "2.36") none
    ∷ package_of (codes "bash") (codes "5.2~x") none
    ∷ []

abbrev lab : Environment
lab = record {
  debcraft_version = codes "1";
  now = codes "2026-01-01T00:00:00Z";
  path_hash = λ path. codes "00";
  unique_id = codes "u";
}

numbered_ids :
    final_ids scanned
    ≡ codes "SPDXRef-Package-bash-5.2-x"
      ∷ codes "SPDXRef-Package-libc6-2.36"
      ∷ codes "SPDXRef-Package-bash-5.2-x-2"
      ∷ []
unfolding final_ids resolve_collisions number_id base_id sanitize_for_spdx_id get put decimal
numbered_ids = refl

no_clash : clash (bases_of scanned) ≡ false
unfolding is_numbered strip_prefix base_id sanitize_for_spdx_id
no_clash = refl

final_ids-Distinct_example : Distinct (final_ids scanned)
final_ids-Distinct_example = final_ids-Distinct scanned no_clash

abbrev plain : EnrichedPackage
plain = package_of (codes "a") (codes "1") none

abbrev revised : EnrichedPackage
revised = package_of (codes "a") (codes "1-2") none

revised_id : base_id revised.identified ≡ base_id plain.identified ++ codes "-2"
unfolding base_id sanitize_for_spdx_id
revised_id = refl

repeated_ids : ¬ Distinct (final_ids (plain ∷ plain ∷ revised ∷ []))
repeated_ids = final_ids_repeats plain revised revised_id

acceptable : All IsAcceptable scanned
acceptable = ((refl, (refl, tt)), ((refl, (refl, tt)), ((refl, (refl, tt)), tt)))

assemble-ok_example : (doc : SbomDocument) × (assemble lab (codes "a.iso") scanned ≡ ok doc)
assemble-ok_example =
    assemble-ok lab (codes "a.iso") scanned refl (omega arith) (ground arith) acceptable

assemble-Assembled_example : Assembled (codes "a.iso") scanned assemble-ok_example.0
assemble-Assembled_example =
    assemble-Assembled lab (codes "a.iso") scanned assemble-ok_example.0 assemble-ok_example.1
