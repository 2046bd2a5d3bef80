-- ===== src/Sbom/Assembler/Packages.antt =====
-- The packages of a document (src/debcraft/domain/sbom/assembler.py).
use debcraft.Prelude.{◌≡◌, refl, Option, none, some, List, [], ◌∷◌, arith, length, ok, >>=-eq-ok}
use debcraft.Prelude.Text.{Text, list_text_eq}
use debcraft.Sbom.Values.{SbomPackage}
use debcraft.Sbom.Assembler.Closed.{check_package-same}
use debcraft.Sbom.Assembler.{
  EnrichedPackage, PackageEnrichment, plain_package, enrich, build_single_package, build_each,
  references_of, checksums_of,
}

-- The fields that an enrichment gives to its package.
abbrev pub Enriches : Option PackageEnrichment → SbomPackage → Type 0
Enriches none p = (p.supplier ≡ none) × (p.package_url ≡ none) × (p.download_location ≡ none)
Enriches (some e) p =
    (p.supplier ≡ e.maintainer) × (p.package_url ≡ e.purl) × (p.download_location ≡ e.download_url)

-- The package that a document has for one of the scan.
abbrev pub IsPackageOf : EnrichedPackage → Text → SbomPackage → Type 0
IsPackageOf e id p =
    (p.spdx_id ≡ id)
    × (p.name ≡ e.identified.name)
    × (p.version ≡ some e.identified.version)
    × Enriches e.enrichment p

-- One package for each of the scan, with the ids in their order.
abbrev pub ArePackagesOf : List EnrichedPackage → List Text → List SbomPackage → Type 0
ArePackagesOf [] [] [] = Unit
ArePackagesOf (e ∷ es) (id ∷ ids) (p ∷ ps) = IsPackageOf e id p × ArePackagesOf es ids ps
ArePackagesOf _ _ _ = ⊥

enrich-Enriches :
    (p q : SbomPackage) (o : Option PackageEnrichment)
    → enrich p o ≡ ok q
    → (p.supplier ≡ none) × (p.package_url ≡ none) × (p.download_location ≡ none)
    → (q.spdx_id ≡ p.spdx_id) × (q.name ≡ p.name) × (q.version ≡ p.version) × Enriches o q
unfolding enrich
enrich-Enriches p q none h n = rw (← (check_package-same p q h)) (refl, refl, refl, n)
enrich-Enriches p q (some e) h n =
    let k = >>=-eq-ok (references_of e.purl) _ h in
    let l = >>=-eq-ok (checksums_of e.sha256) _ k.2 in
    rw (← (check_package-same _ q l.2)) (refl, refl, refl, (refl, refl, refl))

pub build_each-ArePackagesOf :
    (es : List EnrichedPackage) (ids : List Text) (ps : List SbomPackage)
    → length es ≡ length ids
    → build_each es ids ≡ ok ps
    → ArePackagesOf es ids ps
unfolding build_each build_single_package
build_each-ArePackagesOf [] [] ps l h = let k : [] ≡ ps = ground (arith, h) in rw (← k) tt
build_each-ArePackagesOf [] (id ∷ ids) ps l h = absurd (omega (arith, l))
build_each-ArePackagesOf (e ∷ es) [] ps l h = absurd (omega (arith, l))
build_each-ArePackagesOf (e ∷ es) (id ∷ ids) ps l h =
    let k = >>=-eq-ok (enrich (plain_package e.identified id) e.enrichment) _ h in
    let m = >>=-eq-ok (build_each es ids) _ k.2 in
    let own : IsPackageOf e id k.0 =
      unfold plain_package in
      enrich-Enriches (plain_package e.identified id) k.0 e.enrichment k.1 (refl, refl, refl) in
    let ih = build_each-ArePackagesOf es ids m.0 (omega (arith, l)) m.1 in
    let same : k.0 ∷ m.0 ≡ ps = ground (arith, m.2) in rw (← same) (own, ih)
