-- ===== src/Sbom/Values.antt =====
-- src/debcraft/domain/sbom/values.py: the value objects, whose constructors raise on a bad value.
use debcraft.Prelude.{
  ℕ, Bool, true, false, ◌||◌, ◌&&◌, Option, none, some, List, [], ◌∷◌, length, leb, ltb, ◌==◌,
  if◌then◌else◌, is_empty, Result, ok, err,
}
use debcraft.Prelude.Text.{Text, codes}
use debcraft.Prelude.Strip.{strip_prefix}

pub data RelationshipType : Type 0 where
  describes contains_element depends_on build_tool_of other : RelationshipType

pub data ChecksumAlgorithm : Type 0 where
  sha256 sha1 md5 : ChecksumAlgorithm

pub data ReferenceCategory : Type 0 where
  package_manager security_advisory other_reference : ReferenceCategory

-- The `ValueError`s, named for the value object and the field.
pub data ValueError : Type 0 where
  checksum_length checksum_hex reference_url package_spdx_id package_name : ValueError
  relationship_source relationship_target : ValueError
  document_namespace document_name document_name_length unicode_encode : ValueError

-- `[a-zA-Z0-9.\-]`
abbrev pub is_safe : ℕ → Bool
is_safe c =
    (leb b'a' c && leb c b'z')
    || (leb b'A' c && leb c b'Z')
    || (leb b'0' c && leb c b'9')
    || c == b'.'
    || c == b'-'

-- `[a-zA-Z0-9.\-]*$` at the end of a pattern: `$` also stands before a newline that ends the text.
unfoldable pub safe_to_end : Text → Bool
safe_to_end [] = true
safe_to_end (c ∷ s) = (is_safe c && safe_to_end s) || (c == 10 && is_empty s)

abbrev safe_part : Option Text → Bool
safe_part none = false
safe_part (some []) = false
safe_part (some (c ∷ s)) = is_safe c && safe_to_end s

-- `_SPDX_ID_PATTERN`
unfoldable pub matches_spdx_id : Text → Bool
matches_spdx_id s = safe_part (strip_prefix (codes "SPDXRef-") s)

-- `[0-9a-f]`
abbrev pub is_hex : ℕ → Bool
is_hex c = (leb b'0' c && leb c b'9') || (leb b'a' c && leb c b'f')

unfoldable pub hex_to_end : Text → Bool
hex_to_end [] = true
hex_to_end (c ∷ s) = (is_hex c && hex_to_end s) || (c == 10 && is_empty s)

-- `_HEX_PATTERN`
unfoldable pub matches_hex : Text → Bool
matches_hex [] = false
matches_hex (c ∷ s) = is_hex c && hex_to_end s

-- `_HASH_LENGTHS`
unfoldable pub hash_length : ChecksumAlgorithm → ℕ
hash_length ChecksumAlgorithm.sha256 = 64
hash_length ChecksumAlgorithm.sha1 = 40
hash_length ChecksumAlgorithm.md5 = 32

pub record SbomChecksum : Type 0 where
  pub algorithm : ChecksumAlgorithm
  pub value : Text

unfoldable pub check_checksum : SbomChecksum → Result ValueError SbomChecksum
check_checksum c =
    if length c.value == hash_length c.algorithm
    then (if matches_hex c.value then ok c else err ValueError.checksum_hex)
    else err ValueError.checksum_length

pub record SbomExternalReference : Type 0 where
  pub category : ReferenceCategory
  pub url : Text

unfoldable pub check_reference : SbomExternalReference → Result ValueError SbomExternalReference
check_reference r = if is_empty r.url then err ValueError.reference_url else ok r

pub record SbomPackage : Type 0 where
  pub spdx_id : Text
  pub name : Text
  pub version : Option Text
  pub supplier : Option Text
  pub download_location : Option Text
  pub checksums : List SbomChecksum
  pub package_url : Option Text
  pub concluded_license : Option Text
  pub declared_license : Option Text
  pub description : Option Text
  pub external_references : List SbomExternalReference

unfoldable pub check_package : SbomPackage → Result ValueError SbomPackage
check_package p =
    if matches_spdx_id p.spdx_id
    then (if is_empty p.name then err ValueError.package_name else ok p)
    else err ValueError.package_spdx_id

pub record SbomRelationship : Type 0 where
  pub source_id : Text
  pub target_id : Text
  pub relationship_type : RelationshipType

unfoldable pub check_relationship : SbomRelationship → Result ValueError SbomRelationship
check_relationship r =
    if matches_spdx_id r.source_id
    then (if matches_spdx_id r.target_id then ok r else err ValueError.relationship_target)
    else err ValueError.relationship_source

pub record SbomCreationInfo : Type 0 where
  pub tools : List Text
  pub created : Text
  pub creators : List Text

pub record SbomDocument : Type 0 where
  pub namespace : Text
  pub name : Text
  pub creation_info : SbomCreationInfo
  pub root_package : SbomPackage
  pub packages : List SbomPackage
  pub relationships : List SbomRelationship
  pub comment : Option Text
  pub provenance_tool : Text
  pub provenance_timestamp : Text

unfoldable pub check_document : SbomDocument → Result ValueError SbomDocument
check_document d =
    if is_empty d.namespace
    then err ValueError.document_namespace
    else if is_empty d.name
    then err ValueError.document_name
    else if ltb 255 (length d.name)
    then err ValueError.document_name_length
    else ok d
