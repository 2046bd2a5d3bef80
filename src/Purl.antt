-- ===== src/Purl.antt =====
-- Package URLs of Debian packages: src/debcraft/domain/package_intelligence/purl_generator.py.
pub mod Encoding
pub mod RoundTrip
use debcraft.Prelude.{
  ℕ, Bool, Option, none, some, List, [], ◌∷◌, ◌++◌, ◌==◌, if◌then◌else◌, Result, ok, err, ◌>>=◌,
}
use debcraft.Prelude.Text.{Text, codes}
use debcraft.Prelude.Strip.{strip, is_blank, lower}

-- The items of `_PURL_ENCODE_MAP`, in their order.
abbrev pub purl_encode_map : List (ℕ × Text)
purl_encode_map =
    (b':', codes "%3A")
    ∷ (b'+', codes "%2B")
    ∷ (b'@', codes "%40")
    ∷ (b'?', codes "%3F")
    ∷ (b'#', codes "%23")
    ∷ []

-- `s.replace(char, encoded)` for a single character.
unfoldable pub replace : ℕ → Text → Text → Text
replace char encoded [] = []
replace char encoded (c ∷ s) =
    let rest = replace char encoded s in if c == char then encoded ++ rest else c ∷ rest

-- The loop of `_percent_encode` over the items that are left.
unfoldable pub replace_each : List (ℕ × Text) → Text → Text
replace_each [] result = result
replace_each ((char, encoded) ∷ items) result = replace_each items (replace char encoded result)

unfoldable pub percent_encode : Text → Text
percent_encode value = replace_each purl_encode_map value

-- The field that the error names.
pub data PurlGenerationError : Type 0 where
  package_name version architecture : PurlGenerationError

-- `x is None or not x.strip()` raises, and a value that is there goes on.
unfoldable pub required : PurlGenerationError → Option Text → Result PurlGenerationError Text
required field none = err field
required field (some x) = if is_blank x then err field else ok x

-- `lower` is Python's for a distro in ASCII.
unfoldable pub namespace_of : Option Text → Text
namespace_of none = codes "debian"
namespace_of (some distro) = if is_blank distro then codes "debian" else lower (strip distro)

-- The f-string of the result.
unfoldable pub format_purl : Text → Text → Text → Text → Text
format_purl namespace encoded_name encoded_version arch =
    codes "pkg:deb/"
    ++ (namespace
        ++ b'/' ∷ (encoded_name ++ b'@' ∷ (encoded_version ++ b'?' ∷ (codes "arch=" ++ arch))))

unfoldable pub generate_purl :
    Option Text → Option Text → Option Text → Option Text → Result PurlGenerationError Text
generate_purl name_text version_text arch_text distro = do
  name ← required PurlGenerationError.package_name name_text
  v ← required PurlGenerationError.version version_text
  arch ← required PurlGenerationError.architecture arch_text
  ok (format_purl (namespace_of distro) (percent_encode name) (percent_encode v) arch)
