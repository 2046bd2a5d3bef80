-- ===== src/Mirror/Packages.antt =====
-- src/debcraft/domain/mirror/packages_parser.py: `PackagesParser`, the files that a Packages index
-- lists. Its log lines are left out.
pub mod Printed
use debcraft.Prelude.{
  ℕ, Bool, true, false, ◌||◌, Option, none, some, List, [], ◌∷◌, is_empty, if◌then◌else◌,
}
use debcraft.Prelude.Text.{Text, codes, list_text_eq}
use debcraft.Prelude.Strip.{is_blank}
use debcraft.Prelude.Dict.{Dict, get}
use debcraft.Prelude.Decimal.{ℤ, pos, negsuc, int_of_text}
use debcraft.Stanza.{split_stanzas, parse_stanza_fields}
use debcraft.Mirror.Sync.{FileEntry}

-- `fields.get(name)`, unless it is falsy.
unfoldable pub truthy : Option Text → Option Text
truthy none = none
truthy (some value) = if is_empty value then none else some value

-- The entry of a size, if it is a number that is not negative.
unfoldable pub sized_entry : Text → Text → Option ℤ → Option FileEntry
sized_entry filename sha256 none = none
sized_entry filename sha256 (some (pos size_bytes)) =
    some (record { relative_path = filename; sha256 = sha256; size_bytes = size_bytes })
sized_entry filename sha256 (some (negsuc n)) = none

unfoldable pub entry_of : Option Text → Option Text → Option Text → Option FileEntry
entry_of (some filename) (some sha256) (some size_str) =
    sized_entry filename sha256 (int_of_text size_str)
entry_of filename sha256 size_str = none

-- `_extract_entry`
unfoldable pub extract_entry : Dict Text Text → Option FileEntry
extract_entry fields =
    entry_of (truthy (get fields (codes "Filename"))) (truthy (get fields (codes "SHA256")))
      (truthy (get fields (codes "Size")))

abbrev pub append_entry : Option FileEntry → List FileEntry → List FileEntry
append_entry none entries = entries
append_entry (some entry) entries = entry ∷ entries

unfoldable pub entries_of : List Text → List FileEntry
entries_of [] = []
entries_of (stanza ∷ stanzas) =
    append_entry (extract_entry (parse_stanza_fields stanza false)) (entries_of stanzas)

-- `parse`
unfoldable pub parse_packages : Text → List FileEntry
parse_packages content =
    if is_empty content || is_blank content then [] else entries_of (split_stanzas content)
