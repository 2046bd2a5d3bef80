-- ===== src/Mirror/Sync/Unique.antt =====
-- `deduplicate_entries` of src/debcraft/infrastructure/mirror/_checksums.py.
use debcraft.Prelude.{
  ◌≡◌, ◌∙◌, inl, inr, Option, none, some, List, [], ◌∷◌, arith, if◌then◌else◌, Bool-cases, contains,
  same_refl,
}
use debcraft.Prelude.Text.{Text, list_text_eq}
use debcraft.Mirror.Sync.{FileEntry, unique_entries, deduplicate_entries}

-- The first entry of a path.
unfoldable pub find_entry : List FileEntry → Text → Option FileEntry
find_entry [] path = none
find_entry (entry ∷ entries) path =
    if list_text_eq.same entry.relative_path path then some entry else find_entry entries path

-- No two entries have one path.
abbrev pub Distinct : List FileEntry → Type 0
Distinct [] = Unit
Distinct (entry ∷ entries) = (find_entry entries entry.relative_path ≡ none) × Distinct entries

find_entry-unique_entries :
    (seen : List Text) (entries : List FileEntry) (path : Text)
    → find_entry (unique_entries seen entries) path
      ≡ (if contains seen path then none else find_entry entries path)
unfolding find_entry unique_entries
find_entry-unique_entries seen [] path = ground arith
find_entry-unique_entries seen (entry ∷ entries) path =
    elim (Bool-cases (contains seen entry.relative_path)) [
      | inl e ↦ rw e (
          ground (
            arith,
            list_text_eq.same_iff entry.relative_path path,
            find_entry-unique_entries seen entries path,
          ))
      | inr e ↦ rw e (
          ground (
            arith,
            list_text_eq.same_iff entry.relative_path path,
            find_entry-unique_entries (entry.relative_path ∷ seen) entries path,
          ))
    ]

unique_entries-Distinct :
    (seen : List Text) (entries : List FileEntry) → Distinct (unique_entries seen entries)
unfolding unique_entries
unique_entries-Distinct seen [] = tt
unique_entries-Distinct seen (entry ∷ entries) =
    elim (Bool-cases (contains seen entry.relative_path)) [
      | inl e ↦ rw e (unique_entries-Distinct seen entries)
      | inr e ↦ rw e (
        find_entry-unique_entries (entry.relative_path ∷ seen) entries entry.relative_path
            ∙ rw (same_refl entry.relative_path),
        unique_entries-Distinct (entry.relative_path ∷ seen) entries,
      )
    ]

-- Deduplication keeps, for every path, the first entry of that path and no other.
pub deduplicate_entries_lem :
    (entries : List FileEntry)
    → Distinct (deduplicate_entries entries)
      × ((path : Text) → find_entry (deduplicate_entries entries) path ≡ find_entry entries path)
unfolding deduplicate_entries
deduplicate_entries_lem entries =
    (unique_entries-Distinct [] entries, find_entry-unique_entries [] entries)
