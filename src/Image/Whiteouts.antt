-- ===== src/Image/Whiteouts.antt =====
-- Layers applied to a virtual filesystem: src/debcraft/domain/_whiteouts.py, with the names of
-- src/debcraft/domain/_archive_paths.py.
pub mod Hidden
use debcraft.Prelude.{
  ℕ, Bool, true, false, not, ◌&&◌, Option, none, some, List, [], ◌∷◌, ◌++◌, if◌then◌else◌, contains,
  keep, is_empty,
}
use debcraft.Prelude.Text.{Text, codes, text_eq, list_text_eq}
use debcraft.Prelude.Strip.{strip_prefix, starts_with}
use debcraft.Prelude.Dict.{Dict, pop}
use debcraft.Prelude.Paths.{basename, dirname, join_path, lstrip_slash}

abbrev without_prefix : Text → Option Text → Text
without_prefix name none = name
without_prefix name (some rest) = rest

unfoldable pub normalize_tar_member_name : Text → Text
normalize_tar_member_name name = lstrip_slash (without_prefix name (strip_prefix (codes "./") name))

abbrev pub whiteout_prefix : Text
whiteout_prefix = codes ".wh."

abbrev pub opaque_whiteout : Text
opaque_whiteout = codes ".wh..wh..opq"

-- The content of a file is what the source keeps as `bytes`.
abbrev pub Vfs : Type 0
Vfs = Dict Text (List ℕ)

abbrev pub paths : Vfs → List Text
paths [] = []
paths ((path, content) ∷ vfs) = path ∷ paths vfs

-- The loop of `del vfs[key]`.
unfoldable pub delete_each : List Text → Vfs → Vfs
delete_each [] vfs = vfs
delete_each (key ∷ keys) vfs = delete_each keys (pop vfs key)

unfoldable pub opaque_prefix : Text → Text
opaque_prefix directory = if is_empty directory then [] else directory ++ codes "/"

-- The test of `doomed`.
unfoldable pub is_doomed : List Text → Text → Text → Bool
is_doomed shielded prefix key = starts_with prefix key && not (contains shielded key)

unfoldable pub apply_opaque : List Text → Text → Vfs → Vfs
apply_opaque shielded entry vfs =
    pop (delete_each (keep (is_doomed shielded (opaque_prefix (dirname entry))) (paths vfs)) vfs)
      entry

unfoldable pub target_path : Text → Text → Text
target_path directory target_name =
    if is_empty directory then target_name else join_path directory target_name

-- The branch of a plain marker, with the basename less its prefix if it has one.
unfoldable pub apply_plain : Text → Vfs → Option Text → Vfs
apply_plain entry vfs none = vfs
apply_plain entry vfs (some target_name) =
    pop (pop vfs (target_path (dirname entry) target_name)) entry

-- The body of the loop over the entries.
unfoldable pub apply_entry : List Text → Text → Vfs → Vfs
apply_entry shielded entry vfs =
    if text_eq (basename entry) opaque_whiteout
    then apply_opaque shielded entry vfs
    else apply_plain entry vfs (strip_prefix whiteout_prefix (basename entry))

unfoldable pub apply_entries : List Text → List Text → Vfs → Vfs
apply_entries shielded [] vfs = vfs
apply_entries shielded (entry ∷ entries) vfs =
    apply_entries shielded entries (apply_entry shielded entry vfs)

unfoldable pub apply_whiteouts : Vfs → List Text → Vfs
apply_whiteouts vfs layer_entries = apply_entries layer_entries layer_entries vfs
