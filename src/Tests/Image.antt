-- ===== src/Tests/Image.antt =====
-- Runs of the models of image layers.
use debcraft.Prelude.{◌≡◌, refl, none, some, List, [], ◌∷◌, any, if◌then◌else◌}
use debcraft.Prelude.Text.{codes, list_text_eq}
use debcraft.Prelude.Dict.{get, put, pop}
use debcraft.Prelude.Strip.{strip_prefix}
use debcraft.Prelude.Paths.{
  basename, dirname, head, all_slash, rstrip_slash, lstrip_slash, join_path, starts_with_slash,
  ends_in_slash,
}
use debcraft.Image.Whiteouts.{
  Vfs, apply_whiteouts, apply_entries, apply_entry, apply_opaque, apply_plain, delete_each,
  is_doomed, opaque_prefix, target_path, normalize_tar_member_name,
}
use debcraft.Image.Whiteouts.Hidden.{hides, get-apply_whiteouts}
use debcraft.Image.Layers.{Member, apply_layer, merge_layer, merge_members, store_content, is_root}
use debcraft.Image.Layers.Merged.{names, written, or_else, get-apply_layer}

abbrev base : Vfs
base = (codes "etc/a", 1 ∷ []) ∷ (codes "etc/b", 2 ∷ []) ∷ (codes "usr/c", 3 ∷ []) ∷ []

abbrev layer : List Member
layer =
    record { name = codes "./etc/.wh..wh..opq"; content = some [] }
    ∷ record { name = codes "./etc/b"; content = some (4 ∷ []) }
    ∷ record { name = codes "usr/.wh.c"; content = some [] }
    ∷ []

get-apply_layer_example : get (apply_layer base layer) (codes "etc/b") ≡ (
    if any (hides (names layer) (codes "etc/b")) (names layer)
    then none
    else or_else (written layer (codes "etc/b")) (get base (codes "etc/b")))
get-apply_layer_example = get-apply_layer base layer (codes "etc/b")

get-apply_whiteouts_example :
    get (apply_whiteouts base (codes "etc/.wh.a" ∷ [])) (codes "etc/a") ≡ (
      if any (hides (codes "etc/.wh.a" ∷ []) (codes "etc/a")) (codes "etc/.wh.a" ∷ [])
      then none
      else get base (codes "etc/a"))
get-apply_whiteouts_example = get-apply_whiteouts base (codes "etc/.wh.a" ∷ []) (codes "etc/a")

-- The layer's own `etc/b` outlives the opaque marker; `etc/a` and `usr/c` are hidden.
one_file_left : apply_layer base layer ≡ (codes "etc/b", 4 ∷ []) ∷ []
unfolding apply_layer merge_layer merge_members store_content normalize_tar_member_name is_root
    apply_whiteouts apply_entries apply_entry apply_opaque apply_plain delete_each is_doomed
    opaque_prefix target_path basename dirname head all_slash rstrip_slash lstrip_slash join_path
    starts_with_slash ends_in_slash strip_prefix get put pop
one_file_left = refl

-- A marker hides a file that the same layer writes, unless the marker is opaque.
own_file_hidden :
    apply_layer [] (
      record { name = codes "a"; content = some (1 ∷ []) }
      ∷ record { name = codes ".wh.a"; content = some [] }
      ∷ [])
    ≡ []
unfolding apply_layer merge_layer merge_members store_content normalize_tar_member_name is_root
    apply_whiteouts apply_entries apply_entry apply_opaque apply_plain delete_each is_doomed
    opaque_prefix target_path basename dirname head all_slash rstrip_slash lstrip_slash join_path
    starts_with_slash ends_in_slash strip_prefix get put pop
own_file_hidden = refl
