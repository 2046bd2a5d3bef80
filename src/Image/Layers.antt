-- ===== src/Image/Layers.antt =====
-- Layers merged into a virtual filesystem: `_merge_layer` of
-- src/debcraft/infrastructure/scanners/docker.py and src/debcraft/infrastructure/scanners/oci.py.
pub mod Merged
use debcraft.Prelude.{
  ℕ, Bool, true, false, ◌||◌, Option, none, some, List, [], ◌∷◌, ◌++◌, if◌then◌else◌, is_empty,
}
use debcraft.Prelude.Text.{Text, codes, text_eq, list_text_eq}
use debcraft.Prelude.Dict.{put}
use debcraft.Image.Whiteouts.{Vfs, normalize_tar_member_name, apply_whiteouts}

-- A member of a layer's tar archive: its name, and its content when it is a regular file that the
-- archive gives access to.
pub record Member : Type 0 where
  pub name : Text
  pub content : Option (List ℕ)

-- `not name or name == "."`
unfoldable pub is_root : Text → Bool
is_root name = is_empty name || text_eq name (codes ".")

unfoldable pub store_content : Text → Option (List ℕ) → Vfs → Vfs
store_content name none vfs = vfs
store_content name (some content) vfs = put vfs name content

-- The loop over the members: the filesystem and the layer's entries.
unfoldable pub merge_members : List Member → Vfs → List Text → Vfs × List Text
merge_members [] vfs entries = (vfs, entries)
merge_members (member ∷ members) vfs entries =
    let name = normalize_tar_member_name member.name in
    let skip = is_root name in
    merge_members members (if skip then vfs else store_content name member.content vfs)
      (if skip then entries else entries ++ name ∷ [])

unfoldable pub merge_layer : Vfs → List Member → Vfs × List Text
merge_layer vfs members = merge_members members vfs []

-- A whole layer: its files, then its whiteouts.
unfoldable pub apply_layer : Vfs → List Member → Vfs
apply_layer vfs members = apply_whiteouts (merge_layer vfs members).0 (merge_layer vfs members).1

-- The layers from the bottom to the top.
unfoldable pub apply_layers : Vfs → List (List Member) → Vfs
apply_layers vfs [] = vfs
apply_layers vfs (layer ∷ layers) = apply_layers (apply_layer vfs layer) layers
