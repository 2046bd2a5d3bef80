-- ===== src/Image/Layers/Merged.antt =====
-- What a layer leaves of every path (`_merge_layer` of src/debcraft/infrastructure/scanners/oci.py
-- and src/debcraft/infrastructure/scanners/docker.py).
use debcraft.Prelude.{
  ℕ, ◌≡◌, refl, ◌∙◌, sym, inl, inr, Option, none, some, List, [], ◌∷◌, ◌++◌, append-nil,
  append_assoc, arith, if◌then◌else◌, Bool-cases, any, Bool, true, false, ◌&&◌, ◌==◌,
}
use debcraft.Prelude.Text.{Text, text_eq, list_text_eq}
use debcraft.Prelude.Strip.{strip_prefix}
use debcraft.Prelude.Paths.{lstrip_slash}
use debcraft.Prelude.Dict.{get, get-put}
use debcraft.Image.Whiteouts.{Vfs, normalize_tar_member_name}
use debcraft.Image.Whiteouts.Hidden.{hides, get-apply_whiteouts}
use debcraft.Image.Layers.{Member, is_root, store_content, merge_members, merge_layer, apply_layer}

-- A member's name without one leading `./` and then without leading slashes.
abbrev pub drop_slashes : Text → Text
drop_slashes [] = []
drop_slashes (c ∷ s) = let rest = drop_slashes s in if c == b'/' then rest else c ∷ s

abbrev pub entry_name : Text → Text
entry_name [] = []
entry_name (c ∷ []) = drop_slashes (c ∷ [])
entry_name (c ∷ d ∷ s) = if c == b'.' && d == b'/' then drop_slashes s else drop_slashes (c ∷ d ∷ s)

-- The root has no name, or the name `.`.
abbrev pub is_unnamed : Text → Bool
is_unnamed [] = true
is_unnamed (c ∷ []) = c == b'.'
is_unnamed (c ∷ d ∷ s) = false

-- The names of the members, less the root's.
abbrev pub names : List Member → List Text
names [] = []
names (member ∷ members) =
    let name = entry_name member.name in
    if is_unnamed name then names members else name ∷ names members

abbrev pub or_else : Option (List ℕ) → Option (List ℕ) → Option (List ℕ)
or_else none o = o
or_else (some content) o = some content

-- The content that the last regular file of a path has, if there is one; the root's members have none.
abbrev pub written : List Member → Text → Option (List ℕ)
written [] path = none
written (member ∷ members) path =
    let name = entry_name member.name in
    let here =
      if is_unnamed name then none else if text_eq name path then member.content else none in
    or_else (written members path) here

lstrip_slash-drop_slashes : (s : Text) → lstrip_slash s ≡ drop_slashes s
unfolding lstrip_slash
lstrip_slash-drop_slashes [] = refl
lstrip_slash-drop_slashes (c ∷ s) = ground (arith, lstrip_slash-drop_slashes s)

normalize-entry_name : (name : Text) → normalize_tar_member_name name ≡ entry_name name
unfolding normalize_tar_member_name strip_prefix
normalize-entry_name [] = unfold lstrip_slash in refl
normalize-entry_name (c ∷ []) = ground (arith, lstrip_slash-drop_slashes (c ∷ []))
normalize-entry_name (c ∷ d ∷ s) =
    ground (arith, lstrip_slash-drop_slashes (c ∷ d ∷ s), lstrip_slash-drop_slashes s)

is_root-is_unnamed : (name : Text) → is_root name ≡ is_unnamed name
unfolding is_root
is_root-is_unnamed [] = refl
is_root-is_unnamed (c ∷ []) = ground arith
is_root-is_unnamed (c ∷ d ∷ s) = ground arith

get-store_content :
    (name : Text) (o : Option (List ℕ)) (vfs : Vfs) (path : Text)
    → get (store_content name o vfs) path
      ≡ or_else (if text_eq name path then o else none) (get vfs path)
unfolding store_content
get-store_content name none vfs path = ground arith
get-store_content name (some content) vfs path = get-put vfs name path content ∙ ground arith

or_else_assoc : (a b c : Option (List ℕ)) → or_else a (or_else b c) ≡ or_else (or_else a b) c
or_else_assoc none b c = refl
or_else_assoc (some x) b c = refl

get-merge_members :
    (members : List Member) (vfs : Vfs) (entries : List Text) (path : Text)
    → get (merge_members members vfs entries).0 path ≡ or_else (written members path) (get vfs path)
unfolding merge_members
get-merge_members [] vfs entries path = refl
get-merge_members (member ∷ members) vfs entries path =
    let name = entry_name member.name in
    let same = normalize-entry_name member.name in
    let root = is_root-is_unnamed name in
    let before = get vfs path in
    elim (Bool-cases (is_unnamed name)) [
      | inl e ↦
          simp (same, root, e, get-merge_members members vfs entries path)
            (or_else_assoc (written members path) none before)
      | inr e ↦
          let here = if text_eq name path then member.content else none in
          simp
            (
              same,
              root,
              e,
              get-merge_members members (store_content name member.content vfs)
                  (entries ++ name ∷ []) path,
              get-store_content name member.content vfs path,
            )
            (or_else_assoc (written members path) here before)
    ]

merge_members-names :
    (members : List Member) (vfs : Vfs) (entries : List Text)
    → (merge_members members vfs entries).1 ≡ entries ++ names members
unfolding merge_members
merge_members-names [] vfs entries = sym (append-nil entries)
merge_members-names (member ∷ members) vfs entries =
    let name = entry_name member.name in
    let same = normalize-entry_name member.name in
    let root = is_root-is_unnamed name in
    elim (Bool-cases (is_unnamed name)) [
      | inl e ↦ simp (same, root, e, merge_members-names members vfs entries)
      | inr e ↦ simp (
        same,
        root,
        e,
        merge_members-names members (store_content name member.content vfs) (entries ++ name ∷ []),
        append_assoc entries (name ∷ []) (names members),
      )
    ]

-- After a layer, a path that some entry of the layer hides has no content; another path has the
-- content of the layer's last regular file of that name, or else its content of before. Names are
-- read without one leading `./` and without leading slashes.
pub get-apply_layer :
    (vfs : Vfs) (members : List Member) (path : Text)
    → get (apply_layer vfs members) path ≡ (
        if any (hides (names members) path) (names members)
        then none
        else or_else (written members path) (get vfs path))
unfolding apply_layer merge_layer
get-apply_layer vfs members path = rw (merge_members-names members vfs []) (
    get-apply_whiteouts (merge_members members vfs []).0 (names members) path
    ∙ rw (get-merge_members members vfs [] path))
