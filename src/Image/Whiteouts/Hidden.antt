-- ===== src/Image/Whiteouts/Hidden.antt =====
-- Which paths a layer hides (src/debcraft/domain/_whiteouts.py).
use debcraft.Prelude.{
  ◌≡◌, refl, ap, ◌∙◌, inl, inr, Bool, true, false, not, ◌&&◌, ◌||◌, Option, none, some, List, [],
  ◌∷◌, ◌++◌, arith, if◌then◌else◌, Bool-cases, contains, keep, any,
}
use debcraft.Prelude.Text.{Text, codes, text_eq, text_eq→eq, list_text_eq}
use debcraft.Prelude.Strip.{strip_prefix, starts_with}
use debcraft.Prelude.Dict.{get, pop, get-pop}
use debcraft.Prelude.Paths.{basename, dirname, join_path}
use debcraft.Image.Whiteouts.{
  opaque_whiteout, whiteout_prefix, Vfs, paths, delete_each, opaque_prefix, is_doomed, apply_opaque,
  target_path, apply_plain, apply_entry, apply_entries, apply_whiteouts,
}

-- A path lies below a directory; the root's name is empty, and every path lies below it.
abbrev pub is_below : Text → Text → Bool
is_below [] path = true
is_below (c ∷ directory) path = starts_with ((c ∷ directory) ++ codes "/") path

-- A plain marker hides its sibling of the name after `.wh.`, and itself.
abbrev pub hides_sibling : Text → Text → Option Text → Bool
hides_sibling entry path none = false
hides_sibling entry path (some name) =
    text_eq (join_path (dirname entry) name) path || text_eq entry path

-- Whether an entry of a layer with these entries hides a path: an opaque marker hides itself and what
-- lies below its directory, less the entries of the layer.
abbrev pub hides : List Text → Text → Text → Bool
hides entries path entry =
    if text_eq (basename entry) (codes ".wh..wh..opq")
    then (is_below (dirname entry) path && not (contains entries path)) || text_eq entry path
    else hides_sibling entry path (strip_prefix (codes ".wh.") (basename entry))

is_doomed-is_below :
    (shielded : List Text) (directory path : Text)
    → is_doomed shielded (opaque_prefix directory) path
      ≡ (is_below directory path && not (contains shielded path))
unfolding is_doomed opaque_prefix strip_prefix
is_doomed-is_below shielded [] path = refl
is_doomed-is_below shielded (c ∷ directory) path = refl

target_path-join_path :
    (directory name : Text) → target_path directory name ≡ join_path directory name
unfolding target_path join_path
target_path-join_path [] name = ground arith
target_path-join_path (c ∷ directory) name = refl

get-delete_each :
    (keys : List Text) (vfs : Vfs) (path : Text)
    → get (delete_each keys vfs) path ≡ (if contains keys path then none else get vfs path)
unfolding delete_each
get-delete_each [] vfs path = refl
get-delete_each (key ∷ keys) vfs path =
    ground (arith, get-delete_each keys (pop vfs key) path, get-pop vfs key path)

contains-keep :
    (p : Text → Bool) (keys : List Text) (path : Text)
    → contains (keep p keys) path ≡ (p path && contains keys path)
contains-keep p [] path = ground arith
contains-keep p (key ∷ keys) path = elim (Bool-cases (text_eq key path)) [
  | inl e ↦
      let k : key ≡ path = text_eq→eq key path e in
      ground (arith, e, ap p k, contains-keep p keys path)
  | inr e ↦ ground (arith, contains-keep p keys path)
]

get-absent : (vfs : Vfs) (path : Text) → contains (paths vfs) path ≡ false → get vfs path ≡ none
unfolding get
get-absent [] path h = refl
get-absent ((key, content) ∷ vfs) path h = ground (arith, get-absent vfs path)

get-delete-keep :
    (p : Text → Bool) (vfs : Vfs) (path : Text)
    → get (delete_each (keep p (paths vfs)) vfs) path ≡ (if p path then none else get vfs path)
get-delete-keep p vfs path = ground (
  arith,
  get-delete_each (keep p (paths vfs)) vfs path,
  contains-keep p (paths vfs) path,
  get-absent vfs path,
)

get-apply_plain :
    (entry : Text) (vfs : Vfs) (path : Text) (o : Option Text)
    → get (apply_plain entry vfs o) path
      ≡ (if hides_sibling entry path o then none else get vfs path)
unfolding apply_plain
get-apply_plain entry vfs path none = refl
get-apply_plain entry vfs path (some name) =
    let target = join_path (dirname entry) name in
    rw (target_path-join_path (dirname entry) name)
      (ground (arith, get-pop (pop vfs target) entry path, get-pop vfs target path))

get-apply_entry :
    (shielded : List Text) (entry : Text) (vfs : Vfs) (path : Text)
    → get (apply_entry shielded entry vfs) path
      ≡ (if hides shielded path entry then none else get vfs path)
unfolding apply_entry apply_opaque
get-apply_entry shielded entry vfs path =
    elim (Bool-cases (text_eq (basename entry) opaque_whiteout)) [
      | inl e ↦
          let doomed = is_doomed shielded (opaque_prefix (dirname entry)) in
          rw e (
            ground (
              arith,
              get-pop (delete_each (keep doomed (paths vfs)) vfs) entry path,
              get-delete-keep doomed vfs path,
              is_doomed-is_below shielded (dirname entry) path,
            ))
      | inr e ↦
          rw e (get-apply_plain entry vfs path (strip_prefix whiteout_prefix (basename entry)))
    ]

get-apply_entries :
    (shielded entries : List Text) (vfs : Vfs) (path : Text)
    → get (apply_entries shielded entries vfs) path
      ≡ (if any (hides shielded path) entries then none else get vfs path)
unfolding apply_entries
get-apply_entries shielded [] vfs path = refl
get-apply_entries shielded (entry ∷ entries) vfs path =
    get-apply_entries shielded entries (apply_entry shielded entry vfs) path
    ∙ ground (arith, get-apply_entry shielded entry vfs path)

-- After a layer's markers are applied, a path has no content when some entry of the layer hides it,
-- and its content of before otherwise, whatever the order of the entries. A plain marker hides its
-- sibling also when the sibling is an entry of the layer, contrary to the module's doc.
pub get-apply_whiteouts :
    (vfs : Vfs) (layer_entries : List Text) (path : Text)
    → get (apply_whiteouts vfs layer_entries) path
      ≡ (if any (hides layer_entries path) layer_entries then none else get vfs path)
unfolding apply_whiteouts
get-apply_whiteouts vfs layer_entries path = get-apply_entries layer_entries layer_entries vfs path
