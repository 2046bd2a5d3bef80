-- ===== src/Symlinks/Chain.antt =====
-- What the result of the resolver says of the chain of links
-- (src/debcraft/domain/package_intelligence/symlink_resolver.py).
use debcraft.Prelude.{◌<◌, ◌≡◌, true, false, none, some, List, [], ◌∷◌, length, contains}
use debcraft.Prelude.Text.{Text, list_text_eq}
use debcraft.Prelude.Paths.{dirname}
use debcraft.Symlinks.{
  ContentsLookup, Resolution, max_resolution_depth, is_symlink_path, resolved_path,
}

module _ (lookup : ContentsLookup) (target0 dir0 : Text) where
  -- The links that lead from the first one to a target in a directory, by paths that are all
  -- different, the last first: each is owned by a package whose copyright file is a link.
  pub data Reaches : List Text → Text → Text → Type 0 where
    start : Reaches [] target0 dir0
    hop :
        (visited : List Text) (target dir owner content : Text)
        → Reaches visited target dir
        → contains visited (resolved_path target dir) ≡ false
        → lookup.find_owner (resolved_path target dir) ≡ some owner
        → lookup.get_copyright_content owner ≡ some content
        → is_symlink_path content ≡ true
        → Reaches (resolved_path target dir ∷ visited) content (dirname (resolved_path target dir))

  -- The chain comes to a path after the given ones.
  pub record Arrives (path : Text) (visited : List Text) : Type 0 where
    target : Text
    dir : Text
    chain : Reaches visited target dir
    at : resolved_path target dir ≡ path

  -- What each result means.
  abbrev pub Explained : Resolution → Type 0
  Explained (Resolution.resolved path owner content) =
      (visited : List Text) × Arrives path visited
      × (length visited < max_resolution_depth)
      × (contains visited path ≡ false)
      × (lookup.find_owner path ≡ some owner)
      × (lookup.get_copyright_content owner ≡ some content)
      × (is_symlink_path content ≡ false)
  Explained (Resolution.circular path) =
      (visited : List Text) × Arrives path visited × (contains visited path ≡ true)
  Explained (Resolution.unowned path) =
      (visited : List Text) × Arrives path visited × (lookup.find_owner path ≡ none)
  Explained (Resolution.no_content owner path) =
      (visited : List Text) × Arrives path visited
      × (lookup.find_owner path ≡ some owner)
      × (lookup.get_copyright_content owner ≡ none)
  Explained Resolution.too_deep =
      (visited : List Text) × (target dir : Text) × Reaches visited target dir
      × (length visited ≡ max_resolution_depth)
