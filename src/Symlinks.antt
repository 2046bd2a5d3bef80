-- ===== src/Symlinks.antt =====
-- Copyright files that are symbolic links:
-- src/debcraft/domain/package_intelligence/symlink_resolver.py.
pub mod Chain
use debcraft.Prelude.{
  ℕ, zero, suc, Bool, true, false, not, ◌&&◌, ◌||◌, Option, none, some, List, [], ◌∷◌,
  if◌then◌else◌, contains, is_empty, nat_eq,
}
use debcraft.Prelude.Text.{Text, codes, list_text_eq}
use debcraft.Prelude.Strip.{strip, starts_with}
use debcraft.Prelude.Paths.{starts_with_slash, join_path, normpath, dirname}

-- `ContentsLookupPort`.
pub record ContentsLookup : Type 0 where
  pub find_owner : Text → Option Text
  pub get_copyright_content : Text → Option Text

-- `SymlinkResolutionResult`: the resolved file, or the reason of the failure with the arguments of
-- its message.
pub data Resolution : Type 0 where
  resolved : (target_path owning_package copyright_content : Text) → Resolution
  circular : (path : Text) → Resolution
  unowned : (path : Text) → Resolution
  no_content : (owner path : Text) → Resolution
  too_deep : Resolution

abbrev pub max_resolution_depth : ℕ
max_resolution_depth = 10

unfoldable pub is_symlink_path : Text → Bool
is_symlink_path content =
    let stripped = strip content in
    if is_empty stripped || contains stripped 10
    then false
    else starts_with (codes "/") stripped
      || starts_with (codes "../") stripped
      || starts_with (codes "./") stripped

-- The path of a link's target, seen from the directory of the link.
unfoldable pub resolved_path : Text → Text → Text
resolved_path current_target current_source_dir =
    if starts_with_slash current_target
    then current_target
    else normpath (join_path current_source_dir current_target)

-- The end of a round, given the content of the owner's copyright file.
unfoldable pub follow_content : (Text → Resolution) → Text → Text → Option Text → Resolution
follow_content next path owner none = Resolution.no_content owner path
follow_content next path owner (some content) =
    let rest = next content in
    if is_symlink_path content then rest else Resolution.resolved path owner content

module _ (lookup : ContentsLookup) where
  unfoldable pub follow_owner : (Text → Resolution) → Text → Option Text → Resolution
  follow_owner next path none = Resolution.unowned path
  follow_owner next path (some owner) =
      follow_content next path owner (lookup.get_copyright_content owner)

  -- The rounds that are left, with the paths visited.
  unfoldable pub resolve_hops : ℕ → List Text → Text → Text → Resolution
  resolve_hops zero visited current_target current_source_dir = Resolution.too_deep
  resolve_hops (suc hops) visited current_target current_source_dir =
      let path = resolved_path current_target current_source_dir in
      let next =
        follow_owner (λ content. resolve_hops hops (path ∷ visited) content (dirname path)) path
          (lookup.find_owner path) in
      if contains visited path then Resolution.circular path else next

  unfoldable pub resolve_symlink : Text → Text → Resolution
  resolve_symlink symlink_target source_dir =
      resolve_hops max_resolution_depth [] symlink_target source_dir
