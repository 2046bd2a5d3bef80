-- ===== src/Tests/Symlinks.antt =====
-- Runs of the symlink resolver.
use debcraft.Prelude.{◌≡◌, refl, none, some, if◌then◌else◌}
use debcraft.Prelude.Text.{codes, text_eq}
use debcraft.Prelude.Lines.{split_on, join}
use debcraft.Prelude.Strip.{strip, lstrip, rstrip, is_space, strip_prefix}
use debcraft.Prelude.Paths.{
  starts_with_slash, join_path, normpath, dirname, head, all_slash, rstrip_slash, ends_in_slash,
  add_component, components_of, in_order, initial_slashes, or_dot,
}
use debcraft.Symlinks.{
  ContentsLookup, Resolution, is_symlink_path, resolved_path, follow_content, follow_owner,
  resolve_hops, resolve_symlink,
}

-- The copyright of `b` is that of `c`, and that of `d` its own link.
abbrev contents : ContentsLookup
contents = record {
  find_owner = λ path.
      if text_eq path (codes "/doc/b/copyright")
      then some (codes "b")
      else if text_eq path (codes "/doc/c/copyright")
      then some (codes "c")
      else if text_eq path (codes "/doc/d/copyright")
      then some (codes "d")
      else none;
  get_copyright_content = λ owner.
      if text_eq owner (codes "b")
      then some (codes "../c/copyright")
      else if text_eq owner (codes "d")
      then some (codes "./copyright")
      else some (codes "Expat\n");
}

chained :
    resolve_symlink contents (codes "../b/copyright") (codes "/doc/a")
    ≡ Resolution.resolved (codes "/doc/c/copyright") (codes "c") (codes "Expat\n")
unfolding resolve_symlink resolve_hops follow_owner follow_content resolved_path is_symlink_path
    starts_with_slash join_path normpath dirname head all_slash rstrip_slash ends_in_slash
    add_component components_of in_order initial_slashes or_dot split_on join strip lstrip rstrip
    is_space strip_prefix
chained = refl

own_link :
    resolve_symlink contents (codes "/doc/d/copyright") (codes "/doc/a")
    ≡ Resolution.circular (codes "/doc/d/copyright")
unfolding resolve_symlink resolve_hops follow_owner follow_content resolved_path is_symlink_path
    starts_with_slash join_path normpath dirname head all_slash rstrip_slash ends_in_slash
    add_component components_of in_order initial_slashes or_dot split_on join strip lstrip rstrip
    is_space strip_prefix
own_link = refl
