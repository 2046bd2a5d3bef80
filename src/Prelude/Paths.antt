-- ===== src/Prelude/Paths.antt =====
-- The functions of Python's `posixpath` that split and join slash-separated names.
use debcraft.Prelude.{
  List, Bool, true, false, not, ◌||◌, ◌&&◌, [], ◌∷◌, ◌++◌, ◌==◌, if◌then◌else◌, contains, is_empty,
  nat_eq,
}
use debcraft.Prelude.Text.{Text, codes, text_eq}
use debcraft.Prelude.Lines.{split_on, join}
use debcraft.Prelude.Strip.{starts_with}

-- The part after the last slash.
unfoldable pub basename : Text → Text
basename [] = []
basename (c ∷ s) = let rest = basename s in if c == b'/' || contains s b'/' then rest else c ∷ s

-- The part up to the last slash, with it.
unfoldable pub head : Text → Text
head [] = []
head (c ∷ s) = let rest = head s in if c == b'/' || contains s b'/' then c ∷ rest else []

unfoldable pub all_slash : Text → Bool
all_slash [] = true
all_slash (c ∷ s) = c == b'/' && all_slash s

-- `s.rstrip("/")`
unfoldable pub rstrip_slash : Text → Text
rstrip_slash [] = []
rstrip_slash (c ∷ s) = let rest = rstrip_slash s in if all_slash (c ∷ s) then [] else c ∷ rest

-- `s.lstrip("/")`
unfoldable pub lstrip_slash : Text → Text
lstrip_slash [] = []
lstrip_slash (c ∷ s) = let rest = lstrip_slash s in if c == b'/' then rest else c ∷ s

unfoldable pub dirname : Text → Text
dirname s = let h = head s in if all_slash h then h else rstrip_slash h

unfoldable pub ends_in_slash : Text → Bool
ends_in_slash [] = false
ends_in_slash (c ∷ []) = c == b'/'
ends_in_slash (c ∷ d ∷ s) = ends_in_slash (d ∷ s)

unfoldable pub starts_with_slash : Text → Bool
starts_with_slash [] = false
starts_with_slash (c ∷ s) = c == b'/'

-- `posixpath.join` of two names.
unfoldable pub join_path : Text → Text → Text
join_path a b =
    if starts_with_slash b || is_empty a
    then b
    else if ends_in_slash a
    then a ++ b
    else a ++ b'/' ∷ b

-- One component of `posixpath.normpath`, on the components before it from the last to the first.
unfoldable pub add_component : Bool → List Text → Text → List Text
add_component rooted before part =
    let up = text_eq part (codes "..") in
    if is_empty part || text_eq part (codes ".")
    then before
    else if not up || (not rooted && is_empty before) || ends_in_up before
    then part ∷ before
    else tail_of before
  where
    ends_in_up : List Text → Bool
    ends_in_up [] = false
    ends_in_up (last ∷ more) = text_eq last (codes "..")

    tail_of : List Text → List Text
    tail_of [] = []
    tail_of (last ∷ more) = more

unfoldable pub components_of : Bool → List Text → List Text → List Text
components_of rooted before [] = before
components_of rooted before (part ∷ parts) =
    components_of rooted (add_component rooted before part) parts

unfoldable pub in_order : List Text → List Text → List Text
in_order [] after = after
in_order (part ∷ before) after = in_order before (part ∷ after)

-- Two slashes at the start are kept, three or more are one.
unfoldable pub initial_slashes : Text → Text
initial_slashes path =
    if starts_with (codes "///") path
    then codes "/"
    else if starts_with (codes "//") path
    then codes "//"
    else if starts_with (codes "/") path
    then codes "/"
    else []

-- `path or "."`
unfoldable pub or_dot : Text → Text
or_dot [] = codes "."
or_dot (c ∷ s) = c ∷ s

unfoldable pub normpath : Text → Text
normpath path =
    let rooted = starts_with_slash path in
    let parts = in_order (components_of rooted [] (split_on b'/' path)) [] in
    or_dot (initial_slashes path ++ join (codes "/") parts)
