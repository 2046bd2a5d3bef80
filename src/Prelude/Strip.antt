-- ===== src/Prelude/Strip.antt =====
-- The methods of Python's `str` that look at blanks, letters and prefixes.
use Prim.Native.Nat.{ℕ, ◌+◌}
use mathlib.Core.Path.{◌≡◌, refl}
use mathlib.Core.Logic.{inl, inr}
use mathlib.Core.Bool.{Bool, true, false, ◌&&◌, ◌||◌}
use mathlib.Core.Option.{Option, none, some}
use mathlib.Core.List.{[], ◌∷◌, ◌++◌, map}
use native.Mathlib.Omega.{arith}
use debcraft.Prelude.Tests.{◌==◌, leb, if◌then◌else◌, Bool-cases}
use debcraft.Prelude.Lists.{is_empty}
use debcraft.Prelude.Text.{Text}

-- The characters of which `str.isspace` holds, and that `str.strip` removes.
unfoldable pub is_space : ℕ → Bool
is_space c =
    (leb 9 c && leb c 13)
    || (leb 28 c && leb c 32)
    || c == 0x85
    || c == 0xa0
    || c == 0x1680
    || (leb 0x2000 c && leb c 0x200a)
    || c == 0x2028
    || c == 0x2029
    || c == 0x202f
    || c == 0x205f
    || c == 0x3000

unfoldable pub lstrip : Text → Text
lstrip [] = []
lstrip (c ∷ s) = let rest = lstrip s in if is_space c then rest else c ∷ s

unfoldable pub rstrip : Text → Text
rstrip [] = []
rstrip (c ∷ s) = let rest = rstrip s in if is_empty rest && is_space c then [] else c ∷ rest

unfoldable pub strip : Text → Text
strip s = rstrip (lstrip s)

-- `s.strip() == ""`
unfoldable pub is_blank : Text → Bool
is_blank s = is_empty (strip s)

-- `s.startswith(prefix)`, with what follows the prefix.
unfoldable pub strip_prefix : Text → Text → Option Text
strip_prefix [] s = some s
strip_prefix (p ∷ ps) [] = none
strip_prefix (p ∷ ps) (c ∷ s) = let rest = strip_prefix ps s in if c == p then rest else none

abbrev pub starts_with : Text → Text → Bool
starts_with prefix s = elim (strip_prefix prefix s) [ none ↦ false | some r ↦ true ]

-- The text before and after the first `c`, as `find` and two slices give them.
unfoldable pub partition : ℕ → Text → Option (Text × Text)
partition c [] = none
partition c (d ∷ s) =
    let rest = partition c s in
    if d == c then some ([], s) else elim rest [ none ↦ none | some (a, b) ↦ some (d ∷ a, b) ]

-- `str.lower`, as far as a comparison with an ASCII text can tell: of the characters outside ASCII
-- only U+212A goes to an ASCII text of its own.
unfoldable pub lower : Text → Text
lower = map (λ c. if leb b'A' c && leb c b'Z' then c + 32 else if c == 0x212a then b'k' else c)

-- All characters are blanks.
unfoldable pub all_space : Text → Bool
all_space [] = true
all_space (c ∷ s) = is_space c && all_space s

lstrip-all_space : (s : Text) → all_space s ≡ is_empty (lstrip s)
unfolding lstrip all_space
lstrip-all_space [] = refl
lstrip-all_space (c ∷ s) = ground (arith, lstrip-all_space s)

rstrip-all_space : (s : Text) → all_space s ≡ is_empty (rstrip s)
unfolding rstrip all_space
rstrip-all_space [] = refl
rstrip-all_space (c ∷ s) = ground (arith, rstrip-all_space s)

lstrip_idem : (s : Text) → is_empty (lstrip s) ≡ all_space (lstrip s)
unfolding lstrip all_space
lstrip_idem [] = refl
lstrip_idem (c ∷ s) = ground (arith, lstrip_idem s)

-- A text is blank exactly when all its characters are.
pub is_blank-all_space : (s : Text) → is_blank s ≡ all_space s
unfolding is_blank strip
is_blank-all_space s = cc (lstrip-all_space s, rstrip-all_space (lstrip s), lstrip_idem s)

-- A text that holds a character other than blanks is not blank.
pub all_space-append : (s t : Text) → all_space (s ++ t) ≡ (all_space s && all_space t)
unfolding all_space
all_space-append [] t = refl
all_space-append (c ∷ s) t = ground (arith, all_space-append s t)

pub partition-append :
    (c : ℕ) (a b : Text) → partition c a ≡ none → partition c (a ++ c ∷ b) ≡ some (a, b)
unfolding partition
partition-append c [] b h = ground arith
partition-append c (d ∷ a) b h = elim (Bool-cases (d == c)) [
  | inl e ↦ ground arith
  | inr e ↦ ground (arith, partition-append c a b)
]
