-- ===== src/Prelude/Decimal.antt =====
-- Python's `str` and `int` between numbers and texts. `int` reads ASCII digits here; other decimal
-- digits of Unicode are left out.
use debcraft.Prelude.{
  ℕ, zero, suc, ◌+◌, ◌-◌, ◌*◌, ◌/◌, ◌%◌, ◌≤◌, ◌<◌, ◌≡◌, refl, ◌∙◌, inl, inr, Bool, true, false,
  ◌&&◌, is_empty, Option, none, some, [], ◌∷◌, ◌++◌, arith, ltb, leb, ◌==◌, if◌then◌else◌,
  Bool-cases, All, All-append,
}
use debcraft.Prelude.Text.{Text}
use debcraft.Prelude.Strip.{strip, lstrip, rstrip, is_space}

-- The library's integers over the native numbers: `negsuc n` is -(n + 1).
pub data ℤ : Type 0 where
  pos : ℕ → ℤ
  negsuc : ℕ → ℤ

abbrev pub is_digit : ℕ → Bool
is_digit c = leb b'0' c && leb c b'9'

-- The digits of a number below the fuel.
unfoldable digits_of : ℕ → ℕ → Text
digits_of zero n = []
digits_of (suc fuel) n =
    let more = digits_of fuel (n / 10) ++ (b'0' + n % 10) ∷ [] in
    if ltb n 10 then (b'0' + n) ∷ [] else more

-- `str(n)`
unfoldable pub decimal : ℕ → Text
unfolding digits_of
decimal n = digits_of (suc n) n

-- The number that a text of digits stands for, after the digits that gave `acc`.
unfoldable pub value_from : ℕ → Text → ℕ
value_from acc [] = acc
value_from acc (c ∷ s) = value_from (acc * 10 + (c - b'0')) s

value_from-append :
    (s t : Text) (acc : ℕ) → value_from acc (s ++ t) ≡ value_from (value_from acc s) t
unfolding value_from
value_from-append [] t acc = refl
value_from-append (c ∷ s) t acc = value_from-append s t (acc * 10 + (c - b'0'))

value_from-digits_of : (fuel n : ℕ) → n < fuel → value_from 0 (digits_of fuel n) ≡ n
unfolding digits_of
value_from-digits_of zero n h = elim h [ ]
value_from-digits_of (suc fuel) n h = elim (Bool-cases (ltb n 10)) [
  | inl e ↦ rw e (unfold value_from in ground arith)
  | inr e ↦
      let small : n / 10 < fuel = ground arith in
      rw e (
        value_from-append (digits_of fuel (n / 10)) ((b'0' + n % 10) ∷ []) 0
        ∙ rw (value_from-digits_of fuel (n / 10) small) (unfold value_from in omega arith))
]

-- A number is read back from its digits.
pub value_from-decimal : (n : ℕ) → value_from 0 (decimal n) ≡ n
unfolding decimal
value_from-decimal n = value_from-digits_of (suc n) n (omega arith)

abbrev pub IsDigit : ℕ → Type 0
IsDigit c = (b'0' ≤ c) × (c ≤ b'9')

digits_of-IsDigit : (fuel n : ℕ) → All IsDigit (digits_of fuel n)
unfolding digits_of
digits_of-IsDigit zero n = tt
digits_of-IsDigit (suc fuel) n = elim (Bool-cases (ltb n 10)) [
  | inl e ↦ rw e (ground arith, tt)
  | inr e ↦ rw e (
      All-append IsDigit (digits_of fuel (n / 10)) ((b'0' + n % 10) ∷ [])
        (digits_of-IsDigit fuel (n / 10)) (omega arith, tt))
]

pub decimal-IsDigit : (n : ℕ) → All IsDigit (decimal n)
unfolding decimal
decimal-IsDigit n = digits_of-IsDigit (suc n) n

-- The digits that are left of a text of digits with single underscores between them.
unfoldable pub digits_value : ℕ → Bool → Text → Option ℕ
digits_value acc after_digit [] = if after_digit then some acc else none
digits_value acc after_digit (c ∷ s) =
    let digit = digits_value (acc * 10 + (c - b'0')) true s in
    let underscore = digits_value acc false s in
    if is_digit c then digit else if c == b'_' && after_digit then underscore else none

abbrev pub negate : Option ℕ → Option ℤ
negate none = none
negate (some zero) = some (pos 0)
negate (some (suc n)) = some (negsuc n)

abbrev pub positive : Option ℕ → Option ℤ
positive none = none
positive (some n) = some (pos n)

abbrev signed_value : Text → Option ℤ
signed_value [] = none
signed_value (c ∷ s) =
    if c == b'-'
    then negate (digits_value 0 false s)
    else if c == b'+'
    then positive (digits_value 0 false s)
    else positive (digits_value 0 false (c ∷ s))

-- `int(s)`, or `none` for its `ValueError`.
unfoldable pub int_of_text : Text → Option ℤ
int_of_text s = signed_value (strip s)

append-ne-nil : (s t : Text) → is_empty t ≡ false → is_empty (s ++ t) ≡ false
append-ne-nil [] t h = h
append-ne-nil (c ∷ s) t h = refl

pub decimal-ne-nil : (n : ℕ) → is_empty (decimal n) ≡ false
unfolding decimal digits_of
decimal-ne-nil n = elim (Bool-cases (ltb n 10)) [
  | inl e ↦ simp e refl
  | inr e ↦ simp e (append-ne-nil (digits_of n (n / 10)) _ refl)
]

digits_value-IsDigit :
    (s : Text) (acc : ℕ) → All IsDigit s → digits_value acc true s ≡ some (value_from acc s)
unfolding digits_value value_from
digits_value-IsDigit [] acc h = refl
digits_value-IsDigit (c ∷ s) acc h =
    let e : is_digit c ≡ true = ground (arith, h.0) in
    rw e (digits_value-IsDigit s (acc * 10 + (c - b'0')) h.1)

signed_value-IsDigit :
    (s : Text) → is_empty s ≡ false → All IsDigit s → signed_value s ≡ some (pos (value_from 0 s))
unfolding value_from digits_value
signed_value-IsDigit [] n h = cc
signed_value-IsDigit (c ∷ s) n h =
    let e : is_digit c ≡ true = ground (arith, h.0) in
    let a : (c == b'-') ≡ false = ground (arith, h.0) in
    let b : (c == b'+') ≡ false = ground (arith, h.0) in
    simp (a, b, e, digits_value-IsDigit s (0 * 10 + (c - b'0')) h.1)

-- The characters of a text are no blanks.
abbrev pub IsSolid : Text → Type 0
IsSolid = All (λ c. is_space c ≡ false)

IsDigit-solid : (s : Text) → All IsDigit s → IsSolid s
unfolding is_space
IsDigit-solid [] h = tt
IsDigit-solid (c ∷ s) h = (ground (arith, h.0), IsDigit-solid s h.1)

pub decimal-IsSolid : (n : ℕ) → IsSolid (decimal n)
decimal-IsSolid n = IsDigit-solid (decimal n) (decimal-IsDigit n)

rstrip-IsSolid : (s : Text) → IsSolid s → rstrip s ≡ s
unfolding rstrip
rstrip-IsSolid [] h = refl
rstrip-IsSolid (c ∷ s) h = rw (rstrip-IsSolid s h.1, h.0) (and_false_lem (is_empty s) (c ∷ s))
  where
    and_false_lem : (b : Bool) (t : Text) → (if b && false then [] else t) ≡ t
    and_false_lem true t = refl
    and_false_lem false t = refl

pub strip-IsSolid : (s : Text) → IsSolid s → strip s ≡ s
unfolding strip lstrip
strip-IsSolid [] h = unfold rstrip in refl
strip-IsSolid (c ∷ s) h = rw h.0 (rstrip-IsSolid (c ∷ s) h)

-- `int` reads what `str` prints.
pub int_of_text-decimal : (n : ℕ) → int_of_text (decimal n) ≡ some (pos n)
unfolding int_of_text
int_of_text-decimal n = rw (strip-IsSolid (decimal n) (decimal-IsSolid n)) (
    signed_value-IsDigit (decimal n) (decimal-ne-nil n) (decimal-IsDigit n)
    ∙ rw (value_from-decimal n) refl)
