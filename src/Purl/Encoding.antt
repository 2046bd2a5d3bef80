-- ===== src/Purl/Encoding.antt =====
-- Percent-encoding (src/debcraft/domain/package_intelligence/purl_generator.py): the successive replacements
-- agree with one pass over the characters.
use debcraft.Prelude.{
  ℕ, ◌≡◌, ◌≢◌, refl, ◌∙◌, inl, inr, List, [], ◌∷◌, ◌++◌, append_assoc, arith, ◌==◌, if◌then◌else◌,
  Bool-cases, All, All-append,
}
use debcraft.Prelude.Text.{Text, codes}
use debcraft.Purl.{purl_encode_map, replace, replace_each, percent_encode}

-- What one character becomes in a URL.
abbrev pub escape : ℕ → Text
escape c =
    if c == b':'
    then codes "%3A"
    else if c == b'+'
    then codes "%2B"
    else if c == b'@'
    then codes "%40"
    else if c == b'?'
    then codes "%3F"
    else if c == b'#'
    then codes "%23"
    else c ∷ []

unfoldable pub escape_all : Text → Text
escape_all [] = []
escape_all (c ∷ s) = escape c ++ escape_all s

replace-append :
    (char : ℕ) (encoded s t : Text)
    → replace char encoded (s ++ t) ≡ replace char encoded s ++ replace char encoded t
unfolding replace
replace-append char encoded [] t = refl
replace-append char encoded (c ∷ s) t = elim (Bool-cases (c == char)) [
  | inl e ↦ rw (
    e,
    replace-append char encoded s t,
    append_assoc encoded (replace char encoded s) (replace char encoded t),
  )
  | inr e ↦ rw (e, replace-append char encoded s t)
]

replace_each-append :
    (items : List (ℕ × Text)) (s t : Text)
    → replace_each items (s ++ t) ≡ replace_each items s ++ replace_each items t
unfolding replace_each
replace_each-append [] s t = refl
replace_each-append ((char, encoded) ∷ items) s t = rw (
  replace-append char encoded s t,
  replace_each-append items (replace char encoded s) (replace char encoded t),
)

-- The five replacements of a text of one character.
percent_encode_char : (c : ℕ) → percent_encode (c ∷ []) ≡ escape c
unfolding percent_encode replace_each replace
percent_encode_char c = ground arith

percent_encode-append :
    (s t : Text) → percent_encode (s ++ t) ≡ percent_encode s ++ percent_encode t
unfolding percent_encode
percent_encode-append s t = replace_each-append purl_encode_map s t

-- The replacements one after the other, each over the result of those before, encode every
-- character of the value on its own: no replacement touches what another has put in.
pub percent_encode-escape_all : (s : Text) → percent_encode s ≡ escape_all s
unfolding escape_all
percent_encode-escape_all [] = unfold percent_encode replace_each replace in refl
percent_encode-escape_all (c ∷ s) =
    percent_encode-append (c ∷ []) s ∙ rw (percent_encode_char c, percent_encode-escape_all s)

-- No character is special in a URL, and none is the one that starts an escape unless it was there.
abbrev pub IsPlain : ℕ → Type 0
IsPlain c = (c ≢ b':') × (c ≢ b'+') × (c ≢ b'@') × (c ≢ b'?') × (c ≢ b'#')

escape-IsPlain : (c : ℕ) → All IsPlain (escape c)
escape-IsPlain c = ground arith

-- An encoded value holds none of the characters that separate the parts of a URL.
pub percent_encode-IsPlain : (s : Text) → All IsPlain (percent_encode s)
unfolding escape_all
percent_encode-IsPlain s = rw (percent_encode-escape_all s) (go s)
  where
    go : (s : Text) → All IsPlain (escape_all s)
    go [] = tt
    go (c ∷ s) = All-append IsPlain (escape c) (escape_all s) (escape-IsPlain c) (go s)
