-- ===== src/Purl/RoundTrip.antt =====
-- Package URLs read back (src/debcraft/domain/package_intelligence/purl_generator.py), by the
-- grammar `pkg:deb/<distro>/<package_name>@<version>?arch=<architecture>` of its docstring.
use debcraft.Prelude.{
  ℕ, ◌≡◌, refl, ap, ◌∙◌, inl, inr, false, Option, none, some, [], ◌∷◌, ◌++◌, arith, ◌==◌, ◌+◌, ◌-◌,
  ◌*◌, ltb, if◌then◌else◌, Bool-cases, ◌⊎◌, All, ok, err,
}
use debcraft.Prelude.Text.{Text, codes}
use debcraft.Prelude.Lines.{Lacks}
use debcraft.Prelude.Strip.{is_blank, strip_prefix, partition, partition-append}
use debcraft.Purl.{
  PurlGenerationError, percent_encode, required, namespace_of, format_purl, generate_purl,
}
use debcraft.Purl.Encoding.{
  escape, escape_all, percent_encode-escape_all, IsPlain, percent_encode-IsPlain,
}

-- The value of a hexadecimal digit.
abbrev pub hex_value : ℕ → ℕ
hex_value c = if ltb c b'A' then c - b'0' else c - 55

-- Percent-decoding, as RFC 3986 states it: an escape of two digits is the character of that code.
unfoldable pub unquote : Text → Text
unquote [] = []
unquote (c ∷ []) = c ∷ []
unquote (c ∷ d ∷ []) = c ∷ d ∷ []
unquote (c ∷ d ∷ e ∷ s) =
    let escaped = (hex_value d * 16 + hex_value e) ∷ unquote s in
    let plain = c ∷ unquote (d ∷ e ∷ s) in if c == b'%' then escaped else plain

unquote-plain : (c : ℕ) (s : Text) → (c == b'%') ≡ false → unquote (c ∷ s) ≡ c ∷ unquote s
unfolding unquote
unquote-plain c [] h = refl
unquote-plain c (d ∷ []) h = refl
unquote-plain c (d ∷ e ∷ s) h = rw h

unquote-escape : (c : ℕ) (s : Text) → (c == b'%') ≡ false → unquote (escape c ++ s) ≡ c ∷ unquote s
unfolding unquote
unquote-escape c s h = ground (arith, unquote-plain c s h)

-- Decoding undoes the encoding of a text that holds no escape itself.
pub unquote-percent_encode : (s : Text) → Lacks b'%' s → unquote (percent_encode s) ≡ s
unfolding escape_all
unquote-percent_encode s h = ap unquote (percent_encode-escape_all s) ∙ go s h
  where
    go : (s : Text) → Lacks b'%' s → unquote (escape_all s) ≡ s
    go [] h = unfold unquote in refl
    go (c ∷ s) h = unquote-escape c (escape_all s) (ground arith) ∙ ap (λ t. c ∷ t) (go s h.1)

-- The parts of a URL: namespace, name, version and architecture.
abbrev Parts : Type 0
Parts = Text × Text × Text × Text

abbrev read_architecture : Text → Text → Text → Option Text → Option Parts
read_architecture namespace name version none = none
read_architecture namespace name version (some arch) =
    some (namespace, unquote name, unquote version, arch)

abbrev read_version : Text → Text → Option (Text × Text) → Option Parts
read_version namespace name none = none
read_version namespace name (some (version, s)) =
    read_architecture namespace name version (strip_prefix (codes "arch=") s)

abbrev read_name : Text → Option (Text × Text) → Option Parts
read_name namespace none = none
read_name namespace (some (name, s)) = read_version namespace name (partition b'?' s)

abbrev read_namespace : Option (Text × Text) → Option Parts
read_namespace none = none
read_namespace (some (namespace, s)) = read_name namespace (partition b'@' s)

abbrev read_scheme : Option Text → Option Parts
read_scheme none = none
read_scheme (some s) = read_namespace (partition b'/' s)

-- A URL of the scheme read from left to right, each part up to its separator.
unfoldable pub read_purl : Text → Option Parts
read_purl s = read_scheme (strip_prefix (codes "pkg:deb/") s)

Lacks-partition : (c : ℕ) (s : Text) → Lacks c s → partition c s ≡ none
unfolding partition
Lacks-partition c [] h = refl
Lacks-partition c (d ∷ s) h = ground (arith, Lacks-partition c s h.1)

IsPlain-Lacks : (s : Text) → All IsPlain s → Lacks b'@' s × Lacks b'?' s
IsPlain-Lacks [] h = (tt, tt)
IsPlain-Lacks (c ∷ s) ((_, _, at, query, _), h) =
    let k = IsPlain-Lacks s h in ((at, k.0), (query, k.1))

read-format_purl :
    (namespace name version arch : Text)
    → Lacks b'/' namespace
    → Lacks b'@' name
    → Lacks b'?' version
    → read_purl (format_purl namespace name version arch)
      ≡ some (namespace, unquote name, unquote version, arch)
unfolding read_purl format_purl strip_prefix
read-format_purl namespace name version arch hs hn hv =
    ap read_namespace (partition-append b'/' namespace _ (Lacks-partition b'/' namespace hs))
    ∙ ap (read_name namespace) (partition-append b'@' name _ (Lacks-partition b'@' name hn))
    ∙ ap (read_version namespace name)
        (partition-append b'?' version _ (Lacks-partition b'?' version hv))

-- A URL is made of any name, version and architecture that are not blank, and reading it gives
-- them and the namespace back, when the name and the version hold no `%` and the namespace no `/`.
pub read-generate_purl :
    (name version arch : Text) (distro : Option Text)
    → is_blank name ≡ false
    → is_blank version ≡ false
    → is_blank arch ≡ false
    → Lacks b'%' name
    → Lacks b'%' version
    → Lacks b'/' (namespace_of distro)
    → (purl : Text) × (generate_purl (some name) (some version) (some arch) distro ≡ ok purl)
      × (read_purl purl ≡ some (namespace_of distro, name, version, arch))
unfolding generate_purl required
read-generate_purl name version arch distro bn bv ba hn hv hs = (
  format_purl (namespace_of distro) (percent_encode name) (percent_encode version) arch,
  rw (bn, bv, ba),
  read-format_purl (namespace_of distro) (percent_encode name) (percent_encode version) arch hs
        (IsPlain-Lacks (percent_encode name) (percent_encode-IsPlain name)).0
        (IsPlain-Lacks (percent_encode version) (percent_encode-IsPlain version)).1
      ∙ rw (unquote-percent_encode name hn, unquote-percent_encode version hv),
)

-- The value is there and is not blank.
abbrev IsGiven : Option Text → Type 0
IsGiven none = ⊥
IsGiven (some x) = is_blank x ≡ false

required-IsGiven :
    (field : PurlGenerationError) (o : Option Text)
    → ((x : Text) × (required field o ≡ ok x) × IsGiven o)
      ⊎ ((required field o ≡ err field) × ¬ IsGiven o)
unfolding required
required-IsGiven field none = inr (refl, λ h. h)
required-IsGiven field (some x) = elim (Bool-cases (is_blank x)) [
  | inl e ↦ inr (rw e, λ h. ground arith)
  | inr e ↦ inl (x, rw e, e)
]

-- A URL, or the error of the first of the three fields that is not given.
abbrev pub Generated : Option Text → Option Text → Option Text → Option Text → Type 0
Generated name version arch distro =
    (IsGiven name
      × IsGiven version
      × IsGiven arch
      × ((purl : Text) × (generate_purl name version arch distro ≡ ok purl)))
    ⊎ ((¬ IsGiven name
          × (generate_purl name version arch distro ≡ err PurlGenerationError.package_name))
        ⊎ ((IsGiven name
              × ¬ IsGiven version
              × (generate_purl name version arch distro ≡ err PurlGenerationError.version))
            ⊎ (IsGiven name
                × IsGiven version
                × ¬ IsGiven arch
                × (generate_purl name version arch distro ≡ err PurlGenerationError.architecture))))

-- A URL is made exactly when the name, the version and the architecture are there and not blank;
-- otherwise the error names the first of the three, in this order, that is not.
pub generate_purl_lem :
    (name version arch distro : Option Text) → Generated name version arch distro
unfolding generate_purl
generate_purl_lem name version arch distro =
    elim (required-IsGiven PurlGenerationError.package_name name) [
      | inr (e, h) ↦ inr (inl (h, rw e))
      | inl (n, e, h) ↦ elim (required-IsGiven PurlGenerationError.version version) [
        | inr (f, k) ↦ inr (inr (inl (h, k, rw (e, f))))
        | inl (v, f, k) ↦ elim (required-IsGiven PurlGenerationError.architecture arch) [
          | inr (g, l) ↦ inr (inr (inr (h, k, l, rw (e, f, g))))
          | inl (a, g, l) ↦ inl (
            h,
            k,
            l,
            (
              format_purl (namespace_of distro) (percent_encode n) (percent_encode v) a,
              rw (e, f, g),
            ),
          )
        ]
      ]
    ]
