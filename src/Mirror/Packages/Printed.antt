-- ===== src/Mirror/Packages/Printed.antt =====
-- Parsing a Packages index gives the files that are printed in it.
use debcraft.Prelude.{
  ◌≡◌, refl, ap, false, ◌||◌, none, some, List, [], ◌∷◌, ◌++◌, map, arith, is_empty, All,
}
use debcraft.Prelude.Text.{Text, codes, list_text_eq}
use debcraft.Prelude.Lines.{Lacks, split_on-Lacks}
use debcraft.Prelude.Strip.{
  is_space, strip, lstrip, rstrip, partition, all_space, is_blank-all_space,
}
use debcraft.Prelude.Dict.{get, put}
use debcraft.Prelude.Decimal.{
  decimal, IsSolid, decimal-IsSolid, decimal-ne-nil, strip-IsSolid, int_of_text-decimal,
}
use debcraft.Stanza.{
  Field, split_stanzas, parse_stanza_fields, parse_without_continuations, first_loop, first_round,
}
use debcraft.Dpkg.{DpkgStanza, format_parts, format_stanza, format_dpkg_status}
use debcraft.Dpkg.Printed.{IsPrintable, IsStanza, field_lines, stanza_lines, split_stanza}
use debcraft.Dpkg.RoundTrip.{split_stanzas-format, format_solid}
use debcraft.Mirror.Sync.{FileEntry}
use debcraft.Mirror.Packages.{
  truthy, sized_entry, entry_of, extract_entry, entries_of, parse_packages,
}

-- A path and a checksum without blanks.
pub record IsListed (e : FileEntry) : Type 0 where
  pub path : IsSolid e.relative_path
  pub has_path : is_empty e.relative_path ≡ false
  pub sum : IsSolid e.sha256
  pub has_sum : is_empty e.sha256 ≡ false

-- The stanza of a file.
abbrev pub stanza_of : FileEntry → DpkgStanza
stanza_of e =
    (codes "Filename", e.relative_path)
    ∷ (codes "SHA256", e.sha256)
    ∷ (codes "Size", decimal e.size_bytes)
    ∷ []

-- A Packages index of the files.
abbrev pub print_packages : List FileEntry → Text
print_packages es = format_dpkg_status (map stanza_of es)

IsSolid-Lacks : (s : Text) → IsSolid s → Lacks 10 s
unfolding is_space
IsSolid-Lacks [] h = tt
IsSolid-Lacks (c ∷ s) h = (ground (arith, h.0), IsSolid-Lacks s h.1)

printable :
    (name value : Text)
    → Lacks 10 name
    → partition b':' name ≡ none
    → debcraft.Stanza.is_continuation name ≡ false
    → IsSolid value
    → IsPrintable (name, value)
printable name value l p c h = record {
  one_line = l;
  no_colon = p;
  no_blank_start = c;
  no_blank_line = rw (split_on-Lacks 10 value (IsSolid-Lacks value h)) tt;
}

field_lines-solid :
    (name value : Text)
    → IsSolid value
    → field_lines (name, value) ≡ (name ++ (codes ": " ++ value)) ∷ []
unfolding format_parts
field_lines-solid name value h = rw (split_on-Lacks 10 value (IsSolid-Lacks value h)) refl

strip-spaced : (s : Text) → IsSolid s → strip (b' ' ∷ s) ≡ s
unfolding strip lstrip is_space
strip-spaced s h = strip-IsSolid s h

filename_line :
    (v : Text) (h : IsSolid v)
    → first_round (codes "Filename" ++ (codes ": " ++ v)) [] ≡ (codes "Filename", v) ∷ []
unfolding first_round partition get put
filename_line v h =
    let k : strip (codes "Filename") ≡ codes "Filename" =
      unfold strip lstrip rstrip is_space in refl in
    rw (k, strip-spaced v h) refl

sha256_line :
    (p v : Text) (h : IsSolid v)
    → first_round (codes "SHA256" ++ (codes ": " ++ v)) ((codes "Filename", p) ∷ [])
      ≡ (codes "Filename", p) ∷ (codes "SHA256", v) ∷ []
unfolding first_round partition get put strip rstrip lstrip is_space
sha256_line p v h =
    let k : strip (codes "SHA256") ≡ codes "SHA256" = unfold strip lstrip rstrip is_space in refl in
    rw (k, strip-spaced v h) refl

size_line :
    (p q v : Text) (h : IsSolid v)
    → first_round
        (codes "Size" ++ (codes ": " ++ v))
        ((codes "Filename", p) ∷ (codes "SHA256", q) ∷ [])
      ≡ (codes "Filename", p) ∷ (codes "SHA256", q) ∷ (codes "Size", v) ∷ []
unfolding first_round partition get put strip rstrip lstrip is_space
size_line p q v h =
    let k : strip (codes "Size") ≡ codes "Size" = unfold strip lstrip rstrip is_space in refl in
    rw (k, strip-spaced v h) refl

solid-test : (s : Text) → all_space s ≡ false → (is_empty s || all_space s) ≡ false
unfolding all_space
solid-test [] h = cc
solid-test (c ∷ s) h = h

module _ (e : FileEntry) (h : IsListed e) where
  stanza_of-IsStanza : IsStanza (stanza_of e)
  unfolding partition
  stanza_of-IsStanza = (
    printable (codes "Filename") e.relative_path (omega arith) refl refl h.path,
    (
      printable (codes "SHA256") e.sha256 (omega arith) refl refl h.sum,
      (
        printable (codes "Size") (decimal e.size_bytes) (omega arith) refl refl
            (decimal-IsSolid e.size_bytes),
        tt,
      ),
    ),
  )

  stanza_lines-entry :
      stanza_lines (stanza_of e)
      ≡ (codes "Filename" ++ (codes ": " ++ e.relative_path))
        ∷ (codes "SHA256" ++ (codes ": " ++ e.sha256))
        ∷ (codes "Size" ++ (codes ": " ++ decimal e.size_bytes))
        ∷ []
  stanza_lines-entry =
      rw
        (
          field_lines-solid (codes "Filename") e.relative_path h.path,
          field_lines-solid (codes "SHA256") e.sha256 h.sum,
          field_lines-solid (codes "Size") (decimal e.size_bytes) (decimal-IsSolid e.size_bytes),
        )
        refl

  parse_stanza-entry : parse_without_continuations (format_stanza (stanza_of e)) ≡ stanza_of e
  unfolding parse_without_continuations first_loop
  parse_stanza-entry =
      rw (split_stanza _ _ stanza_of-IsStanza, stanza_lines-entry)
        (rw
          (
            filename_line e.relative_path h.path,
            sha256_line e.relative_path e.sha256 h.sum,
            size_line e.relative_path e.sha256 (decimal e.size_bytes)
                (decimal-IsSolid e.size_bytes),
          )
          refl)

  extract_stanza : extract_entry (stanza_of e) ≡ some e
  unfolding extract_entry truthy entry_of sized_entry get
  extract_stanza =
      rw (h.has_path, h.has_sum, decimal-ne-nil e.size_bytes, int_of_text-decimal e.size_bytes) refl

entries_of-format :
    (es : List FileEntry) → All IsListed es → entries_of (map format_stanza (map stanza_of es)) ≡ es
unfolding entries_of parse_stanza_fields
entries_of-format [] h = refl
entries_of-format (e ∷ es) h =
    rw (parse_stanza-entry e h.0, extract_stanza e h.0) (ap (λ l. e ∷ l) (entries_of-format es h.1))

stanzas_of-IsStanza : (es : List FileEntry) → All IsListed es → All IsStanza (map stanza_of es)
stanzas_of-IsStanza [] h = tt
stanzas_of-IsStanza (e ∷ es) h = (stanza_of-IsStanza e h.0, stanzas_of-IsStanza es h.1)

-- Parsing the Packages index of a list of files gives these files in their order, if each has a path
-- and a checksum without blanks.
pub parse-print_packages :
    (es : List FileEntry) → All IsListed es → parse_packages (print_packages es) ≡ es
unfolding parse_packages
parse-print_packages [] h = unfold format_dpkg_status in refl
parse-print_packages (e ∷ es) h =
    let s = stanzas_of-IsStanza (e ∷ es) h in
    let solid = format_solid (stanza_of e) (map stanza_of es) s in
    rw
      (
        is_blank-all_space (print_packages (e ∷ es)),
        split_stanzas-format (map stanza_of (e ∷ es)) s,
      )
      (rw (solid-test (print_packages (e ∷ es)) solid) (entries_of-format (e ∷ es) h))
