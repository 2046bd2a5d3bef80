-- ===== src/Dpkg/Printed.antt =====
-- The lines of what dpkg_printer.py prints.
use debcraft.Prelude.{
  ℕ, ◌≡◌, refl, sym, ap, ◌∙◌, false, Bool-cases, inl, inr, none, List, [], ◌∷◌, ◌++◌, append_assoc,
  arith, map, is_empty, All, ◌||◌, ◌==◌, contains, nat_eq,
}
use debcraft.Prelude.Text.{Text, codes, text_eq}
use debcraft.Prelude.Lines.{
  split_on, join, Lacks, split_on-Lacks, split_on-absent, split_on-append, split_on-join, split_all,
  split_all-Lacks, onto_first, split_on-ne-nil,
}
use debcraft.Prelude.Strip.{all_space, partition}
use debcraft.Stanza.{newline, Field, is_continuation}
use debcraft.Dpkg.{
  DpkgStanza, format_part, format_parts, format_field_value, format_field, format_stanza,
  format_dpkg_status,
}

abbrev pub tail : List Text → List Text
tail [] = []
tail (p ∷ ps) = ps

-- A field that survives printing: the name is one that a line can start with, and no continuation
-- line of the value is blank.
pub record IsPrintable (f : Field) : Type 0 where
  pub one_line : Lacks 10 f.0
  pub no_colon : partition b':' f.0 ≡ none
  pub no_blank_start : is_continuation f.0 ≡ false
  pub no_blank_line : All (λ p. all_space p ≡ false) (tail (split_on 10 f.1))

-- A text in front of the first part.
abbrev pub before_first : Text → List Text → List Text
before_first a [] = a ∷ []
before_first a (p ∷ ps) = (a ++ p) ∷ ps

onto-before :
    (c : ℕ) (a : Text) (ps : List Text) → onto_first c (before_first a ps) ≡ before_first (c ∷ a) ps
onto-before c a [] = refl
onto-before c a (p ∷ ps) = refl

before_first-nil : (ps : List Text) → is_empty ps ≡ false → before_first [] ps ≡ ps
before_first-nil [] h = cc
before_first-nil (p ∷ ps) h = refl

split_on-before :
    (sep : ℕ) (a b : Text) → Lacks sep a → split_on sep (a ++ b) ≡ before_first a (split_on sep b)
unfolding split_on
split_on-before sep [] b h = sym (before_first-nil (split_on sep b) (split_on-ne-nil sep b))
split_on-before sep (c ∷ a) b h =
    let e : (c == sep) ≡ false = ground arith in
    rw (e, split_on-before sep a b h.1) (onto-before c a (split_on sep b))

format_part-Lacks : (p : Text) → Lacks 10 p → Lacks 10 (format_part p)
unfolding format_part
format_part-Lacks p h = elim (Bool-cases (is_empty p || text_eq p (codes "."))) [
  | inl e ↦ rw e (omega arith)
  | inr e ↦ rw e (omega arith, h)
]

map-format_part-Lacks : (ps : List Text) → All (Lacks 10) ps → All (Lacks 10) (map format_part ps)
map-format_part-Lacks [] h = tt
map-format_part-Lacks (p ∷ ps) h = (format_part-Lacks p h.0, map-format_part-Lacks ps h.1)

format_parts-Lacks : (ps : List Text) → All (Lacks 10) ps → All (Lacks 10) (format_parts ps)
unfolding format_parts
format_parts-Lacks [] h = tt
format_parts-Lacks (p ∷ ps) h = (h.0, map-format_part-Lacks ps h.1)

contains-Lacks : (c : ℕ) (s : Text) → contains s c ≡ false → Lacks c s
contains-Lacks c [] h = tt
contains-Lacks c (d ∷ s) h = (ground arith, contains-Lacks c s (ground arith))

-- The lines of a printed value.
split_value :
    (value : Text) → split_on 10 (format_field_value value) ≡ format_parts (split_on 10 value)
unfolding format_field_value
split_value value = elim (Bool-cases (contains value 10)) [
  | inl e ↦ rw e (several (split_on 10 value) (split_on-ne-nil 10 value) (split_on-absent 10 value))
  | inr e ↦
      rw (e, split_on-Lacks 10 value (contains-Lacks 10 value e)) (unfold format_parts in refl)
]
  where
    several :
        (ps : List Text)
        → is_empty ps ≡ false
        → All (Lacks 10) ps
        → split_on 10 (join newline (format_parts ps)) ≡ format_parts ps
    several [] h k = cc
    several (p ∷ ps) h k =
        unfold format_parts in
        (split_on-join 10 p (map format_part ps)
          ∙ split_all-Lacks 10 (p ∷ map format_part ps) (format_parts-Lacks (p ∷ ps) k))

-- The lines of a field: its name with the first part of its value, and the continuation lines.
abbrev pub field_lines : Field → List Text
field_lines (name, value) =
    before_first name (before_first (codes ": ") (format_parts (split_on 10 value)))

split_field : (f : Field) → Lacks 10 f.0 → split_on 10 (format_field f) ≡ field_lines f
unfolding format_field
split_field (name, value) h =
    split_on-before 10 name (codes ": " ++ format_field_value value) h
    ∙ ap (before_first name) (
        split_on-before 10 (codes ": ") (format_field_value value) (omega arith)
        ∙ ap (before_first (codes ": ")) (split_value value))

abbrev pub stanza_lines : DpkgStanza → List Text
stanza_lines [] = []
stanza_lines (f ∷ fs) = field_lines f ++ stanza_lines fs

split_fields :
    (fs : List Field) → All IsPrintable fs → split_all 10 (map format_field fs) ≡ stanza_lines fs
unfolding split_all
split_fields [] h = refl
split_fields (f ∷ fs) h = rw (split_field f (h.0).one_line, split_fields fs h.1)

-- The lines of a printed stanza.
pub split_stanza :
    (f : Field) (fs : List Field)
    → All IsPrintable (f ∷ fs)
    → split_on 10 (format_stanza (f ∷ fs)) ≡ stanza_lines (f ∷ fs)
unfolding format_stanza
split_stanza f fs h =
    split_on-join 10 (format_field f) (map format_field fs) ∙ split_fields (f ∷ fs) h

-- The lines of the whole file: those of each stanza, with an empty line behind.
abbrev pub file_lines : List DpkgStanza → List Text
file_lines [] = []
file_lines (s ∷ ss) = stanza_lines s ++ [] ∷ file_lines ss

abbrev pub IsStanza : DpkgStanza → Type 0
IsStanza [] = ⊥
IsStanza (f ∷ fs) = All IsPrintable (f ∷ fs)

-- A stanza, a blank line and a rest.
split_gap :
    (t rest : Text)
    → split_on 10 ((t ++ (codes "\n\n" ++ rest)) ++ newline)
      ≡ split_on 10 t ++ [] ∷ split_on 10 (rest ++ newline)
split_gap t rest =
    ap (split_on 10) (append_assoc t (codes "\n\n" ++ rest) newline)
    ∙ split_on-append 10 t (10 ∷ (rest ++ newline))
    ∙ ap (λ x. split_on 10 t ++ x) (split_on-append 10 [] (rest ++ newline))
    ∙ unfold split_on in refl

pub split_file :
    (s : DpkgStanza) (ss : List DpkgStanza)
    → All IsStanza (s ∷ ss)
    → split_on 10 (format_dpkg_status (s ∷ ss)) ≡ file_lines (s ∷ ss)
unfolding format_dpkg_status join
split_file [] ss h = absurd h.0
split_file (f ∷ fs) [] h =
    split_on-append 10 (format_stanza (f ∷ fs)) []
    ∙ unfold split_on in ap (λ x. x ++ [] ∷ []) (split_stanza f fs h.0)
split_file (f ∷ fs) (s ∷ ss) h =
    split_gap (format_stanza (f ∷ fs)) (join (codes "\n\n") (map format_stanza (s ∷ ss)))
    ∙ (λ i. split_stanza f fs h.0 i ++ [] ∷ split_file s ss h.1 i)
