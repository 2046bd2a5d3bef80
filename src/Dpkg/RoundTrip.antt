-- ===== src/Dpkg/RoundTrip.antt =====
-- Parsing what dpkg_printer.py prints gives the stanzas back.
use debcraft.Prelude.{
  ℕ, ◌+◌, ◌≡◌, refl, sym, ap, ◌∙◌, false, List, [], ◌∷◌, ◌++◌, append_assoc, append-nil, arith, map,
  is_empty, All, All-append, ◌||◌,
}
use debcraft.Prelude.Text.{Text, codes}
use debcraft.Prelude.Lines.{split_on, join, split_on-ne-nil, join-split_on}
use debcraft.Prelude.Strip.{is_space, all_space, all_space-append, is_blank-all_space}
use debcraft.Stanza.{
  newline, append, Field, parse_stanza_fields_ordered, stanza_round, stanza_loop, close_stanza,
  split_stanzas,
}
use debcraft.Dpkg.{
  DpkgStanza, DpkgParseResult, format_part, format_parts, format_field, format_stanza,
  format_dpkg_status, status_round, status_loop, parse_dpkg_status,
}
use debcraft.Dpkg.Printed.{
  tail, IsPrintable, before_first, field_lines, stanza_lines, file_lines, IsStanza, split_stanza,
  split_file,
}
use debcraft.Dpkg.Fields.{format_part-continuation, parse_stanza-format}

-- Lines that are not blank.
abbrev Solid : List Text → Type 0
Solid = All (λ line. all_space line ≡ false)

format_parts-Solid : (ps : List Text) → Solid ps → Solid (map format_part ps)
format_parts-Solid [] h = tt
format_parts-Solid (p ∷ ps) h = (
  rw (format_part-continuation p h.0) (unfold all_space in ground (arith, h.0)),
  format_parts-Solid ps h.1,
)

field_lines-Solid : (f : Field) → IsPrintable f → Solid (field_lines f)
field_lines-Solid (name, value) h =
    by_parts (split_on 10 value) (split_on-ne-nil 10 value) h.no_blank_line
  where
    colon : (part : Text) → all_space (name ++ (codes ": " ++ part)) ≡ false
    colon part = rw all_space-append (unfold all_space is_space in ground arith)

    by_parts :
        (ps : List Text)
        → is_empty ps ≡ false
        → All (λ p. all_space p ≡ false) (tail ps)
        → Solid (before_first name (before_first (codes ": ") (format_parts ps)))
    by_parts [] e k = cc
    by_parts (p ∷ ps) e k = unfold format_parts in (colon p, format_parts-Solid ps k)

stanza_lines-Solid : (fs : List Field) → All IsPrintable fs → Solid (stanza_lines fs)
stanza_lines-Solid [] h = tt
stanza_lines-Solid (f ∷ fs) h =
    All-append (λ line. all_space line ≡ false) (field_lines f) (stanza_lines fs)
      (field_lines-Solid f h.0) (stanza_lines-Solid fs h.1)

solid_round :
    (line : Text) (stanzas current : List Text)
    → all_space line ≡ false
    → stanza_round line (stanzas, current) ≡ (stanzas, append current line)
unfolding stanza_round
solid_round line stanzas current h = rw (is_blank-all_space line, h)

-- Lines that are not blank gather in the current stanza.
Solid-rounds :
    (lines rest stanzas current : List Text)
    → Solid lines
    → stanza_loop (lines ++ rest) (stanzas, current) ≡ stanza_loop rest (stanzas, current ++ lines)
unfolding stanza_loop
Solid-rounds [] rest stanzas current h = rw (append-nil current)
Solid-rounds (line ∷ lines) rest stanzas current h =
    ap (stanza_loop (lines ++ rest)) (solid_round line stanzas current h.0)
    ∙ Solid-rounds lines rest stanzas (append current line) h.1
    ∙ ap (λ x. stanza_loop rest (stanzas, x)) (append_assoc current (line ∷ []) lines)

blank_round :
    (stanzas current : List Text)
    → is_empty current ≡ false
    → stanza_round [] (stanzas, current) ≡ (append stanzas (join newline current), [])
unfolding stanza_round
blank_round stanzas current h = rw (is_blank-all_space [], h) (unfold all_space in refl)

stanza_lines-ne-nil : (s : DpkgStanza) → IsStanza s → is_empty (stanza_lines s) ≡ false
stanza_lines-ne-nil [] h = absurd h
stanza_lines-ne-nil ((name, value) ∷ fs) h =
    by_parts (before_first (codes ": ") (format_parts (split_on 10 value)))
  where
    by_parts : (ps : List Text) → is_empty (before_first name ps ++ stanza_lines fs) ≡ false
    by_parts [] = refl
    by_parts (p ∷ ps) = refl

join_stanza : (s : DpkgStanza) → IsStanza s → join newline (stanza_lines s) ≡ format_stanza s
join_stanza [] h = absurd h
join_stanza (f ∷ fs) h =
    ap (join newline) (sym (split_stanza f fs h)) ∙ join-split_on 10 (format_stanza (f ∷ fs))

IsStanza-All : (s : DpkgStanza) → IsStanza s → All IsPrintable s
IsStanza-All [] h = absurd h
IsStanza-All (f ∷ fs) h = h

-- The lines of each stanza, and the empty line behind them, give the stanza's text.
file_rounds :
    (ss : List DpkgStanza) (stanzas : List Text)
    → All IsStanza ss
    → stanza_loop (file_lines ss) (stanzas, []) ≡ (stanzas ++ map format_stanza ss, [])
unfolding stanza_loop
file_rounds [] stanzas h = rw (append-nil stanzas)
file_rounds (s ∷ ss) stanzas h =
    Solid-rounds (stanza_lines s) ([] ∷ file_lines ss) stanzas []
      (stanza_lines-Solid s (IsStanza-All s h.0))
    ∙ ap (stanza_loop (file_lines ss)) (
        blank_round stanzas (stanza_lines s) (stanza_lines-ne-nil s h.0)
        ∙ ap (λ t. (append stanzas t, [])) (join_stanza s h.0))
    ∙ file_rounds ss (append stanzas (format_stanza s)) h.1
    ∙ ap (λ x. (x, [])) (append_assoc stanzas (format_stanza s ∷ []) (map format_stanza ss))

join-solid :
    (sep p : Text) (ps : List Text) → all_space p ≡ false → all_space (join sep (p ∷ ps)) ≡ false
unfolding join
join-solid sep p [] h = h
join-solid sep p (q ∷ ps) h = rw (all_space-append, h)

pub format_solid :
    (s : DpkgStanza) (ss : List DpkgStanza)
    → All IsStanza (s ∷ ss)
    → all_space (format_dpkg_status (s ∷ ss)) ≡ false
unfolding format_dpkg_status format_stanza
format_solid [] ss h = absurd h.0
format_solid ((name, value) ∷ fs) ss h = rw (
  all_space-append,
  join-solid (codes "\n\n") (format_stanza ((name, value) ∷ fs)) (map format_stanza ss)
      (join-solid newline (format_field (name, value)) (map format_field fs) (solid name value)),
)
  where
    solid : (name value : Text) → all_space (format_field (name, value)) ≡ false
    solid name value =
        unfold format_field in rw all_space-append (unfold all_space is_space in ground arith)

solid-nonempty : (s : Text) → all_space s ≡ false → (is_empty s || all_space s) ≡ false
unfolding all_space
solid-nonempty [] h = cc
solid-nonempty (c ∷ s) h = h

pub split_stanzas-format :
    (ss : List DpkgStanza)
    → All IsStanza ss
    → split_stanzas (format_dpkg_status ss) ≡ map format_stanza ss
unfolding split_stanzas close_stanza
split_stanzas-format [] h = unfold format_dpkg_status in refl
split_stanzas-format (s ∷ ss) h = rw (
  solid-nonempty (format_dpkg_status (s ∷ ss)) (format_solid s ss h),
  split_file s ss h,
  file_rounds (s ∷ ss) [] h,
)

status_loop-stanzas :
    (texts : List Text) (index : ℕ) (r : DpkgParseResult)
    → (status_loop texts index r).stanzas ≡ r.stanzas ++ map parse_stanza_fields_ordered texts
unfolding status_loop status_round
status_loop-stanzas [] index r = sym (append-nil r.stanzas)
status_loop-stanzas (t ∷ texts) index r =
    status_loop-stanzas texts (index + 1) (status_round index t r)
    ∙ append_assoc r.stanzas (parse_stanza_fields_ordered t ∷ [])
        (map parse_stanza_fields_ordered texts)

parse-All-format :
    (ss : List DpkgStanza)
    → All IsStanza ss
    → map parse_stanza_fields_ordered (map format_stanza ss) ≡ ss
parse-All-format [] h = refl
parse-All-format (s ∷ ss) h = λ i. parse_stanza-format s h.0 i ∷ parse-All-format ss h.1 i

-- Parsing a printed list of stanzas gives the stanzas back, if each has a field, no field name holds
-- a colon or a newline or starts with a space or a tab, and no continuation line of a value is
-- blank.
pub parse-format_dpkg_status :
    (ss : List DpkgStanza)
    → All IsStanza ss
    → (parse_dpkg_status (format_dpkg_status ss)).stanzas ≡ ss
unfolding parse_dpkg_status
parse-format_dpkg_status ss h =
    status_loop-stanzas (split_stanzas (format_dpkg_status ss)) 0 _
    ∙ ap (map parse_stanza_fields_ordered) (split_stanzas-format ss h)
    ∙ parse-All-format ss h
