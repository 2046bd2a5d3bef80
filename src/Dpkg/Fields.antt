-- ===== src/Dpkg/Fields.antt =====
-- The fields of a stanza, printed and read again: src/debcraft/domain/scanner/dpkg_printer.py and
-- src/debcraft/domain/_stanza_parser.py.
use debcraft.Prelude.{
  ◌≡◌, refl, sym, ap, ◌∙◌, false, none, List, [], ◌∷◌, ◌++◌, append_assoc, append-nil, arith, map,
  is_empty, All,
}
use debcraft.Prelude.Text.{Text, codes, text_eq_iff}
use debcraft.Prelude.Lines.{split_on, join, split_on-ne-nil, join-split_on}
use debcraft.Prelude.Strip.{all_space, partition, partition-append}
use debcraft.Stanza.{
  newline, append, Field, is_continuation, extend_last, drop_space, ordered_round, ordered_loop,
  parse_stanza_fields_ordered,
}
use debcraft.Dpkg.{DpkgStanza, format_part, format_parts, format_stanza}
use debcraft.Dpkg.Printed.{
  tail, IsPrintable, before_first, field_lines, stanza_lines, IsStanza, split_stanza,
}

extend_last-append :
    (fields : List Field) (name value content : Text)
    → extend_last (append fields (name, value)) content
      ≡ append fields (name, value ++ (newline ++ content))
unfolding extend_last
extend_last-append [] name value content = refl
extend_last-append (f ∷ []) name value content = refl
extend_last-append (f ∷ g ∷ fields) name value content =
    ap (λ x. f ∷ x) (extend_last-append (g ∷ fields) name value content)

pub format_part-continuation : (p : Text) → all_space p ≡ false → format_part p ≡ b' ' ∷ p
unfolding format_part all_space
format_part-continuation [] h = cc
format_part-continuation (c ∷ p) h = ground (arith, text_eq_iff (c ∷ p) (codes "."))

-- Continuation lines extend the value of the last field.
continuation_round :
    (p : Text) (fields : List Field) (name value : Text)
    → all_space p ≡ false
    → ordered_round (format_part p) (append fields (name, value))
      ≡ append fields (name, value ++ (newline ++ p))
unfolding ordered_round
continuation_round p fields name value h =
    rw (format_part-continuation p h) (extend_last-append fields name value p)

continuation_rounds :
    (ps rest : List Text) (fields : List Field) (name value : Text)
    → All (λ p. all_space p ≡ false) ps
    → ordered_loop (map format_part ps ++ rest) (append fields (name, value))
      ≡ ordered_loop rest (append fields (name, join newline (value ∷ ps)))
unfolding ordered_loop join
continuation_rounds [] rest fields name value h = refl
continuation_rounds (p ∷ ps) rest fields name value h =
    ap (ordered_loop (map format_part ps ++ rest)) (continuation_round p fields name value h.0)
    ∙ continuation_rounds ps rest fields name (value ++ (newline ++ p)) h.1
    ∙ ap (λ v. ordered_loop rest (append fields (name, v))) (join_regroup value p ps)
  where
    join_regroup :
        (value p : Text) (ps : List Text)
        → join newline ((value ++ (newline ++ p)) ∷ ps) ≡ join newline (value ∷ p ∷ ps)
    join_regroup value p [] = refl
    join_regroup value p (q ∷ ps) =
        append_assoc value (newline ++ p) (newline ++ join newline (q ∷ ps))

-- The first line of a field opens it.
field_round :
    (name part : Text) (fields : List Field)
    → partition b':' name ≡ none
    → is_continuation name ≡ false
    → ordered_round (name ++ (codes ": " ++ part)) fields ≡ append fields (name, part)
unfolding ordered_round drop_space
field_round [] part fields h k = rw (partition-append b':' [] (b' ' ∷ part) h)
field_round (c ∷ name) part fields h k = rw (k, partition-append b':' (c ∷ name) (b' ' ∷ part) h)

field_rounds :
    (name value : Text) (rest : List Text) (fields : List Field)
    → IsPrintable (name, value)
    → ordered_loop (field_lines (name, value) ++ rest) fields
      ≡ ordered_loop rest (append fields (name, value))
field_rounds name value rest fields h =
    by_parts (split_on 10 value) (split_on-ne-nil 10 value) h.no_blank_line
    ∙ ap (λ v. ordered_loop rest (append fields (name, v))) (join-split_on 10 value)
  where
    by_parts :
        (ps : List Text)
        → is_empty ps ≡ false
        → All (λ p. all_space p ≡ false) (tail ps)
        → ordered_loop
            (before_first name (before_first (codes ": ") (format_parts ps)) ++ rest)
            fields
          ≡ ordered_loop rest (append fields (name, join newline ps))
    by_parts [] e k = cc
    by_parts (p ∷ ps) e k =
        unfold format_parts ordered_loop in
        (ap (ordered_loop (map format_part ps ++ rest))
            (field_round name p fields h.no_colon h.no_blank_start)
          ∙ continuation_rounds ps rest fields name p k)

stanza_rounds :
    (fs : List Field) (fields : List Field)
    → All IsPrintable fs
    → ordered_loop (stanza_lines fs) fields ≡ fields ++ fs
stanza_rounds [] fields h = unfold ordered_loop in sym (append-nil fields)
stanza_rounds ((name, value) ∷ fs) fields h =
    field_rounds name value (stanza_lines fs) fields h.0
    ∙ stanza_rounds fs (append fields (name, value)) h.1
    ∙ append_assoc fields ((name, value) ∷ []) fs

-- The fields of one printed stanza.
pub parse_stanza-format :
    (s : DpkgStanza) → IsStanza s → parse_stanza_fields_ordered (format_stanza s) ≡ s
unfolding parse_stanza_fields_ordered
parse_stanza-format [] h = absurd h
parse_stanza-format (f ∷ fs) h = rw (split_stanza f fs h) (stanza_rounds (f ∷ fs) [] h)
