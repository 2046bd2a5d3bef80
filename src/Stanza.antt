-- ===== src/Stanza.antt =====
-- src/debcraft/domain/_stanza_parser.py: control files as stanzas of fields. The lines of a text are
-- the parts between its newlines.
use debcraft.Prelude.{
  Bool, false, ◌||◌, Option, none, some, List, [], ◌∷◌, ◌++◌, is_empty, if◌then◌else◌, ◌==◌,
}
use debcraft.Prelude.Text.{Text, list_text_eq}
use debcraft.Prelude.Lines.{split_on, join}
use debcraft.Prelude.Strip.{strip, is_blank, all_space, partition}
use debcraft.Prelude.Dict.{Dict, get, put}

abbrev pub newline : Text
newline = 10 ∷ []

-- `xs.append(x)`
abbrev pub append {ℓ} : {A : Type ℓ} → List A → A → List A
append xs x = xs ++ x ∷ []

-- One round of the loop of `split_stanzas`: the stanzas so far and the lines of the current one.
unfoldable pub stanza_round : Text → List Text × List Text → List Text × List Text
stanza_round line (stanzas, current) =
    if is_blank line
    then (if is_empty current
        then (stanzas, current)
        else (append stanzas (join newline current), []))
    else (stanzas, append current line)

unfoldable pub stanza_loop : List Text → List Text × List Text → List Text × List Text
stanza_loop [] state = state
stanza_loop (line ∷ lines) state = stanza_loop lines (stanza_round line state)

-- The stanza after the loop, if the text does not end in a blank line.
unfoldable pub close_stanza : List Text × List Text → List Text
close_stanza (stanzas, current) =
    if is_empty current then stanzas else append stanzas (join newline current)

unfoldable pub split_stanzas : Text → List Text
split_stanzas content =
    if is_empty content || all_space content
    then []
    else close_stanza (stanza_loop (split_on 10 content) ([], []))

-- A continuation line starts with a space or a tab.
abbrev pub is_continuation : Text → Bool
is_continuation [] = false
is_continuation (c ∷ s) = c == b' ' || c == 9

-- `line[1:]`
abbrev pub rest_of : Text → Text
rest_of [] = []
rest_of (c ∷ s) = s

abbrev pub Field : Type 0
Field = Text × Text

-- `fields[-1] = (name, value + "\n" + continuation_content)`, if there is a field.
unfoldable pub extend_last : List Field → Text → List Field
extend_last [] content = []
extend_last ((name, value) ∷ []) content = (name, value ++ (newline ++ content)) ∷ []
extend_last (f ∷ g ∷ fields) content = f ∷ extend_last (g ∷ fields) content

-- `field_value[1:]` if it starts with a space.
unfoldable pub drop_space : Text → Text
drop_space [] = []
drop_space (c ∷ s) = if c == b' ' then s else c ∷ s

-- One round of `parse_stanza_fields_ordered`.
unfoldable pub ordered_round : Text → List Field → List Field
ordered_round line fields =
    if is_continuation line then extend_last fields (rest_of line) else elim (partition b':' line) [
      | none ↦ fields
      | some (name, value) ↦ append fields (name, drop_space value)
    ]

unfoldable pub ordered_loop : List Text → List Field → List Field
ordered_loop [] fields = fields
ordered_loop (line ∷ lines) fields = ordered_loop lines (ordered_round line fields)

unfoldable pub parse_stanza_fields_ordered : Text → List Field
parse_stanza_fields_ordered stanza = ordered_loop (split_on 10 stanza) []

-- The variables of the loop of `_parse_with_continuations`.
pub record Pending : Type 0 where
  pub fields : Dict Text Text
  pub current_key : Option Text
  pub current_value_lines : List Text

-- `if current_key is not None: fields[current_key] = "\n".join(current_value_lines)`
unfoldable pub save_field : Pending → Dict Text Text
save_field s = elim s.current_key [
  | none ↦ s.fields
  | some key ↦ put s.fields key (join newline s.current_value_lines)
]

unfoldable pub continuations_round : Text → Pending → Pending
continuations_round line s =
    if is_continuation line
    then elim s.current_key [
      | none ↦ s
      | some key ↦ record s { current_value_lines = append s.current_value_lines (rest_of line) }
    ]
    else elim (partition b':' line) [
      | none ↦ record { fields = save_field s; current_key = none; current_value_lines = [] }
      | some (key, value) ↦ record {
        fields = save_field s;
        current_key = some key;
        current_value_lines = strip value ∷ [];
      }
    ]

unfoldable pub continuations_loop : List Text → Pending → Pending
continuations_loop [] s = s
continuations_loop (line ∷ lines) s = continuations_loop lines (continuations_round line s)

unfoldable pub parse_with_continuations : Text → Dict Text Text
parse_with_continuations stanza = save_field (
    continuations_loop (split_on 10 stanza)
      (record { fields = []; current_key = none; current_value_lines = [] }))

-- One round of `_parse_without_continuations`: the first value of a key stays.
unfoldable pub first_round : Text → Dict Text Text → Dict Text Text
first_round line fields = if is_continuation line then fields else elim (partition b':' line) [
  | none ↦ fields
  | some (key, value) ↦ elim (get fields (strip key)) [
    | some old ↦ fields
    | none ↦ if is_empty (strip key) then fields else put fields (strip key) (strip value)
  ]
]

unfoldable pub first_loop : List Text → Dict Text Text → Dict Text Text
first_loop [] fields = fields
first_loop (line ∷ lines) fields = first_loop lines (first_round line fields)

unfoldable pub parse_without_continuations : Text → Dict Text Text
parse_without_continuations stanza = first_loop (split_on 10 stanza) []

unfoldable pub parse_stanza_fields : Text → Bool → Dict Text Text
parse_stanza_fields stanza preserve_continuations =
    if preserve_continuations
    then parse_with_continuations stanza
    else parse_without_continuations stanza
