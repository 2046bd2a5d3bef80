-- ===== src/Dpkg.antt =====
-- The dpkg status file: src/debcraft/domain/scanner/dpkg_parser.py and dpkg_printer.py.
pub mod Printed
pub mod Fields
pub mod RoundTrip
pub mod Filter
use debcraft.Prelude.{
  ℕ, ◌+◌, ◌||◌, Option, none, some, List, [], ◌∷◌, ◌++◌, map, is_empty, if◌then◌else◌, contains,
  nat_eq,
}
use debcraft.Prelude.Text.{Text, codes, text_eq}
use debcraft.Prelude.Lines.{split_on, join}
use debcraft.Prelude.Strip.{is_space, strip, lower}
use debcraft.Stanza.{newline, append, Field, split_stanzas, parse_stanza_fields_ordered}

-- `DpkgStanza`: its fields in order.
abbrev pub DpkgStanza : Type 0
DpkgStanza = List Field

-- `IdentifiedPackage` of domain/scanner/values.py.
pub record IdentifiedPackage : Type 0 where
  pub name : Text
  pub version : Text
  pub architecture : Text
  pub status : Text

-- The diagnostics, with the arguments of their messages.
pub data Diagnostic : Type 0 where
  missing_fields : (stanza : ℕ) → (names : List Text) → Diagnostic
  malformed_status : (stanza : ℕ) → (status : Text) → Diagnostic
  unrecognized_state : (stanza : ℕ) → (name current_state : Text) → Diagnostic
  unrecognized_action : (stanza : ℕ) → (name desired_action : Text) → Diagnostic

pub record DpkgParseResult : Type 0 where
  pub packages : List IdentifiedPackage
  pub diagnostics : List Diagnostic
  pub stanzas : List DpkgStanza

-- `DpkgStanza.get`
unfoldable pub get_field : DpkgStanza → Text → Option Text
get_field [] name = none
get_field ((k, v) ∷ fields) name =
    let rest = get_field fields name in if text_eq (lower k) (lower name) then some v else rest

-- `str.split()`: the runs of characters that are no blanks. `word` is the run so far, if any.
unfoldable pub words_loop : Text → Text → List Text
words_loop [] word = if is_empty word then [] else word ∷ []
words_loop (c ∷ s) word =
    let next = words_loop s [] in
    let more = words_loop s (word ++ c ∷ []) in
    if is_space c then (if is_empty word then next else word ∷ next) else more

unfoldable pub split_words : Text → List Text
split_words s = words_loop s []

-- The names of the required fields that are missing, of `_classify_package`.
unfoldable pub missing_required : Option Text → Option Text → List Text
missing_required package_name version =
    (elim package_name [ none ↦ codes "Package" ∷ [] | some n ↦ [] ])
    ++ (elim version [ none ↦ codes "Version" ∷ [] | some v ↦ [] ])

-- What one stanza contributes: at most one package, at most one diagnostic.
abbrev pub Classified : Type 0
Classified = Option IdentifiedPackage × Option Diagnostic

-- The package of `_classify_package`; a missing architecture is the empty text.
unfoldable pub identified : DpkgStanza → Text → Text → Text → IdentifiedPackage
identified stanza name version status = record {
  name = name;
  version = version;
  architecture = elim (get_field stanza (codes "Architecture")) [ none ↦ [] | some a ↦ a ];
  status = status;
}

-- The tests of `_classify_package` on the words of the status.
unfoldable pub classify_state : DpkgStanza → ℕ → Text → Text → Text → Text → Classified
classify_state stanza index name version desired_action current_state =
    if text_eq desired_action (codes "deinstall") || text_eq desired_action (codes "purge")
    then (none, none)
    else if text_eq desired_action (codes "install") || text_eq desired_action (codes "hold")
    then (if text_eq current_state (codes "installed")
        then (some (identified stanza name version (codes "installed")), none)
        else if text_eq current_state (codes "config-files")
        then (some (identified stanza name version (codes "config-files")), none)
        else (none, some (unrecognized_state (index + 1) name current_state)))
    else (none, some (unrecognized_action (index + 1) name desired_action))

unfoldable pub classify_status : DpkgStanza → ℕ → Text → Text → Text → List Text → Classified
classify_status stanza index name version status (desired_action ∷ flag ∷ current_state ∷ more) =
    classify_state stanza index name version desired_action current_state
classify_status stanza index name version status _ =
    (none, some (malformed_status (index + 1) status))

-- `_classify_package` from its test on the status, given the value of that field.
unfoldable pub classify_installed : DpkgStanza → ℕ → Text → Text → Option Text → Classified
classify_installed stanza index name version none =
    (none, some (missing_fields (index + 1) (codes "Status" ∷ [])))
classify_installed stanza index name version (some status) =
    classify_status stanza index name version status (split_words (strip status))

-- `_classify_package`, given the values of its two required fields.
unfoldable pub classify_named : DpkgStanza → ℕ → Option Text → Option Text → Classified
classify_named stanza index (some name) (some version) =
    classify_installed stanza index name version (get_field stanza (codes "Status"))
classify_named stanza index package_name version =
    (none, some (missing_fields (index + 1) (missing_required package_name version)))

unfoldable pub classify_package : DpkgStanza → ℕ → Classified
classify_package stanza index =
    classify_named stanza index (get_field stanza (codes "Package"))
      (get_field stanza (codes "Version"))

-- `if x is not None: xs.append(x)`
abbrev pub append_some : {A : Type 0} → List A → Option A → List A
append_some xs none = xs
append_some xs (some x) = append xs x

-- One round of the loop of `parse_dpkg_status`.
unfoldable pub status_round : ℕ → Text → DpkgParseResult → DpkgParseResult
status_round index stanza_text r =
    let stanza = parse_stanza_fields_ordered stanza_text in
    let (pkg, diagnostic) = classify_package stanza index in
    record {
      packages = append_some r.packages pkg;
      diagnostics = append_some r.diagnostics diagnostic;
      stanzas = append r.stanzas stanza;
    }

unfoldable pub status_loop : List Text → ℕ → DpkgParseResult → DpkgParseResult
status_loop [] index r = r
status_loop (stanza_text ∷ texts) index r =
    status_loop texts (index + 1) (status_round index stanza_text r)

unfoldable pub parse_dpkg_status : Text → DpkgParseResult
parse_dpkg_status content =
    status_loop (split_stanzas content) 0 (record { packages = []; diagnostics = []; stanzas = [] })

-- A continuation line of `_format_field_value`.
unfoldable pub format_part : Text → Text
format_part part = if is_empty part || text_eq part (codes ".") then codes " ." else b' ' ∷ part

-- `parts[0]`, and a continuation line for each other part.
unfoldable pub format_parts : List Text → List Text
format_parts [] = []
format_parts (part ∷ parts) = part ∷ map format_part parts

unfoldable pub format_field_value : Text → Text
format_field_value value =
    if contains value 10 then join newline (format_parts (split_on 10 value)) else value

unfoldable pub format_field : Field → Text
format_field (name, value) = name ++ (codes ": " ++ format_field_value value)

unfoldable pub format_stanza : DpkgStanza → Text
format_stanza fields = join newline (map format_field fields)

unfoldable pub format_dpkg_status : List DpkgStanza → Text
format_dpkg_status [] = []
format_dpkg_status (stanza ∷ stanzas) =
    join (codes "\n\n") (map format_stanza (stanza ∷ stanzas)) ++ newline
