-- ===== src/Tests/Dpkg.antt =====
-- Runs of the models of the dpkg status file.
use debcraft.Prelude.{arith, ◌≡◌, refl, inl, none, some, [], ◌∷◌, All}
use debcraft.Prelude.Text.{codes}
use debcraft.Prelude.Lines.{split_on, join}
use debcraft.Prelude.Strip.{is_space, lstrip, rstrip, strip, all_space, partition, lower}
use debcraft.Dpkg.{
  DpkgStanza, IdentifiedPackage, get_field, words_loop, split_words, identified, classify_state,
  classify_status, classify_installed, classify_named, classify_package, parse_dpkg_status,
  format_part, format_parts, format_field_value, format_field, format_stanza, format_dpkg_status,
}
use debcraft.Dpkg.Printed.{IsPrintable}
use debcraft.Dpkg.RoundTrip.{parse-format_dpkg_status}
use debcraft.Dpkg.Filter.{Status, IsReported, classify_package-IsReported, classify_package-reports}

abbrev bash_stanza : DpkgStanza
bash_stanza =
    (codes "Package", codes "bash")
    ∷ (codes "Version", codes "5.2")
    ∷ (codes "Status", codes "install ok installed")
    ∷ (codes "Description", codes "shell\nof GNU\n.")
    ∷ []

bash_text :
    format_dpkg_status (bash_stanza ∷ [])
    ≡ codes
        "Package: bash\nVersion: 5.2\nStatus: install ok installed\nDescription: shell\n of GNU\n .\n"
unfolding format_dpkg_status format_stanza format_field format_field_value format_parts format_part
    split_on join
bash_text = refl

printable : All IsPrintable bash_stanza
unfolding split_on all_space partition is_space
printable = (
  record { one_line = omega arith; no_colon = refl; no_blank_start = refl; no_blank_line = tt },
  (
    record { one_line = omega arith; no_colon = refl; no_blank_start = refl; no_blank_line = tt },
    (
      record { one_line = omega arith; no_colon = refl; no_blank_start = refl; no_blank_line = tt },
      (
        record {
          one_line = omega arith;
          no_colon = refl;
          no_blank_start = refl;
          no_blank_line = (refl, (refl, tt));
        },
        tt,
      ),
    ),
  ),
)

parse-format_example :
    (parse_dpkg_status (format_dpkg_status (bash_stanza ∷ []))).stanzas ≡ bash_stanza ∷ []
parse-format_example = parse-format_dpkg_status (bash_stanza ∷ []) (printable, tt)

abbrev bash_package : IdentifiedPackage
bash_package = record {
  name = codes "bash";
  version = codes "5.2";
  architecture = [];
  status = codes "installed";
}

classified : (classify_package bash_stanza 0).0 ≡ some bash_package
unfolding classify_package classify_named classify_installed classify_status classify_state
    identified get_field lower split_words words_loop strip lstrip rstrip is_space
classified = refl

classify_package-IsReported_example :
    IsReported bash_stanza bash_package × ((classify_package bash_stanza 0).1 ≡ none)
classify_package-IsReported_example =
    classify_package-IsReported bash_stanza 0 bash_package classified

found :
    (get_field bash_stanza (codes "Package") ≡ some (codes "bash"))
    × (get_field bash_stanza (codes "Version") ≡ some (codes "5.2"))
    × (get_field bash_stanza (codes "Status") ≡ some (codes "install ok installed"))
unfolding get_field lower
found = (refl, refl, refl)

Status-words : Status (codes "install ok installed") (codes "install") (codes "installed")
unfolding split_words words_loop strip lstrip rstrip is_space
Status-words = (codes "ok", [], refl)

classify_package-reports_example :
    classify_package bash_stanza 0
    ≡ (some (identified bash_stanza (codes "bash") (codes "5.2") (codes "installed")), none)
classify_package-reports_example =
    classify_package-reports bash_stanza 0 (codes "bash") (codes "5.2")
      (codes "install ok installed") (codes "install") (codes "installed") found.0 found.1 found.2
      Status-words (inl refl) (inl refl)
