-- ===== src/Tests/Purl.antt =====
-- Runs of the model of package URLs.
use debcraft.Prelude.{◌≡◌, refl, arith, none, some, ok, false}
use debcraft.Prelude.Text.{Text, codes}
use debcraft.Prelude.Lines.{Lacks}
use debcraft.Prelude.Strip.{is_blank, strip, lstrip, rstrip, is_space, lower}
use debcraft.Purl.{
  percent_encode, replace_each, replace, generate_purl, required, namespace_of, format_purl,
}
use debcraft.Purl.Encoding.{escape_all, percent_encode-escape_all}
use debcraft.Purl.RoundTrip.{read_purl, read-generate_purl, Generated, generate_purl_lem}

an_epoch :
    generate_purl (some (codes "g++")) (some (codes "1:2.0")) (some (codes "amd64")) none
    ≡ ok (codes "pkg:deb/debian/g%2B%2B@1%3A2.0?arch=amd64")
unfolding generate_purl required is_blank strip lstrip rstrip is_space format_purl namespace_of
    percent_encode replace_each replace
an_epoch = refl

percent_encode-escape_all_example : percent_encode (codes "1:2+b") ≡ escape_all (codes "1:2+b")
percent_encode-escape_all_example = percent_encode-escape_all (codes "1:2+b")

not_blank :
    (is_blank (codes "g++") ≡ false)
    × (is_blank (codes "1:2.0") ≡ false)
    × (is_blank (codes "amd64") ≡ false)
unfolding is_blank strip lstrip rstrip is_space
not_blank = (refl, refl, refl)

no_slash : Lacks b'/' (namespace_of (some (codes "Ubuntu")))
unfolding namespace_of is_blank strip lstrip rstrip is_space lower
no_slash = ground arith

read-generate_purl_example :
    (purl : Text) × (generate_purl
        (some (codes "g++"))
        (some (codes "1:2.0"))
        (some (codes "amd64"))
        (some (codes "Ubuntu"))
      ≡ ok purl)
    × (read_purl purl
        ≡ some (namespace_of (some (codes "Ubuntu")), codes "g++", codes "1:2.0", codes "amd64"))
read-generate_purl_example =
    read-generate_purl (codes "g++") (codes "1:2.0") (codes "amd64") (some (codes "Ubuntu"))
      not_blank.0 not_blank.1 not_blank.2 (ground arith) (ground arith) no_slash

generate_purl_lem_example : Generated (some (codes "g++")) none (some (codes " ")) none
generate_purl_lem_example = generate_purl_lem (some (codes "g++")) none (some (codes " ")) none
