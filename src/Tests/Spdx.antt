-- ===== src/Tests/Spdx.antt =====
-- Runs of the SPDX expression models.
use debcraft.Prelude.{◌≡◌, refl, ◌↔◌, List, [], ◌∷◌, true, false, ok, err}
use debcraft.Prelude.Text.{Text, codes}
use debcraft.Spdx.Values.{
  SpdxNode, simple_node, with_node, and_node, SpdxToken, license_id, or_later, and, with,
}
use debcraft.Spdx.Chars.{
  is_ident_char, fold_case, is_ref_char, span, match_literal, match_name, match_then,
  match_license_ref, match_document_ref,
}
use debcraft.Spdx.Tokenizer.{
  invalid_character, upper, word_type, consume_plus, consume_identifier, scan_word, scan,
  tokenize_loop, tokenize,
}
use debcraft.Spdx.Tokenizer.Slices.{Tokenizes, tokenize-slices}
use debcraft.Spdx.Parser.{
  max_nesting_depth, parse, parse_or_expr, parse_and_expr, chain, chain_loop, parse_with_expr,
  parse_exception, parse_atom, parse_atom_at, parse_paren, close_paren, parse_end,
}
use debcraft.Spdx.Parser.Grammar.{Expr}
use debcraft.Spdx.Parser.Complete.{parse_iff}
use debcraft.Spdx.Parser.Total.{Settles, parse-total}
use debcraft.Spdx.Printer.{print}

abbrev expression : Text
expression = codes "GPL-2.0+ and MIT WITH Foo"

abbrev tokens : List SpdxToken
tokens =
    record { type = or_later; value = codes "GPL-2.0"; offset = 0 }
    ∷ record { type = and; value = codes "and"; offset = 9 }
    ∷ record { type = license_id; value = codes "MIT"; offset = 13 }
    ∷ record { type = with; value = codes "WITH"; offset = 17 }
    ∷ record { type = license_id; value = codes "Foo"; offset = 22 }
    ∷ []

abbrev tree : SpdxNode
tree =
    and_node (simple_node (codes "GPL-2.0") true)
      (with_node (simple_node (codes "MIT") false) (codes "Foo"))

tokenized : tokenize expression ≡ ok tokens
unfolding tokenize tokenize_loop scan scan_word match_document_ref match_license_ref match_then
    match_literal match_name fold_case is_ref_char span is_ident_char consume_identifier
    consume_plus word_type upper
tokenized = refl

bad_character : tokenize (codes "MIT & X") ≡ err (invalid_character b'&' 4)
unfolding tokenize tokenize_loop scan scan_word match_document_ref match_license_ref match_then
    match_literal match_name fold_case is_ref_char span is_ident_char consume_identifier
    consume_plus word_type upper
bad_character = refl

parsed : parse tokens ≡ ok tree
unfolding parse parse_or_expr parse_and_expr chain chain_loop parse_with_expr parse_exception
    parse_atom parse_atom_at parse_paren close_paren parse_end
parsed = refl

printed : print tree ≡ codes "GPL-2.0+ AND MIT WITH Foo"
unfolding print
printed = refl

derived : Expr max_nesting_depth tokens tree
derived = (parse_iff tokens tree).0 parsed

tokenize-slices_example : Tokenizes expression 0 (tokenize expression)
tokenize-slices_example = tokenize-slices expression

parse_iff_example : (parse tokens ≡ ok tree) ↔ Expr max_nesting_depth tokens tree
parse_iff_example = parse_iff tokens tree

parse-total_example : Settles (parse tokens)
parse-total_example = parse-total tokens
