-- ===== src/Spdx/Parser.antt =====
-- spdx_parser.py. The parser's fields are a state that each method takes and returns: the tokens
-- that are still unread (`self._tokens[self._pos:]`), `self._pos` and `self._depth`.
pub mod Grammar
pub mod Reading
pub mod Operands
pub mod Sound
pub mod Complete
pub mod Total
use debcraft.Prelude.{
  ℕ, zero, suc, ◌+◌, ◌-◌, Bool, true, false, ◌||◌, List, [], ◌∷◌, ltb, length, if◌then◌else◌,
  Result, ok, err, ◌>>=◌,
}
use debcraft.Prelude.Text.{Text}
use debcraft.Spdx.Values.{
  SpdxNode, simple_node, with_node, and_node, or_node, SpdxToken, TokenType, license_id, or_later,
  and, or, with, lparen, rparen, document_ref, license_ref,
}

abbrev pub max_nesting_depth : ℕ
max_nesting_depth = 32

-- The messages of `SPDXParseError`, with their arguments; `out_of_fuel` is the model's own.
pub data Reason : Type 0 where
  empty_expression unexpected_token_after_expression : Reason
  missing_operand_after : TokenType → Reason
  missing_exception_after_with expected_exception_after_with unexpected_end : Reason
  excessive_nesting_depth missing_closing_paren unexpected_closing_paren : Reason
  missing_operand_before : Text → Reason
  out_of_fuel : Reason

pub record ParseError : Type 0 where
  pub reason : Reason
  pub token_position : ℕ

pub record State : Type 0 where
  pub rest : List SpdxToken
  pub pos : ℕ
  pub depth : ℕ

abbrev pub Parser : Type 0
Parser = State → Result ParseError (SpdxNode × State)

abbrev pub raise : {A : Type 0} → Reason → ℕ → Result ParseError A
raise reason position = err (record { reason = reason; token_position = position })

abbrev pub same_type : TokenType → TokenType → Bool
same_type license_id license_id = true
same_type or_later or_later = true
same_type and and = true
same_type or or = true
same_type with with = true
same_type lparen lparen = true
same_type rparen rparen = true
same_type document_ref document_ref = true
same_type license_ref license_ref = true
same_type _ _ = false

-- `self._peek() is not None and self._peek().type == t`
abbrev pub next_is : TokenType → List SpdxToken → Bool
next_is t [] = false
next_is t (token ∷ rest) = same_type token.type t

-- `self._advance()`, where a token is there.
abbrev pub advance : State → State
advance s = elim s.rest [ [] ↦ s | t ∷ rest ↦ record s { rest = rest; pos = s.pos + 1 } ]

-- `self._pos >= len(self._tokens)`
abbrev pub at_end : State → Bool
at_end s = elim s.rest [ [] ↦ true | t ∷ rest ↦ false ]

-- The end of the parenthesised case of `_parse_atom`, after the inner expression.
unfoldable pub close_paren : SpdxNode → State → Result ParseError (SpdxNode × State)
close_paren node s =
    if next_is rparen s.rest
    then ok (node, advance s)
    else raise missing_closing_paren (if at_end s then s.pos - 1 else s.pos)

-- `_parse_atom`, with `_parse_or_expr` as the argument `expr`.
module _ (expr : Parser) where
  unfoldable pub parse_paren : Parser
  unfolding close_paren
  parse_paren s0 =
      let s1 = advance s0 in
      let s2 = record s1 { depth = s1.depth + 1 } in
      if ltb max_nesting_depth s2.depth
      then raise excessive_nesting_depth (s2.pos - 1)
      else (do (node, s3) ← expr s2; close_paren node (record s3 { depth = s3.depth - 1 }))

  unfoldable pub parse_atom_at : TokenType → Text → Parser
  unfolding parse_paren
  parse_atom_at lparen value s = parse_paren s
  parse_atom_at license_id value s = ok (simple_node value false, advance s)
  parse_atom_at or_later value s = ok (simple_node value true, advance s)
  parse_atom_at license_ref value s = ok (simple_node value false, advance s)
  parse_atom_at document_ref value s = ok (simple_node value false, advance s)
  parse_atom_at rparen value s = raise unexpected_closing_paren s.pos
  parse_atom_at and value s = raise (missing_operand_before value) s.pos
  parse_atom_at or value s = raise (missing_operand_before value) s.pos
  parse_atom_at with value s = raise (missing_operand_before value) s.pos

  unfoldable pub parse_atom : Parser
  unfolding parse_atom_at
  parse_atom s = elim s.rest [
    | [] ↦ raise unexpected_end s.pos
    | token ∷ rest ↦ parse_atom_at token.type token.value s
  ]

  -- `_parse_with_expr`, after `WITH` was consumed.
  unfoldable pub parse_exception : SpdxNode → Parser
  parse_exception node s = elim s.rest [
    | [] ↦ raise missing_exception_after_with (s.pos - 1)
    | token ∷ rest ↦
        if same_type token.type license_id || same_type token.type license_ref
        then ok (with_node node token.value, advance s)
        else raise expected_exception_after_with s.pos
  ]

  unfoldable pub parse_with_expr : Parser
  unfolding parse_atom parse_exception
  parse_with_expr s = do
    (node, s1) ← parse_atom s
    if next_is with s1.rest then parse_exception node (advance s1) else ok (node, s1)

-- The loop that `_parse_or_expr` and `_parse_and_expr` share: operands, joined to the left while the
-- next token is the operator `op`. Each round consumes the operator, so the unread tokens bound the
-- rounds.
module _ (op : TokenType) (join : SpdxNode → SpdxNode → SpdxNode) (operand : Parser) where
  unfoldable pub chain_loop : ℕ → SpdxNode → Parser
  chain_loop zero left s = raise out_of_fuel s.pos
  chain_loop (suc fuel) left s =
      if next_is op s.rest
      then (let s1 = advance s in
          if at_end s1
          then raise (missing_operand_after op) (s1.pos - 1)
          else (do (right, s2) ← operand s1; chain_loop fuel (join left right) s2))
      else ok (left, s)

  unfoldable pub chain : Parser
  unfolding chain_loop
  chain s = do (left, s1) ← operand s; chain_loop (suc (length s1.rest)) left s1

unfoldable pub parse_and_expr : Parser → Parser
unfolding chain parse_with_expr
parse_and_expr expr = chain and and_node (parse_with_expr expr)

-- The fuel bounds the nesting of calls: `_parse_atom` raises before the nesting passes
-- `max_nesting_depth`.
unfoldable pub parse_or_expr : ℕ → Parser
unfolding chain parse_and_expr
parse_or_expr zero s = raise out_of_fuel s.pos
parse_or_expr (suc fuel) s = chain or or_node (parse_and_expr (parse_or_expr fuel)) s

-- The end of `parse`: nothing may follow the expression.
unfoldable pub parse_end : SpdxNode → State → Result ParseError SpdxNode
parse_end node s = if at_end s then ok node else raise unexpected_token_after_expression s.pos

unfoldable pub parse : List SpdxToken → Result ParseError SpdxNode
unfolding parse_or_expr parse_end
parse [] = raise empty_expression 0
parse (t ∷ ts) = do
  (result, s) ← parse_or_expr (suc max_nesting_depth) (record { rest = t ∷ ts; pos = 0; depth = 0 })
  parse_end result s
