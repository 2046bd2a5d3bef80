-- ===== src/Spdx/Parser/Grammar.antt =====
-- The grammar in the docstring of spdx_parser.py, as relations between tokens and syntax trees:
--   expr      → and_expr ("OR" and_expr)*
--   and_expr  → with_expr ("AND" with_expr)*
--   with_expr → atom ("WITH" exception_id)?
--   atom      → "(" expr ")" | license_id | license_ref | document_ref | or_later
-- `Expr d` allows parentheses to nest `d` deep. Repetitions join to the left.
use debcraft.Prelude.{
  ℕ, zero, suc, ◌≡◌, ◌⊎◌, Bool, true, false, Option, none, some, List, [], ◌∷◌, ◌++◌,
}
use debcraft.Spdx.Values.{
  SpdxNode, simple_node, with_node, and_node, or_node, SpdxToken, TokenType, license_id, or_later,
  and, or, with, lparen, rparen, document_ref, license_ref,
}

abbrev pub Relation : Type 1
Relation = List SpdxToken → SpdxNode → Type 0

-- The tokens that are an atom by themselves, and whether they carry a `+`.
abbrev pub leaf_flag : TokenType → Option Bool
leaf_flag license_id = some false
leaf_flag license_ref = some false
leaf_flag document_ref = some false
leaf_flag or_later = some true
leaf_flag _ = none

pub data Atom (Inner : Relation) : List SpdxToken → SpdxNode → Type 0 where
  leaf :
      (t : SpdxToken) (plus : Bool)
      → leaf_flag t.type ≡ some plus
      → Atom Inner (t ∷ []) (simple_node t.value plus)
  paren :
      (t u : SpdxToken) {ts : List SpdxToken} {n : SpdxNode}
      → t.type ≡ lparen
      → Inner ts n
      → u.type ≡ rparen
      → Atom Inner (t ∷ (ts ++ u ∷ [])) n

pub data WithExpr (Inner : Relation) : List SpdxToken → SpdxNode → Type 0 where
  bare : {ts : List SpdxToken} {n : SpdxNode} → Atom Inner ts n → WithExpr Inner ts n
  exception :
      (t u : SpdxToken) {ts : List SpdxToken} {n : SpdxNode}
      → Atom Inner ts n
      → t.type ≡ with
      → (u.type ≡ license_id) ⊎ (u.type ≡ license_ref)
      → WithExpr Inner (ts ++ t ∷ u ∷ []) (with_node n u.value)

module _ (op : TokenType) (join : SpdxNode → SpdxNode → SpdxNode) (Operand : Relation) where
  pub data Tail : SpdxNode → List SpdxToken → SpdxNode → Type 0 where
    done : {l : SpdxNode} → Tail l [] l
    more :
        (t : SpdxToken) {ts us : List SpdxToken} {l r n : SpdxNode}
        → t.type ≡ op
        → Operand ts r
        → Tail (join l r) us n
        → Tail l (t ∷ (ts ++ us)) n

  pub data Chain : List SpdxToken → SpdxNode → Type 0 where
    joined :
        {ts us : List SpdxToken} {l n : SpdxNode} → Operand ts l → Tail l us n → Chain (ts ++ us) n

abbrev pub AndExpr : Relation → Relation
AndExpr Inner = Chain and and_node (WithExpr Inner)

abbrev pub OrExpr : Relation → Relation
OrExpr Inner = Chain or or_node (AndExpr Inner)

abbrev pub Expr : ℕ → Relation
Expr zero = OrExpr (λ ts n. ⊥)
Expr (suc d) = OrExpr (Expr d)
