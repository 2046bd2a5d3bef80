-- ===== src/Spdx/Values.antt =====
-- values.py: the nodes of the syntax tree and the tokens.
use debcraft.Prelude.{ℕ, Bool}
use debcraft.Prelude.Text.{Text}

pub data SpdxNode : Type 0 where
  simple_node : (identifier : Text) → (or_later : Bool) → SpdxNode
  with_node : (license : SpdxNode) → (exception : Text) → SpdxNode
  and_node or_node : (left : SpdxNode) → (right : SpdxNode) → SpdxNode

-- The members of `SPDXTokenType`.
pub data TokenType : Type 0 where
  license_id or_later and or with lparen rparen document_ref license_ref : TokenType

pub record SpdxToken : Type 0 where
  pub type : TokenType
  pub value : Text
  pub offset : ℕ
