-- ===== src/Spdx/Parser/Reading.antt =====
-- Reading tokens: what a method of src/debcraft/domain/package_intelligence/spdx_parser.py has read
-- when it returns.
use debcraft.Prelude.{
  ℕ, ◌+◌, ◌≡◌, true, Result, subst, List, [], ◌∷◌, ◌++◌, append_assoc, arith, length, length-append,
  ok,
}
use debcraft.Spdx.Values.{SpdxNode, SpdxToken, TokenType, license_id, rparen}
use debcraft.Spdx.Parser.{State, Parser, ParseError, same_type, close_paren}
use debcraft.Spdx.Parser.Grammar.{Relation}

-- What a parser has read between two states.
pub record Reads (P : Relation) (s : State) (n : SpdxNode) (s' : State) : Type 0 where
  pub read : List SpdxToken
  pub split : s.rest ≡ read ++ s'.rest
  pub derived : P read n
  pub pos : s'.pos ≡ s.pos + length read
  pub depth : s'.depth ≡ s.depth

abbrev pub IsSound : Relation → Parser → Type 0
IsSound P p = (s : State) (n : SpdxNode) (s' : State) → p s ≡ ok (n, s') → Reads P s n s'

pub same_type→eq : (t u : TokenType) → same_type t u ≡ true → t ≡ u
same_type→eq license_id u h = ground arith
same_type→eq _ u h = ground arith

same_type→eq-refl : (t : TokenType) → same_type t t ≡ true
same_type→eq-refl t = ground arith

-- The closing parenthesis that `close_paren` has read.
pub record Closes (node : SpdxNode) (s : State) (n : SpdxNode) (s' : State) : Type 0 where
  pub closing : SpdxToken
  pub split : s.rest ≡ closing ∷ s'.rest
  pub type : closing.type ≡ rparen
  pub same : n ≡ node
  pub pos : s'.pos ≡ s.pos + 1
  pub depth : s'.depth ≡ s.depth

pub close_paren-Closes :
    (node : SpdxNode) (rest : List SpdxToken) (pos depth : ℕ) (n : SpdxNode) (s' : State)
    → close_paren node (record { rest = rest; pos = pos; depth = depth }) ≡ ok (n, s')
    → Closes node (record { rest = rest; pos = pos; depth = depth }) n s'
unfolding close_paren
close_paren-Closes node [] pos depth n s' h = cc
close_paren-Closes node (u ∷ rest) pos depth n s' h = record {
  closing = u;
  split = ground arith;
  type = ground (arith, same_type→eq u.type rparen);
  same = ground arith;
  pos = ground arith;
  depth = ground arith;
}

-- A state with its unread tokens written out, as the lemmas take it.
abbrev pub at : List SpdxToken → ℕ → ℕ → State
at rest pos depth = record { rest = rest; pos = pos; depth = depth }

-- A parser that returns what is known.
pub returns :
    (P : Relation) {s : State} {n m : SpdxNode} {s' s'' : State}
    → Reads P s n s'
    → (let r : Result ParseError (SpdxNode × State) = ok (n, s') in r) ≡ ok (m, s'')
    → Reads P s m s''
returns P {s} {n} {m} {s'} {s''} r h =
    let e : n ≡ m = cc in
    let e' : s' ≡ s'' = cc in subst (λ a. Reads P s m a) e' (subst (λ a. Reads P s a s') e r)

-- Two parsers in a row.
pub sequence :
    (P Q R : Relation) {s s1 s2 : State} {l n : SpdxNode}
    → ((ts us : List SpdxToken) → P ts l → Q us n → R (ts ++ us) n)
    → Reads P s l s1
    → Reads Q s1 n s2
    → Reads R s n s2
sequence P Q R {s} {s1} {s2} join a b = record {
  read = a.read ++ b.read;
  split = cc (a.split, b.split, append_assoc a.read b.read s2.rest);
  derived = join a.read b.read a.derived b.derived;
  pos = omega (arith, a.pos, b.pos, length-append a.read b.read);
  depth = cc (a.depth, b.depth);
}
