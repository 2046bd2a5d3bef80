-- ===== src/Spdx/Parser/Sound.antt =====
-- What the parser accepts is derived by the grammar, and it reads just the tokens derived.
use debcraft.Prelude.{
  ℕ, zero, suc, ◌+◌, ◌≡◌, refl, sym, ◌∙◌, Result, subst, Bool-cases, inl, inr, List, [], ◌∷◌, ◌++◌,
  append-nil, append_assoc, arith, length, length-append, ok, ◌>>=◌, >>=-eq-ok,
}
use debcraft.Spdx.Values.{SpdxNode, SpdxToken, TokenType, and, or, and_node, or_node}
use debcraft.Spdx.Parser.{
  State, Parser, ParseError, max_nesting_depth, same_type, parse_with_expr, chain_loop, chain,
  parse_and_expr, parse_or_expr, parse_end, parse,
}
use debcraft.Spdx.Parser.Grammar.{
  Relation, WithExpr, Tail, done, more, Chain, joined, AndExpr, Expr,
}
use debcraft.Spdx.Parser.Operands.{parse_with_expr-IsSound}
use debcraft.Spdx.Parser.Reading.{Reads, IsSound, same_type→eq, at, returns, sequence}

module _ (op : TokenType) (join : SpdxNode → SpdxNode → SpdxNode) (Operand : Relation)
    (operand : Parser) (part : IsSound Operand operand) where
  abbrev LoopSound : ℕ → Type 0
  LoopSound fuel =
      (left : SpdxNode) (rest : List SpdxToken) (pos depth : ℕ) (n : SpdxNode) (s' : State)
      → chain_loop op join operand fuel left (at rest pos depth) ≡ ok (n, s')
      → Reads (Tail op join Operand left) (at rest pos depth) n s'

  -- One round reads the operator, an operand and what the later rounds read.
  round-Reads :
      (left r : SpdxNode) (t : SpdxToken) (us : List SpdxToken) (pos depth : ℕ) (s2 : State)
      (n : SpdxNode) (s' : State)
      → t.type ≡ op
      → Reads Operand (at us (pos + 1) depth) r s2
      → Reads (Tail op join Operand (join left r)) s2 n s'
      → Reads (Tail op join Operand left) (at (t ∷ us) pos depth) n s'
  round-Reads left r t us pos depth s2 n s' e a b = record {
    read = t ∷ (a.read ++ b.read);
    split = cc (a.split, b.split, append_assoc a.read b.read s'.rest);
    derived = more t e a.derived b.derived;
    pos = omega (arith, a.pos, b.pos, length-append a.read b.read);
    depth = cc (a.depth, b.depth);
  }

  stop-Reads :
      (left : SpdxNode) (s : State) (n : SpdxNode) (s' : State)
      → (let r : Result ParseError (SpdxNode × State) = ok (left, s) in r) ≡ ok (n, s')
      → Reads (Tail op join Operand left) s n s'
  stop-Reads left s n s' h =
      returns _
        (record { read = []; split = refl; derived = done; pos = omega arith; depth = refl }) h

  round :
      (fuel : ℕ)
      → LoopSound fuel
      → (left : SpdxNode) (t : SpdxToken) (us : List SpdxToken) (pos depth : ℕ) (n : SpdxNode)
        (s' : State)
      → t.type ≡ op
      → (operand (at us (pos + 1) depth) >>= λ a.
          chain_loop op join operand fuel (join left a.0) a.1)
        ≡ ok (n, s')
      → Reads (Tail op join Operand left) (at (t ∷ us) pos depth) n s'
  round fuel ih left t us pos depth n s' e h =
      opened (>>=-eq-ok (operand (at us (pos + 1) depth)) _ h)
    where
      opened :
          (a : SpdxNode × State) × (operand (at us (pos + 1) depth) ≡ ok a)
            × (chain_loop op join operand fuel (join left a.0) a.1 ≡ ok (n, s'))
          → Reads (Tail op join Operand left) (at (t ∷ us) pos depth) n s'
      opened ((r, s2), e1, e2) =
          round-Reads left r t us pos depth s2 n s' e (part _ r s2 e1)
            (ih (join left r) s2.rest s2.pos s2.depth n s' e2)

  chain-LoopSound : (fuel : ℕ) → LoopSound fuel
  unfolding chain_loop
  chain-LoopSound zero left rest pos depth n s' h = cc
  chain-LoopSound (suc fuel) left [] pos depth n s' h = stop-Reads left _ n s' h
  chain-LoopSound (suc fuel) left (t ∷ []) pos depth n s' h =
      elim (Bool-cases (same_type t.type op)) [
        | inl e ↦ absurd (ground arith)
        | inr e ↦ stop-Reads left _ n s' (rw e at h)
      ]
  chain-LoopSound (suc fuel) left (t ∷ u ∷ us) pos depth n s' h =
      elim (Bool-cases (same_type t.type op)) [
        | inl e ↦
            round fuel (chain-LoopSound fuel) left t (u ∷ us) pos depth n s'
              (same_type→eq t.type op e) (rw e at h)
        | inr e ↦ stop-Reads left _ n s' (rw e at h)
      ]

  pub chain-IsSound : IsSound (Chain op join Operand) (chain op join operand)
  unfolding chain
  chain-IsSound s n s' h = opened (>>=-eq-ok (operand s) _ h)
    where
      opened :
          (a : SpdxNode × State) × (operand s ≡ ok a)
            × (chain_loop op join operand (suc (length (a.1).rest)) a.0 a.1 ≡ ok (n, s'))
          → Reads (Chain op join Operand) s n s'
      opened ((l, s1), e1, e2) =
          sequence Operand (Tail op join Operand l) (Chain op join Operand)
            (λ ts us a b. joined a b) (part s l s1 e1)
            (chain-LoopSound (suc (length s1.rest)) l s1.rest s1.pos s1.depth n s' e2)

-- What the expressions in parentheses may be, at the fuel of their parser.
abbrev pub InParens : ℕ → Relation
InParens zero = λ ts n. ⊥
InParens (suc fuel) = Expr fuel

-- The two lower levels, given the level of the parentheses.
pub with_level-IsSound :
    (fuel : ℕ)
    → IsSound (InParens fuel) (parse_or_expr fuel)
    → IsSound (WithExpr (InParens fuel)) (parse_with_expr (parse_or_expr fuel))
with_level-IsSound fuel = parse_with_expr-IsSound (InParens fuel) (parse_or_expr fuel)

pub and_level-IsSound :
    (fuel : ℕ)
    → IsSound (InParens fuel) (parse_or_expr fuel)
    → IsSound (AndExpr (InParens fuel)) (parse_and_expr (parse_or_expr fuel))
unfolding parse_and_expr
and_level-IsSound fuel h = chain-IsSound and and_node _ _ (with_level-IsSound fuel h)

pub parse_or_expr-IsSound : (fuel : ℕ) → IsSound (InParens fuel) (parse_or_expr fuel)
unfolding parse_or_expr
parse_or_expr-IsSound zero = λ s n s' h. cc
parse_or_expr-IsSound (suc zero) =
    chain-IsSound or or_node _ _ (and_level-IsSound zero (parse_or_expr-IsSound zero))
parse_or_expr-IsSound (suc (suc fuel)) =
    chain-IsSound or or_node _ _ (and_level-IsSound (suc fuel) (parse_or_expr-IsSound (suc fuel)))

end_sound :
    (ts : List SpdxToken) (n m : SpdxNode) (rest : List SpdxToken) (pos depth : ℕ)
    → Reads (Expr max_nesting_depth) (at ts 0 0) n (at rest pos depth)
    → parse_end n (at rest pos depth) ≡ ok m
    → Expr max_nesting_depth ts m
unfolding parse_end
end_sound ts n m [] pos depth r h =
    let e : n ≡ m = cc in
    let e' : r.read ≡ ts = sym (r.split ∙ append-nil r.read) in
    subst (λ x. Expr max_nesting_depth ts x) e
      (subst (λ x. Expr max_nesting_depth x n) e' r.derived)
end_sound ts n m (t ∷ rest) pos depth r h = cc

-- Whatever tokens `parse` accepts are derived by the documented grammar, with the very tree that it
-- returns, and with parentheses nested at most `max_nesting_depth` deep.
pub parse-sound :
    (ts : List SpdxToken) (n : SpdxNode) → parse ts ≡ ok n → Expr max_nesting_depth ts n
unfolding parse
parse-sound [] n h = cc
parse-sound (t ∷ ts) n h =
    opened (>>=-eq-ok (parse_or_expr (suc max_nesting_depth) (at (t ∷ ts) 0 0)) _ h)
  where
    opened :
        (a : SpdxNode × State) × (parse_or_expr (suc max_nesting_depth) (at (t ∷ ts) 0 0) ≡ ok a)
          × (parse_end a.0 a.1 ≡ ok n)
        → Expr max_nesting_depth (t ∷ ts) n
    opened ((m, s), e1, e2) =
        end_sound (t ∷ ts) m n s.rest s.pos s.depth
          (parse_or_expr-IsSound (suc max_nesting_depth) (at (t ∷ ts) 0 0) m s e1) e2
