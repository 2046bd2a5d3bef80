-- ===== src/Spdx/Parser/Complete.antt =====
-- What the grammar derives is accepted by the parser, with the tree of the derivation.
use debcraft.Prelude.{
  ℕ, zero, suc, ◌+◌, ◌-◌, ◌≡◌, ◌≤◌, ◌<◌, refl, ◌∙◌, true, false, some, Bool, inl, inr, List, [],
  ◌∷◌, ◌++◌, append-nil, append_assoc, arith, length, length-append, is_empty, ◌⊎◌, ok, ◌>>=◌, ltb,
  subst, ◌↔◌, Result,
}
use debcraft.Prelude.Text.{Text}
use debcraft.Spdx.Values.{
  SpdxNode, SpdxToken, TokenType, license_id, and, or, with, rparen, license_ref, and_node, or_node,
  simple_node, with_node,
}
use debcraft.Spdx.Parser.{
  State, Parser, ParseError, max_nesting_depth, advance, next_is, same_type, close_paren,
  parse_paren, parse_atom_at, parse_atom, parse_exception, parse_with_expr, chain_loop, chain,
  parse_and_expr, parse_or_expr, parse,
}
use debcraft.Spdx.Parser.Grammar.{
  Relation, leaf_flag, Atom, leaf, paren, WithExpr, bare, exception, Tail, done, more, Chain,
  joined, AndExpr, OrExpr, Expr,
}
use debcraft.Spdx.Parser.Reading.{at}
use debcraft.Spdx.Parser.Sound.{parse-sound}

same_type_refl : (t : TokenType) → same_type t t ≡ true
same_type_refl t = ground arith

-- At depth `d` the parser `p` reads each phrase of `P` from what follows it, if that satisfies `Q`.
abbrev Accepts : Parser → Relation → (List SpdxToken → Type 0) → ℕ → Type 0
Accepts p P Q d =
    (ts rest : List SpdxToken) (n : SpdxNode) (pos : ℕ)
    → P ts n
    → Q rest
    → p (at (ts ++ rest) pos d) ≡ ok (n, at rest (pos + length ts) d)

abbrev Nonempty : Relation → Type 0
Nonempty P = (ts rest : List SpdxToken) (n : SpdxNode) → P ts n → is_empty (ts ++ rest) ≡ false

-- No operator follows.
abbrev Stops : List SpdxToken → Type 0
Stops r = ((next_is with r ≡ false) × (next_is and r ≡ false)) × (next_is or r ≡ false)

closing-Stops : (u : SpdxToken) (rest : List SpdxToken) → u.type ≡ rparen → Stops (u ∷ rest)
closing-Stops u rest e = rw e ((refl, refl), refl)

close_paren-ok :
    (n : SpdxNode) (u : SpdxToken) (rest : List SpdxToken) (pos d : ℕ)
    → u.type ≡ rparen
    → close_paren n (at (u ∷ rest) pos d) ≡ ok (n, at rest (pos + 1) d)
unfolding close_paren
close_paren-ok n u rest pos d e = rw e

module _ (Inner : Relation) (expr : Parser) (d : ℕ) (inner : Accepts expr Inner Stops (suc d))
    (fits : d < max_nesting_depth) where
  parse_paren-accepts :
      (t u : SpdxToken) (ts rest : List SpdxToken) (n : SpdxNode) (pos : ℕ)
      → Inner ts n
      → u.type ≡ rparen
      → parse_paren expr (at (t ∷ (ts ++ u ∷ rest)) pos d)
        ≡ ok (n, at rest (pos + suc (length (ts ++ u ∷ []))) d)
  unfolding parse_paren
  parse_paren-accepts t u ts rest n pos a f =
      let shallow : ltb max_nesting_depth (d + 1) ≡ false = ground arith in
      let deeper : d + 1 ≡ suc d = omega arith in
      let back : suc d - 1 ≡ d = omega arith in
      let ends : pos + 1 + length ts + 1 ≡ pos + suc (length (ts ++ u ∷ [])) =
        omega (arith, length-append ts (u ∷ [])) in
      rw (
        shallow,
        deeper,
        inner ts (u ∷ rest) n (pos + 1) a (closing-Stops u rest f),
        back,
        close_paren-ok n u rest (pos + 1 + length ts) d f,
        ends,
      )

module _ (Inner : Relation) (expr : Parser) (d : ℕ)
    (parens : (t u : SpdxToken) (ts rest : List SpdxToken) (n : SpdxNode) (pos : ℕ)
      → Inner ts n
      → u.type ≡ rparen
      → parse_paren expr (at (t ∷ (ts ++ u ∷ rest)) pos d)
        ≡ ok (n, at rest (pos + suc (length (ts ++ u ∷ []))) d)) where
  leaf-accepts :
      (k : TokenType) (value : Text) (plus : Bool) (s : State)
      → leaf_flag k ≡ some plus
      → parse_atom_at expr k value s ≡ ok (simple_node value plus, advance s)
  unfolding parse_atom_at
  leaf-accepts license_id value plus s e = ground arith
  leaf-accepts _ value plus s e = ground arith

  parse_atom-Accepts : Accepts (parse_atom expr) (Atom Inner) (λ r. Unit) d
  unfolding parse_atom
  parse_atom-Accepts ts rest n pos (leaf t plus e) q = leaf-accepts t.type t.value plus _ e
  parse_atom-Accepts ts rest n pos (paren t u {ts = us} e a f) q =
      rw (append_assoc us (u ∷ []) rest, e) (unfold parse_atom_at in parens t u us rest n pos a f)

  exception-accepts :
      (t u : SpdxToken) (rest : List SpdxToken) (n : SpdxNode) (pos : ℕ)
      → (u.type ≡ license_id) ⊎ (u.type ≡ license_ref)
      → parse_exception expr n (at (u ∷ rest) pos d) ≡ ok (with_node n u.value, at rest (pos + 1) d)
  unfolding parse_exception
  exception-accepts t u rest n pos (inl e) = rw e
  exception-accepts t u rest n pos (inr e) = rw e

  parse_with_expr-Accepts :
      Accepts (parse_with_expr expr) (WithExpr Inner) (λ r. next_is with r ≡ false) d
  unfolding parse_with_expr
  parse_with_expr-Accepts ts rest n pos (bare a) q = rw (parse_atom-Accepts ts rest n pos a tt, q)
  parse_with_expr-Accepts ts rest n pos (exception t u {ts = us} {n = m} a e f) q =
      let w : same_type t.type with ≡ true = rw e in
      let ends : pos + length us + 1 + 1 ≡ pos + length (us ++ t ∷ u ∷ []) =
        omega (arith, length-append us (t ∷ u ∷ [])) in
      rw (
        append_assoc us (t ∷ u ∷ []) rest,
        parse_atom-Accepts us (t ∷ u ∷ rest) m pos a tt,
        w,
        exception-accepts t u rest m (pos + length us + 1) f,
        ends,
      )

  Atom-Nonempty : Nonempty (Atom Inner)
  Atom-Nonempty ts rest n (leaf t plus e) = refl
  Atom-Nonempty ts rest n (paren t u e a f) = refl

  WithExpr-Nonempty : Nonempty (WithExpr Inner)
  WithExpr-Nonempty ts rest n (bare a) = Atom-Nonempty ts rest n a
  WithExpr-Nonempty ts rest n (exception t u {ts = us} a e f) =
      rw (append_assoc us (t ∷ u ∷ []) rest) (Atom-Nonempty us (t ∷ u ∷ rest) _ a)

module _ (op : TokenType) (join : SpdxNode → SpdxNode → SpdxNode) (operand : Parser) (P : Relation)
    (Q : List SpdxToken → Type 0) (d : ℕ) (part : Accepts operand P Q d) (nonempty : Nonempty P)
    (continues : (t : SpdxToken) (r : List SpdxToken) → t.type ≡ op → Q (t ∷ r)) where
  -- What follows an operand: the next operator, or the end of the phrase.
  Tail-follows :
      (l n : SpdxNode) (us rest : List SpdxToken) → Tail op join P l us n → Q rest → Q (us ++ rest)
  Tail-follows l n us rest done q = q
  Tail-follows l n us rest (more t {ts = xs} {us = ys} e a b) q =
      rw (append_assoc xs ys rest) (continues t (xs ++ (ys ++ rest)) e)

  operator_round :
      (fuel : ℕ) (l : SpdxNode) (t : SpdxToken) (us : List SpdxToken) (pos : ℕ)
      → t.type ≡ op
      → is_empty us ≡ false
      → chain_loop op join operand (suc fuel) l (at (t ∷ us) pos d)
        ≡ (operand (at us (pos + 1) d) >>= λ a. chain_loop op join operand fuel (join l a.0) a.1)
  unfolding chain_loop
  operator_round fuel l t [] pos e h = cc
  operator_round fuel l t (u ∷ us) pos e h =
      let w : same_type t.type op ≡ true = rw e (same_type_refl op) in rw w

  chain_loop-accepts :
      (fuel : ℕ) (l n : SpdxNode) (us rest : List SpdxToken) (pos : ℕ)
      → length us < fuel
      → Tail op join P l us n
      → Q rest
      → next_is op rest ≡ false
      → chain_loop op join operand fuel l (at (us ++ rest) pos d)
        ≡ ok (n, at rest (pos + length us) d)
  unfolding chain_loop
  chain_loop-accepts zero l n us rest pos h a q stop = absurd (omega arith)
  chain_loop-accepts (suc fuel) l n us rest pos h done q stop =
      let e : pos + 0 ≡ pos = omega arith in rw (stop, e)
  chain_loop-accepts (suc fuel) l n us rest pos h (more t {ts = xs} {us = ys} {r = r} e a b) q
        stop =
      let ends : pos + 1 + length xs + length ys ≡ pos + suc (length (xs ++ ys)) =
        omega (arith, length-append xs ys) in
      let enough : length ys < fuel = omega (arith, length-append xs ys) in
      rw (append_assoc xs ys rest) (
        operator_round fuel l t (xs ++ (ys ++ rest)) pos e (nonempty xs (ys ++ rest) r a)
        ∙ rw (part xs (ys ++ rest) r (pos + 1) a (Tail-follows (join l r) n ys rest b q)) (
            chain_loop-accepts fuel (join l r) n ys rest (pos + 1 + length xs) enough b q stop
            ∙ rw ends))

  chain-Accepts :
      Accepts (chain op join operand) (Chain op join P) (λ r. Q r × (next_is op r ≡ false)) d
  unfolding chain
  chain-Accepts ts rest n pos (joined {ts = xs} {us = ys} {l = l} a b) q =
      let ends : pos + length xs + length ys ≡ pos + length (xs ++ ys) =
        omega (arith, length-append xs ys) in
      let enough : length ys < suc (length (ys ++ rest)) = omega (arith, length-append ys rest) in
      rw (append_assoc xs ys rest, part xs (ys ++ rest) l pos a (Tail-follows l n ys rest b q.0))
        (chain_loop-accepts (suc (length (ys ++ rest))) l n ys rest (pos + length xs) enough b q.0
            q.1
          ∙ rw ends)

  Chain-Nonempty : Nonempty (Chain op join P)
  Chain-Nonempty ts rest n (joined {ts = xs} {us = ys} {l = l} a b) =
      rw (append_assoc xs ys rest) (nonempty xs (ys ++ rest) l a)

-- One level of the grammar, over a parser of the expressions in parentheses.
module _ (Inner : Relation) (expr : Parser) (d : ℕ)
    (parens : (t u : SpdxToken) (ts rest : List SpdxToken) (n : SpdxNode) (pos : ℕ)
      → Inner ts n
      → u.type ≡ rparen
      → parse_paren expr (at (t ∷ (ts ++ u ∷ rest)) pos d)
        ≡ ok (n, at rest (pos + suc (length (ts ++ u ∷ []))) d)) where
  parse_and_expr-Accepts :
      Accepts
        (parse_and_expr expr)
        (AndExpr Inner)
        (λ r. (next_is with r ≡ false) × (next_is and r ≡ false))
        d
  unfolding parse_and_expr
  parse_and_expr-Accepts =
      chain-Accepts and and_node (parse_with_expr expr) (WithExpr Inner) _ d
        (parse_with_expr-Accepts Inner expr d parens) (WithExpr-Nonempty Inner expr d parens)
        (λ t r e. rw e)

  or_level-Accepts : Accepts (chain or or_node (parse_and_expr expr)) (OrExpr Inner) Stops d
  or_level-Accepts =
      chain-Accepts or or_node (parse_and_expr expr) (AndExpr Inner) _ d parse_and_expr-Accepts
        (Chain-Nonempty and and_node (parse_with_expr expr) (WithExpr Inner) _ d
          (parse_with_expr-Accepts Inner expr d parens) (WithExpr-Nonempty Inner expr d parens)
          (λ t r e. rw e))
        (λ t r e. (rw e, rw e))

parse_or_expr-Accepts :
    (b f d : ℕ) → b < f → d + b ≤ max_nesting_depth → Accepts (parse_or_expr f) (Expr b) Stops d
unfolding parse_or_expr
parse_or_expr-Accepts b zero d h k = absurd (omega arith)
parse_or_expr-Accepts zero (suc f) d h k =
    or_level-Accepts (λ ts n. ⊥) (parse_or_expr f) d (λ t u ts rest n pos a e. absurd a)
parse_or_expr-Accepts (suc b) (suc f) d h k = or_level-Accepts (Expr b) (parse_or_expr f) d (
    parse_paren-accepts (Expr b) (parse_or_expr f) d
      (parse_or_expr-Accepts b f (suc d) (omega arith) (omega arith)) (omega arith))

nothing-Stops : Stops []
nothing-Stops = ((refl, refl), refl)

-- The whole text as one phrase, with nothing behind it.
whole :
    (ts : List SpdxToken) (n : SpdxNode)
    → Expr max_nesting_depth ts n
    → parse_or_expr (suc max_nesting_depth) (at ts 0 0) ≡ ok (n, at [] (length ts) 0)
whole ts n a =
    subst (λ us. parse_or_expr (suc max_nesting_depth) (at us 0 0) ≡ ok (n, at [] (length ts) 0))
      (append-nil ts)
      (parse_or_expr-Accepts max_nesting_depth (suc max_nesting_depth) 0 (omega arith) (omega arith)
          ts [] n 0 a nothing-Stops
        ∙ at_length ts n)
  where
    at_length :
        (ts : List SpdxToken) (n : SpdxNode)
        → (let r : Result ParseError (SpdxNode × State) = ok (n, at [] (0 + length ts) 0) in r)
          ≡ ok (n, at [] (length ts) 0)
    at_length ts n = let e : 0 + length ts ≡ length ts = omega arith in rw e

pub parse_complete :
    (ts : List SpdxToken) (n : SpdxNode) → Expr max_nesting_depth ts n → parse ts ≡ ok n
unfolding parse
parse_complete [] n a = absurd (no_phrase n (whole [] n a))
  where
    no_phrase :
        (n : SpdxNode) → parse_or_expr (suc max_nesting_depth) (at [] 0 0) ≡ ok (n, at [] 0 0) → ⊥
    no_phrase n h = cc
parse_complete (t ∷ ts) n a = rw (whole (t ∷ ts) n a)

-- `parse` returns a tree exactly when the documented grammar derives it from the tokens, with
-- parentheses nested at most `max_nesting_depth` deep.
pub parse_iff :
    (ts : List SpdxToken) (n : SpdxNode) → (parse ts ≡ ok n) ↔ Expr max_nesting_depth ts n
parse_iff ts n = (parse-sound ts n, parse_complete ts n)
