-- ===== src/Spdx/Parser/Total.antt =====
-- The parser's fuel always suffices: it ends with a tree or with one of the source's errors.
use debcraft.Prelude.{
  ℕ, zero, suc, ◌+◌, ◌-◌, ◌≡◌, ◌≢◌, ◌≤◌, ◌<◌, refl, ap, Bool-cases, inl, inr, List, [], ◌∷◌, arith,
  length, length-append, Result, ok, err, ◌>>=◌, ◌||◌, if◌then◌else◌, ltb,
}
use debcraft.Spdx.Values.{
  SpdxNode, SpdxToken, TokenType, license_id, or_later, and, or, with, lparen, rparen, document_ref,
  license_ref, and_node, or_node,
}
use debcraft.Spdx.Parser.{
  State, Parser, ParseError, out_of_fuel, max_nesting_depth, advance, next_is, same_type,
  close_paren, parse_paren, parse_atom_at, parse_atom, parse_exception, parse_with_expr, chain_loop,
  chain, parse_and_expr, parse_or_expr, parse_end, parse,
}
use debcraft.Spdx.Parser.Reading.{at, IsSound, Reads}
use debcraft.Spdx.Parser.Sound.{with_level-IsSound, and_level-IsSound, parse_or_expr-IsSound}
use debcraft.Spdx.Parser.Grammar.{Relation}

-- The result is no error of the fuel.
abbrev pub Settles : {A : Type 0} → Result ParseError A → Type 0
Settles (ok a) = Unit
Settles (err e) = e.reason ≢ out_of_fuel

Settles-bind :
    {A B : Type 0} (m : Result ParseError A) (f : A → Result ParseError B)
    → Settles m
    → ((a : A) → m ≡ ok a → Settles (f a))
    → Settles (m >>= f)
Settles-bind (ok a) f h k = k a refl
Settles-bind (err e) f h k = h

-- `p` settles at depth `d`.
abbrev IsTotal : Parser → ℕ → Type 0
IsTotal p d = (rest : List SpdxToken) (pos : ℕ) → Settles (p (at rest pos d))

close_paren-Settles :
    (n : SpdxNode) (rest : List SpdxToken) (pos d : ℕ) → Settles (close_paren n (at rest pos d))
unfolding close_paren
close_paren-Settles n [] pos d = λ e. cc
close_paren-Settles n (t ∷ rest) pos d = elim (Bool-cases (same_type t.type rparen)) [
  | inl e ↦ rw e tt
  | inr e ↦ rw e (λ h. cc)
]

module _ (expr : Parser) (d : ℕ) (inner : d < max_nesting_depth → IsTotal expr (suc d)) where
  parse_paren-total :
      (t : SpdxToken) (rest : List SpdxToken) (pos : ℕ)
      → Settles (parse_paren expr (at (t ∷ rest) pos d))
  unfolding parse_paren
  parse_paren-total t rest pos = elim (Bool-cases (ltb max_nesting_depth (d + 1))) [
    | inl deep ↦ rw deep (λ h. cc)
    | inr fits ↦
        let next : d + 1 ≡ suc d = omega arith in
        rw (fits, next)
          (Settles-bind _ _ (inner (ground arith) rest (pos + 1))
            (λ a e. close_paren-Settles a.0 (a.1).rest (a.1).pos ((a.1).depth - 1)))
  ]

  parse_atom_at-total :
      (t : SpdxToken) (rest : List SpdxToken) (pos : ℕ) (k : TokenType)
      → Settles (parse_atom_at expr k t.value (at (t ∷ rest) pos d))
  unfolding parse_atom_at
  parse_atom_at-total t rest pos lparen = parse_paren-total t rest pos
  parse_atom_at-total t rest pos license_id = tt
  parse_atom_at-total t rest pos or_later = tt
  parse_atom_at-total t rest pos license_ref = tt
  parse_atom_at-total t rest pos document_ref = tt
  parse_atom_at-total t rest pos _ = λ h. cc

  parse_atom-IsTotal : IsTotal (parse_atom expr) d
  unfolding parse_atom
  parse_atom-IsTotal [] pos = λ h. cc
  parse_atom-IsTotal (t ∷ rest) pos = parse_atom_at-total t rest pos t.type

  parse_exception-total :
      (n : SpdxNode) (rest : List SpdxToken) (pos depth : ℕ)
      → Settles (parse_exception expr n (at rest pos depth))
  unfolding parse_exception
  parse_exception-total n [] pos depth = λ h. cc
  parse_exception-total n (t ∷ rest) pos depth =
      elim (Bool-cases (same_type t.type license_id || same_type t.type license_ref)) [
        | inl e ↦ rw e tt
        | inr e ↦ rw e (λ h. cc)
      ]

  after_atom-total :
      (n : SpdxNode) (rest : List SpdxToken) (pos depth : ℕ)
      → Settles (
          if next_is with rest
          then parse_exception expr n (advance (at rest pos depth))
          else ok (n, at rest pos depth))
  after_atom-total n [] pos depth = tt
  after_atom-total n (t ∷ rest) pos depth = elim (Bool-cases (same_type t.type with)) [
    | inl e ↦ rw e (parse_exception-total n rest (pos + 1) depth)
    | inr e ↦ rw e tt
  ]

  parse_with_expr-IsTotal : IsTotal (parse_with_expr expr) d
  unfolding parse_with_expr
  parse_with_expr-IsTotal rest pos =
      Settles-bind _ _ (parse_atom-IsTotal rest pos)
        (λ a e. after_atom-total a.0 (a.1).rest (a.1).pos (a.1).depth)

-- The rounds of a chain read the operator at least, so the unread tokens bound them.
module _ (op : TokenType) (join : SpdxNode → SpdxNode → SpdxNode) (operand : Parser) (P : Relation)
    (d : ℕ) (sound : IsSound P operand) (part : IsTotal operand d) where
  shorter : (s s' : State) (n : SpdxNode) → Reads P s n s' → length s'.rest ≤ length s.rest
  shorter s s' n r = rw r.split (omega (arith, length-append r.read s'.rest))

  chain_loop-total :
      (fuel : ℕ) (left : SpdxNode) (rest : List SpdxToken) (pos : ℕ)
      → length rest < fuel
      → Settles (chain_loop op join operand fuel left (at rest pos d))
  unfolding chain_loop
  chain_loop-total zero left rest pos h = absurd (omega arith)
  chain_loop-total (suc fuel) left [] pos h = tt
  chain_loop-total (suc fuel) left (t ∷ []) pos h = elim (Bool-cases (same_type t.type op)) [
    | inl e ↦ rw e (λ h. cc)
    | inr e ↦ rw e tt
  ]
  chain_loop-total (suc fuel) left (t ∷ u ∷ us) pos h = elim (Bool-cases (same_type t.type op)) [
    | inl e ↦ rw e (Settles-bind _ _ (part (u ∷ us) (pos + 1)) (later (chain_loop-total fuel)))
    | inr e ↦ rw e tt
  ]
    where
      later :
          ((l : SpdxNode) (r : List SpdxToken) (p : ℕ)
            → length r < fuel
            → Settles (chain_loop op join operand fuel l (at r p d)))
          → (a : SpdxNode × State) → operand (at (u ∷ us) (pos + 1) d) ≡ ok a
          → Settles (chain_loop op join operand fuel (join left a.0) a.1)
      later ih (n, s) e =
          let r = sound (at (u ∷ us) (pos + 1) d) n s e in
          let same : s ≡ at s.rest s.pos d = ap (λ k. at s.rest s.pos k) r.depth in
          rw same
            (ih (join left n) s.rest s.pos (omega (arith, shorter (at (u ∷ us) (pos + 1) d) s n r)))

  chain-IsTotal : IsTotal (chain op join operand) d
  unfolding chain
  chain-IsTotal rest pos = Settles-bind _ _ (part rest pos) first
    where
      first :
          (a : SpdxNode × State)
          → operand (at rest pos d) ≡ ok a
          → Settles (chain_loop op join operand (suc (length (a.1).rest)) a.0 a.1)
      first (n, s) e =
          let r = sound (at rest pos d) n s e in
          let same : s ≡ at s.rest s.pos d = ap (λ k. at s.rest s.pos k) r.depth in
          rw same (chain_loop-total (suc (length s.rest)) n s.rest s.pos (omega arith))

parse_or_expr-IsTotal :
    (fuel d : ℕ) → d + fuel ≡ max_nesting_depth → IsTotal (parse_or_expr (suc fuel)) d
unfolding parse_or_expr parse_and_expr
parse_or_expr-IsTotal zero d h =
    chain-IsTotal or or_node (parse_and_expr (parse_or_expr zero)) _ d
      (and_level-IsSound zero (parse_or_expr-IsSound zero))
      (chain-IsTotal and and_node (parse_with_expr (parse_or_expr zero)) _ d
        (with_level-IsSound zero (parse_or_expr-IsSound zero))
        (parse_with_expr-IsTotal (parse_or_expr zero) d (λ k. absurd (omega arith))))
parse_or_expr-IsTotal (suc fuel) d h =
    chain-IsTotal or or_node (parse_and_expr (parse_or_expr (suc fuel))) _ d
      (and_level-IsSound (suc fuel) (parse_or_expr-IsSound (suc fuel)))
      (chain-IsTotal and and_node (parse_with_expr (parse_or_expr (suc fuel))) _ d
        (with_level-IsSound (suc fuel) (parse_or_expr-IsSound (suc fuel)))
        (parse_with_expr-IsTotal (parse_or_expr (suc fuel)) d
          (λ k. parse_or_expr-IsTotal fuel (suc d) (omega arith))))

parse_end-Settles :
    (n : SpdxNode) (rest : List SpdxToken) (pos d : ℕ) → Settles (parse_end n (at rest pos d))
unfolding parse_end
parse_end-Settles n [] pos d = tt
parse_end-Settles n (t ∷ rest) pos d = λ h. cc

-- `parse` terminates on every token sequence: the nesting limit of the source bounds its recursion,
-- so it ends with a tree or with an error of the source, and never for want of fuel.
pub parse-total : (ts : List SpdxToken) → Settles (parse ts)
unfolding parse
parse-total [] = λ h. cc
parse-total (t ∷ ts) =
    Settles-bind _ _ (parse_or_expr-IsTotal max_nesting_depth 0 (omega arith) (t ∷ ts) 0)
      (λ a e. parse_end-Settles a.0 (a.1).rest (a.1).pos (a.1).depth)
