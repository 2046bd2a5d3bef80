-- ===== src/Spdx/Parser/Operands.antt =====
-- The atoms and the exceptions of src/debcraft/domain/package_intelligence/spdx_parser.py are
-- derived by the grammar.
use debcraft.Prelude.{
  ℕ, ◌+◌, ◌-◌, ◌≡◌, if◌then◌else◌, refl, true, false, some, ◌⊎◌, Bool, Bool-cases, inl, inr, List,
  [], ◌∷◌, ◌++◌, append_assoc, arith, length-append, ok, >>=-eq-ok, ltb,
}
use debcraft.Spdx.Values.{
  SpdxNode, SpdxToken, TokenType, license_id, or_later, with, lparen, document_ref, license_ref,
  simple_node, with_node,
}
use debcraft.Spdx.Parser.{
  State, Parser, max_nesting_depth, advance, next_is, same_type, close_paren, parse_paren,
  parse_atom_at, parse_atom, parse_exception, parse_with_expr,
}
use debcraft.Spdx.Parser.Grammar.{Relation, leaf_flag, Atom, leaf, paren, WithExpr, bare, exception}
use debcraft.Spdx.Parser.Reading.{
  Reads, IsSound, same_type→eq, Closes, close_paren-Closes, at, returns, sequence,
}

module _ (Inner : Relation) (expr : Parser) (inner : IsSound Inner expr) where
  paren-Reads :
      (t : SpdxToken) (ts : List SpdxToken) (pos depth : ℕ)
      → t.type ≡ lparen
      → (m : SpdxNode) (s3 : State) (n : SpdxNode) (s' : State)
      → Reads Inner (record { rest = ts; pos = pos + 1; depth = depth + 1 }) m s3
      → Closes m (record s3 { depth = s3.depth - 1 }) n s'
      → Reads (Atom Inner) (record { rest = t ∷ ts; pos = pos; depth = depth }) n s'
  paren-Reads t ts pos depth e m s3 n s' r c = record {
    read = t ∷ (r.read ++ c.closing ∷ []);
    split = cc (r.split, c.split, append_assoc r.read (c.closing ∷ []) s'.rest);
    derived = rw c.same (paren t c.closing e r.derived c.type);
    pos = omega (arith, r.pos, c.pos, length-append r.read (c.closing ∷ []));
    depth = omega (arith, r.depth, c.depth);
  }

  parse_paren_sound :
      (t : SpdxToken) (ts : List SpdxToken) (pos depth : ℕ)
      → t.type ≡ lparen
      → (n : SpdxNode) (s' : State)
      → parse_paren expr (record { rest = t ∷ ts; pos = pos; depth = depth }) ≡ ok (n, s')
      → Reads (Atom Inner) (record { rest = t ∷ ts; pos = pos; depth = depth }) n s'
  unfolding parse_paren
  parse_paren_sound t ts pos depth e n s' h =
      elim (Bool-cases (ltb max_nesting_depth (depth + 1))) [
        | inl deep ↦ ground arith
        | inr fits ↦ opened (
            >>=-eq-ok (expr (record { rest = ts; pos = pos + 1; depth = depth + 1 })) _
              (rw fits at h))
      ]
    where
      opened :
          (a : SpdxNode × State) × (expr (record { rest = ts; pos = pos + 1; depth = depth + 1 })
              ≡ ok a)
            × (close_paren a.0 (record (a.1) { depth = (a.1).depth - 1 }) ≡ ok (n, s'))
          → Reads (Atom Inner) (record { rest = t ∷ ts; pos = pos; depth = depth }) n s'
      opened ((m, s3), e1, e2) =
          paren-Reads t ts pos depth e m s3 n s' (inner _ m s3 e1)
            (close_paren-Closes m s3.rest s3.pos (s3.depth - 1) n s' e2)

  leaf-Reads :
      (t : SpdxToken) (ts : List SpdxToken) (pos depth : ℕ) (plus : Bool)
      → leaf_flag t.type ≡ some plus
      → Reads
          (Atom Inner)
          (record { rest = t ∷ ts; pos = pos; depth = depth })
          (simple_node t.value plus)
          (record { rest = ts; pos = pos + 1; depth = depth })
  leaf-Reads t ts pos depth plus e = record {
    read = t ∷ [];
    split = refl;
    derived = leaf t plus e;
    pos = omega arith;
    depth = refl;
  }

  parse_atom_at_sound :
      (t : SpdxToken) (ts : List SpdxToken) (pos depth : ℕ) (k : TokenType)
      → t.type ≡ k
      → (n : SpdxNode) (s' : State)
      → parse_atom_at expr k t.value (at (t ∷ ts) pos depth) ≡ ok (n, s')
      → Reads (Atom Inner) (at (t ∷ ts) pos depth) n s'
  unfolding parse_atom_at
  parse_atom_at_sound t ts pos depth lparen e n s' h = parse_paren_sound t ts pos depth e n s' h
  parse_atom_at_sound t ts pos depth license_id e n s' h =
      returns _ (leaf-Reads t ts pos depth false (rw e)) h
  parse_atom_at_sound t ts pos depth or_later e n s' h =
      returns _ (leaf-Reads t ts pos depth true (rw e)) h
  parse_atom_at_sound t ts pos depth license_ref e n s' h =
      returns _ (leaf-Reads t ts pos depth false (rw e)) h
  parse_atom_at_sound t ts pos depth document_ref e n s' h =
      returns _ (leaf-Reads t ts pos depth false (rw e)) h
  parse_atom_at_sound t ts pos depth _ e n s' h = cc

  parse_atom_on :
      (rest : List SpdxToken) (pos depth : ℕ) (n : SpdxNode) (s' : State)
      → parse_atom expr (at rest pos depth) ≡ ok (n, s')
      → Reads (Atom Inner) (at rest pos depth) n s'
  unfolding parse_atom
  parse_atom_on [] pos depth n s' h = cc
  parse_atom_on (t ∷ ts) pos depth n s' h = parse_atom_at_sound t ts pos depth t.type refl n s' h

  parse_atom-IsSound : IsSound (Atom Inner) (parse_atom expr)
  parse_atom-IsSound s n s' h = parse_atom_on s.rest s.pos s.depth n s' h

  -- `WITH` and its exception, after the atom.
  exception-Reads :
      (node : SpdxNode) (t : SpdxToken) (us : List SpdxToken) (pos depth : ℕ)
      → t.type ≡ with
      → (n : SpdxNode) (s' : State) → parse_exception expr node (at us (pos + 1) depth) ≡ ok (n, s')
      → Reads
          (λ ts m.
            (u : SpdxToken) × (ts ≡ t ∷ u ∷ [])
            × (m ≡ with_node node u.value)
            × ((u.type ≡ license_id) ⊎ (u.type ≡ license_ref)))
          (at (t ∷ us) pos depth)
          n
          s'
  unfolding parse_exception
  exception-Reads node t [] pos depth e n s' h = cc
  exception-Reads node t (u ∷ us) pos depth e n s' h = record {
    read = t ∷ u ∷ [];
    split = ground arith;
    derived = (
      u,
      refl,
      ground arith,
      ground (arith, same_type→eq u.type license_id, same_type→eq u.type license_ref),
    );
    pos = ground arith;
    depth = ground arith;
  }

  join_exception :
      (node n : SpdxNode) (t : SpdxToken) (ts us : List SpdxToken)
      → t.type ≡ with
      → Atom Inner ts node
      → (u : SpdxToken) × (us ≡ t ∷ u ∷ [])
        × (n ≡ with_node node u.value)
        × ((u.type ≡ license_id) ⊎ (u.type ≡ license_ref))
      → WithExpr Inner (ts ++ us) n
  join_exception node n t ts us e a (u, eu, en, k) = rw (eu, en) (exception t u a e k)

  after-Atom :
      (s : State) (node : SpdxNode) (rest : List SpdxToken) (pos depth : ℕ) (n : SpdxNode)
      (s' : State)
      → Reads (Atom Inner) s node (at rest pos depth)
      → (if next_is with rest
          then parse_exception expr node (advance (at rest pos depth))
          else ok (node, at rest pos depth))
        ≡ ok (n, s')
      → Reads (WithExpr Inner) s n s'
  after-Atom s node [] pos depth n s' r h =
      returns _
        (record {
          read = r.read;
          split = r.split;
          derived = bare r.derived;
          pos = r.pos;
          depth = r.depth;
        })
        h
  after-Atom s node (t ∷ us) pos depth n s' r h = elim (Bool-cases (same_type t.type with)) [
    | inl e ↦
        sequence (Atom Inner) _ (WithExpr Inner)
          (λ ts vs a x. join_exception node n t ts vs (same_type→eq t.type with e) a x) r
          (exception-Reads node t us pos depth (same_type→eq t.type with e) n s' (rw e at h))
    | inr e ↦
        returns _
          (record {
            read = r.read;
            split = r.split;
            derived = bare r.derived;
            pos = r.pos;
            depth = r.depth;
          })
          (rw e at h)
  ]

  pub parse_with_expr-IsSound : IsSound (WithExpr Inner) (parse_with_expr expr)
  unfolding parse_with_expr
  parse_with_expr-IsSound s n s' h = opened (>>=-eq-ok (parse_atom expr s) _ h)
    where
      opened :
          (a : SpdxNode × State) × (parse_atom expr s ≡ ok a)
            × ((if next_is with (a.1).rest
                  then parse_exception expr a.0 (advance a.1)
                  else ok (a.0, a.1))
                ≡ ok (n, s'))
          → Reads (WithExpr Inner) s n s'
      opened ((m, s1), e1, e2) =
          after-Atom s m s1.rest s1.pos s1.depth n s' (parse_atom-IsSound s m s1 e1) e2
