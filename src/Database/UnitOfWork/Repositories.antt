-- ===== src/Database/UnitOfWork/Repositories.antt =====
-- The sessions that the repositories of a unit of work keep.
use debcraft.Prelude.{ℕ, Bool, true, false, ◌≡◌, refl, ◌∙◌, ap, Option, none, some, arith, ok}
use debcraft.Database.UnitOfWork.{
  packages, source_packages, repository_files, snapshots, licenses, scan_sessions, sbom_documents,
  UnitOfWork, Call, Raised, Repository, Outcome, Answers, call, commit, finish, exit, enter,
  run_block, repository, access, make_repository, same_repository, except_database_error, continue,
  replaced, database_error, foreign_error, not_entered, commit_cancelled, commit_failed, body_error,
  begin, rollback_session, close,
}

same_repository_refl : (r : Repository) → same_repository r r ≡ true
same_repository_refl packages = refl
same_repository_refl source_packages = refl
same_repository_refl repository_files = refl
same_repository_refl snapshots = refl
same_repository_refl licenses = refl
same_repository_refl scan_sessions = refl
same_repository_refl sbom_documents = refl

-- The first reading of a repository makes it on the unit's session, and keeps it.
access-first :
    (r : Repository) (s : ℕ) (u : UnitOfWork)
    → u.session ≡ some s
    → u.repositories r ≡ none
    → ((access r u).0 ≡ ok s) × ((access r u).1.repositories r ≡ some s)
unfolding repository make_repository
access-first r s u h k = rw (k, h) (refl, ground (arith, same_repository_refl r))

module _ (answers : Answers) where
  -- A step that leaves the session and the repositories as they are.
  abbrev Keeps : UnitOfWork → Outcome → Type 0
  Keeps u r = ((r.1).session ≡ u.session) × ((r.1).repositories ≡ u.repositories)

  call-Keeps : (c : Call) (u : UnitOfWork) → Keeps u (call answers c u)
  unfolding call
  call-Keeps c u = (refl, refl)

  continue-Keeps :
      (r : Outcome) (k : UnitOfWork → Outcome) (u : UnitOfWork)
      → Keeps u r
      → ((v : UnitOfWork) → Keeps v (k v))
      → Keeps u (continue r k)
  continue-Keeps (none, v) k u h g = ((g v).0 ∙ h.0, (g v).1 ∙ h.1)
  continue-Keeps (some e, v) k u h g = h

  except-Keeps :
      (r : Outcome) (k : UnitOfWork → Outcome) (u : UnitOfWork)
      → Keeps u r
      → ((v : UnitOfWork) → Keeps v (k v))
      → Keeps u (except_database_error r k)
  except-Keeps (none, v) k u h g = h
  except-Keeps (some database_error, v) k u h g = ((g v).0 ∙ h.0, (g v).1 ∙ h.1)
  except-Keeps (some foreign_error, v) k u h g = h
  except-Keeps (some not_entered, v) k u h g = h
  except-Keeps (some commit_cancelled, v) k u h g = h
  except-Keeps (some commit_failed, v) k u h g = h
  except-Keeps (some body_error, v) k u h g = h

  replaced-Keeps :
      (e : Option Raised) (r : Outcome) (u : UnitOfWork) → Keeps u r → Keeps u (replaced e r)
  replaced-Keeps e (none, v) u h = h
  replaced-Keeps e (some x, v) u h = h

  commit-Keeps :
      (is_cancelled : Bool) (s : ℕ) (u : UnitOfWork)
      → Keeps u (commit answers is_cancelled (some s) u)
  unfolding commit
  commit-Keeps true s u =
      continue-Keeps (call answers (rollback_session s) u) _ u (call-Keeps _ u) (λ v. (refl, refl))
  commit-Keeps false s u = call-Keeps _ u

  finish-Keeps :
      (is_cancelled raised : Bool) (s : ℕ) (u : UnitOfWork)
      → Keeps u (finish answers is_cancelled raised s u)
  unfolding finish
  finish-Keeps is_cancelled true s u = call-Keeps _ u
  finish-Keeps is_cancelled false s u =
      except-Keeps (commit answers is_cancelled (some s) u) _ u (commit-Keeps is_cancelled s u)
        (λ v.
          continue-Keeps (call answers (rollback_session s) v) _ v (call-Keeps _ v)
            (λ w. (refl, refl)))

  exit-Keeps :
      (is_cancelled raised : Bool) (s : Option ℕ) (u : UnitOfWork)
      → Keeps u (exit answers is_cancelled raised s u)
  unfolding exit
  exit-Keeps is_cancelled raised none u = (refl, refl)
  exit-Keeps is_cancelled raised (some s) u =
      let f = finish answers is_cancelled raised s u in
      let h = finish-Keeps is_cancelled raised s u in
      let c = call-Keeps (close s) f.1 in
      replaced-Keeps f.0 (call answers (close s) f.1) u (c.0 ∙ h.0, c.1 ∙ h.1)

  run_block-Keeps :
      (t : ℕ) (is_cancelled raised : Bool) (u : UnitOfWork)
      → Keeps (record u { session = some t }) (run_block answers (ok t) is_cancelled raised u)
  unfolding run_block enter
  run_block-Keeps t is_cancelled raised u =
      continue-Keeps (call answers (begin t) (record u { session = some t })) _
        (record u { session = some t }) (call-Keeps _ _)
        (λ v.
          continue-Keeps (exit answers is_cancelled raised v.session v) _ v
            (exit-Keeps is_cancelled raised v.session v) (λ w. (refl, refl)))

  -- A repository that is first read in the block on the session `s` works on `s`; after a later block
  -- on a session `t`, contrary to what the properties' docs say, it still works on `s`.
  pub access-run_block :
      (r : Repository) (s t : ℕ) (is_cancelled raised : Bool) (u : UnitOfWork)
      → u.session ≡ some s
      → u.repositories r ≡ none
      → let first = access r u in
        let later = run_block answers (ok t) is_cancelled raised first.1 in
        (first.0 ≡ ok s) × (later.1.session ≡ some t) × (access r later.1 ≡ (ok s, later.1))
  unfolding repository
  access-run_block r s t is_cancelled raised u h n =
      let first = access-first r s u h n in
      let k = run_block-Keeps t is_cancelled raised (access r u).1 in
      let kept : (run_block answers (ok t) is_cancelled raised (access r u).1).1.repositories r
          ≡ some s =
        ap (λ f. f r) k.1 ∙ first.1 in
      (first.0, k.0, rw kept refl)
