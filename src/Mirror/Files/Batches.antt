-- ===== src/Mirror/Files/Batches.antt =====
-- What a batch leaves in the table when a commit raises.
use debcraft.Prelude.{
  ℕ, zero, suc, ◌+◌, ◌*◌, ◌<◌, ◌≡◌, ◌⊎◌, inl, inr, refl, Bool, true, false, ◌||◌, Bool-cases, List,
  [], ◌∷◌, take, length, ◌==◌, leb, arith,
}
use debcraft.Mirror.Files.{Files, batch_size, run_batch}

module _ {ℓ} {A : Type ℓ} (step : A → Files → Files) where
  -- The steps of the items, one after the other.
  abbrev pub apply_all : List A → Files → Files
  apply_all [] files = files
  apply_all (item ∷ items) files = apply_all items (step item files)

module _ {ℓ} {A : Type ℓ} (step : A → Files → Files) (commits : ℕ → Bool) where
  -- The commits from the number `from` on return, as many as `limit` items after the last one make.
  abbrev Return : (limit from : ℕ) → Type 0
  Return limit from = (j : ℕ) → batch_size * j < limit → commits (from + j) ≡ true

  -- What the rest of a batch leaves: everything if all its commits return; else what was committed
  -- before, or whole batches more, up to the first commit that raises.
  data Left (items : List A) (committed working : Files) (batch_count commit : ℕ) (r : Files)
      : Type ℓ where
    everything :
        r ≡ apply_all step items working
        → Return (batch_count + length items) commit
        → Left items committed working batch_count commit r
    nothing :
        r ≡ committed
        → commits commit ≡ false
        → 0 < batch_count + length items
        → Left items committed working batch_count commit r
    whole :
        (k m : ℕ)
        → k + batch_count ≡ batch_size * suc m
        → k < length items
        → r ≡ apply_all step (take k items) working
        → commits (commit + suc m) ≡ false
        → Return (batch_size * suc m) commit
        → Left items committed working batch_count commit r

  -- One commit that returns, and then those after it.
  Return-suc :
      (limit from : ℕ) (limit' : ℕ)
      → limit' ≡ limit + batch_size
      → commits from ≡ true
      → Return limit (from + 1)
      → Return limit' from
  Return-suc limit from limit' e q h zero l = let z : from + 0 ≡ from = omega arith in rw z q
  Return-suc limit from limit' e q h (suc j) l =
      let z : from + suc j ≡ from + 1 + j = omega arith in rw z (h j (omega (arith, e, l)))

  Return-eq : (limit limit' from : ℕ) → limit ≡ limit' → Return limit from → Return limit' from
  Return-eq limit limit' from e h = rw (← e) h

  after_commit :
      (item : A) (items : List A) (committed working : Files) (batch_count commit : ℕ) (r : Files)
      → batch_count + 1 ≡ batch_size
      → commits commit ≡ true
      → Left items (step item working) (step item working) 0 (commit + 1) r
      → Left (item ∷ items) committed working batch_count commit r
  after_commit item items committed working c n r f t (everything e h) =
      everything e (Return-suc _ n _ (omega (arith, f)) t h)
  after_commit item items committed working c n r f t (nothing e q l) =
      let z : 1 + c ≡ batch_size * 1 = omega (arith, f) in
      whole 1 0 z (omega (arith, l)) e q
        (Return-suc 0 n _ (omega arith) t (λ j k. absurd (omega (arith, k))))
  after_commit item items committed working c n r f t (whole k m e l q h g) =
      let z : n + suc (suc m) ≡ n + 1 + suc m = omega arith in
      whole (suc k) (suc m) (omega (arith, e, f)) (omega (arith, l)) q (rw z h)
        (Return-suc _ n _ (omega arith) t g)

  without_commit :
      (item : A) (items : List A) (committed working : Files) (batch_count commit : ℕ) (r : Files)
      → Left items committed (step item working) (batch_count + 1) commit r
      → Left (item ∷ items) committed working batch_count commit r
  without_commit item items committed working c n r (everything e h) =
      everything e (Return-eq _ _ n (omega arith) h)
  without_commit item items committed working c n r (nothing e q l) = nothing e q (omega (arith, l))
  without_commit item items committed working c n r (whole k m e l q h g) =
      whole (suc k) m (omega (arith, e)) (omega (arith, l)) q h g

  -- The commit after the last item, if there is one to make.
  last_commit :
      (batch_count commit : ℕ)
      → batch_count < batch_size
      → (batch_count == 0 || commits commit) ≡ true
      → Return (batch_count + 0) commit
  last_commit c n l h zero k = let z : n + 0 ≡ n = omega arith in rw z (ground arith)
  last_commit c n l h (suc j) k = absurd (omega (arith, l, k))

  run_batch-Left :
      (items : List A) (committed working : Files) (batch_count commit : ℕ)
      → batch_count < batch_size
      → Left items committed working batch_count commit
          (run_batch step commits items committed working batch_count commit)
  unfolding run_batch
  run_batch-Left [] committed working c n l = elim (Bool-cases (c == 0 || commits n)) [
    | inl e ↦ rw e (everything refl (last_commit c n l e))
    | inr e ↦ rw e (nothing refl (ground arith) (ground arith))
  ]
  run_batch-Left (item ∷ items) committed working c n l =
      elim (Bool-cases (leb batch_size (c + 1))) [
        | inr e ↦ simp e (
            without_commit item items committed working c n _
              (run_batch-Left items committed (step item working) (c + 1) n (ground arith)))
        | inl e ↦ elim (Bool-cases (commits n)) [
          | inr q ↦ simp (e, q) (nothing refl q (omega arith))
          | inl q ↦
              simp (e, q)
                (after_commit item items committed working c n _ (ground arith) q (
                  run_batch-Left items (step item working) (step item working) 0 (n + 1)
                    (omega arith)))
        ]
      ]

  -- What a batch leaves: if all of its commits return, the table with all of its items applied in
  -- their order; else, with `m` the number of the first commit that raises, counted from 0, the table
  -- with the first `500 * m` of them applied. The commit `j` is made if there are more than
  -- `500 * j` items.
  abbrev pub Committed : List A → Files → Files → Type 0
  Committed items files r =
      ((r ≡ apply_all step items files)
        × ((j : ℕ) → batch_size * j < length items → commits j ≡ true))
      ⊎ ((m : ℕ) × (batch_size * m < length items)
          × (commits m ≡ false)
          × ((j : ℕ) → j < m → commits j ≡ true)
          × (r ≡ apply_all step (take (batch_size * m) items) files))

  -- A batch whose commits all return changes the table by all of its items in their order; otherwise it
  -- changes the table by the first `500 * m` of them, where `m` is the number, from 0, of the first
  -- commit that raises.
  pub run_batch-Committed :
      (items : List A) (files : Files)
      → Committed items files (run_batch step commits items files files 0 0)
  run_batch-Committed items files = read_Left (run_batch-Left items files files 0 0 (omega arith))
    where
      read_Left :
          Left items files files 0 0 (run_batch step commits items files files 0 0)
          → Committed items files (run_batch step commits items files files 0 0)
      read_Left (everything e h) =
          inl (e, λ j l. let z : 0 + j ≡ j = omega arith in rw z at (h j (omega (arith, l))))
      read_Left (nothing e q l) = inr (0, omega (arith, l), q, λ j k. absurd (omega (arith, k)), e)
      read_Left (whole k m z l e q h) =
          let a : 0 + suc m ≡ suc m = omega arith in
          let b : batch_size * suc m ≡ k = omega (arith, z) in
          inr (
            suc m,
            omega (arith, z, l),
            rw a at q,
            λ j i. let y : 0 + j ≡ j = omega arith in rw y at (h j (omega (arith, i))),
            rw b e,
          )
