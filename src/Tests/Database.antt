-- ===== src/Tests/Database.antt =====
-- Runs of the model of the unit of work.
use debcraft.Prelude.{Bool, true, false, ◌≡◌, refl, none, some, List, [], ◌∷◌, ok}
use debcraft.Database.UnitOfWork.{
  UnitOfWork, database_error, Call, commit_session, Answers, run_block, access, packages,
}
use debcraft.Database.UnitOfWork.Blocks.{fresh}
use debcraft.Database.UnitOfWork.Repositories.{access-run_block}

-- A database whose commits fail.
abbrev is_commit : List Call → Bool
is_commit [] = false
is_commit (commit_session s ∷ []) = true
is_commit (c ∷ cs) = is_commit cs

abbrev full_disk : Answers
full_disk calls = elim (is_commit calls) [ true ↦ some database_error | false ↦ none ]

-- A block on session 4.
abbrev entered : UnitOfWork
entered = record fresh { session = some 4 }

access-run_block_example :
    let first = access packages entered in
    let later = run_block full_disk (ok 5) false false first.1 in
    (first.0 ≡ ok 4) × (later.1.session ≡ some 5) × (access packages later.1 ≡ (ok 4, later.1))
access-run_block_example = access-run_block full_disk packages 4 5 false false entered refl refl
