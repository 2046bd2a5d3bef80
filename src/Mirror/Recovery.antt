-- ===== src/Mirror/Recovery.antt =====
-- How interrupted downloads are recovered: `_rollback_cancellation_state` of
-- src/debcraft/infrastructure/mirror/workflow.py and `_recover_interrupted_downloads` of
-- src/debcraft/infrastructure/storage/engine.py, on the table of files. The flag says whether the
-- transaction is committed.
use debcraft.Prelude.{
  ◌+◌, ◌≡◌, refl, ap, Bool, true, false, Bool-cases, inl, inr, Option, none, some, [], ◌∷◌, map,
  if◌then◌else◌, ltb,
}
use debcraft.Prelude.Text.{Text, list_text_eq}
use debcraft.Prelude.Dict.{get}
use debcraft.Mirror.Files.{
  Files, RepositoryFile, RepositoryFileState, discovered, queued, downloading, downloaded, verified,
  indexed, failed, max_retries, requeued,
}

-- An update of every row.
abbrev update_rows : (RepositoryFile → RepositoryFile) → Files → Files
update_rows change files = map (λ (url, f). (url, change f)) files

abbrev released_from : RepositoryFileState → RepositoryFile → RepositoryFile
released_from queued f = record f { state = discovered }
released_from state f = f

abbrev released : RepositoryFile → RepositoryFile
released f = released_from f.state f

-- QUEUED to DISCOVERED first, then DOWNLOADING to QUEUED.
unfoldable rollback_cancellation_state : Bool → Files → Files
rollback_cancellation_state false files = files
rollback_cancellation_state true files = update_rows requeued (update_rows released files)

-- One entry of the files in the state DOWNLOADING.
abbrev recovered_from : RepositoryFileState → RepositoryFile → RepositoryFile
recovered_from downloading f =
    if ltb f.retry_count max_retries
    then record f { state = queued; retry_count = f.retry_count + 1 }
    else record f { state = failed }
recovered_from state f = f

abbrev recovered : RepositoryFile → RepositoryFile
recovered f = recovered_from f.state f

unfoldable recover_interrupted_downloads : Bool → Files → Files
recover_interrupted_downloads false files = files
recover_interrupted_downloads true files = update_rows recovered files

-- The change of a row that may be there.
abbrev change_option :
    (RepositoryFile → RepositoryFile) → Option RepositoryFile → Option RepositoryFile
change_option change none = none
change_option change (some f) = some (change f)

get-update_rows :
    (change : RepositoryFile → RepositoryFile) (files : Files) (url : Text)
    → get (update_rows change files) url ≡ change_option change (get files url)
unfolding get
get-update_rows change [] url = refl
get-update_rows change ((u, f) ∷ files) url = elim (Bool-cases (list_text_eq.same u url)) [
  | inl e ↦ simp e refl
  | inr e ↦ simp e (get-update_rows change files url)
]

-- The state of a file after a committed rollback, by its state before.
abbrev rolled_back : RepositoryFileState → RepositoryFileState
rolled_back queued = discovered
rolled_back downloading = queued
rolled_back discovered = discovered
rolled_back downloaded = downloaded
rolled_back verified = verified
rolled_back indexed = indexed
rolled_back failed = failed

abbrev roll_back : Option RepositoryFileState → Option RepositoryFileState
roll_back none = none
roll_back (some s) = some (rolled_back s)

abbrev state_of : Option RepositoryFile → Option RepositoryFileState
state_of none = none
state_of (some f) = some f.state

released-queued :
    (s : RepositoryFileState) (f : RepositoryFile)
    → f.state ≡ s
    → (requeued (released_from s f)).state ≡ rolled_back s
released-queued discovered f q = rw q refl
released-queued queued f q = refl
released-queued downloading f q = rw q refl
released-queued downloaded f q = rw q refl
released-queued verified f q = rw q refl
released-queued indexed f q = rw q refl
released-queued failed f q = rw q refl

state_of-rolled_back :
    (o : Option RepositoryFile)
    → state_of (change_option requeued (change_option released o)) ≡ roll_back (state_of o)
state_of-rolled_back none = refl
state_of-rolled_back (some f) = ap some (released-queued f.state f refl)

-- A file that was downloading is queued afterwards, not discovered, and one that was queued is
-- discovered.
rollback-state :
    (files : Files) (url : Text)
    → state_of (get (rollback_cancellation_state true files) url)
      ≡ roll_back (state_of (get files url))
unfolding rollback_cancellation_state
rollback-state files url =
    rw
      (
        get-update_rows requeued (update_rows released files) url,
        get-update_rows released files url,
      )
      (state_of-rolled_back (get files url))
