-- ===== src/Mirror/Files.antt =====
-- src/debcraft/infrastructure/mirror/_persistence.py and the queries of _checksums.py: the table of
-- repository files, by URL. The surrogate keys and timestamps are left out. What commits a transaction
-- is SQLAlchemy's affair: `commits` says which commits of a session
-- return; its queries do.
pub mod Batches
use debcraft.Prelude.{
  ℕ, ◌+◌, Bool, true, false, ◌||◌, Option, none, some, List, [], ◌∷◌, ◌++◌, map, if◌then◌else◌,
  ◌==◌, leb,
}
use debcraft.Prelude.Text.{Text, codes, list_text_eq}
use debcraft.Prelude.Dict.{Dict, get, put}
use debcraft.Mirror.Sync.{FileEntry}

pub data RepositoryFileState : Type 0 where
  discovered queued downloading downloaded verified indexed failed : RepositoryFileState

pub record RepositoryFile : Type 0 where
  pub sha256 : Text
  pub size_bytes : ℕ
  pub state : RepositoryFileState
  pub retry_count : ℕ
  pub local_path : Option Text
  pub etag : Option Text
  pub last_modified : Option Text

abbrev pub Files : Type 0
Files = Dict Text RepositoryFile

abbrev pub new_file : Text → ℕ → RepositoryFileState → RepositoryFile
new_file sha256 size_bytes state = record {
  sha256 = sha256;
  size_bytes = size_bytes;
  state = state;
  retry_count = 0;
  local_path = none;
  etag = none;
  last_modified = none;
}

-- `if value is not None: existing.field = value`
abbrev pub or_else : Option Text → Option Text → Option Text
or_else none old = old
or_else (some value) old = some value

-- The file with its new checksum, size and state, from the one that the table has.
unfoldable pub updated_file :
    Option RepositoryFile → Text → ℕ → RepositoryFileState → RepositoryFile
updated_file none sha256 size_bytes state = new_file sha256 size_bytes state
updated_file (some f) sha256 size_bytes state = record f {
  sha256 = sha256;
  size_bytes = size_bytes;
  state = state;
}

-- `upsert_repository_file`, with whether its commit returns.
unfoldable pub upsert_repository_file :
    Bool
    → Text
    → (sha256 : Text) (size_bytes : ℕ) (state : RepositoryFileState)
      (local_path etag last_modified : Option Text)
    → Files
    → Files
upsert_repository_file false url sha256 size_bytes state local_path etag last_modified files = files
upsert_repository_file true url sha256 size_bytes state local_path etag last_modified files =
    let f = updated_file (get files url) sha256 size_bytes state in
    put files url (record f {
      local_path = or_else local_path f.local_path;
      etag = or_else etag f.etag;
      last_modified = or_else last_modified f.last_modified;
    })

abbrev pub batch_size : ℕ
batch_size = 500

abbrev pub max_retries : ℕ
max_retries = 3

-- The loop of the three batch functions: `working` is what the session sees, `committed` what the table
-- keeps when a commit raises. The commits of the session are counted from 0.
module _ {ℓ} {A : Type ℓ} (step : A → Files → Files) (commits : ℕ → Bool) where
  unfoldable pub run_batch : List A → (committed working : Files) (batch_count commit : ℕ) → Files
  run_batch [] committed working batch_count commit =
      if batch_count == 0 || commits commit then working else committed
  run_batch (item ∷ items) committed working batch_count commit =
      let full = leb batch_size (batch_count + 1) in
      let next = step item working in
      let rest =
        run_batch items (if full then next else committed) next
          (if full then 0 else batch_count + 1) (if full then commit + 1 else commit) in
      if full then (if commits commit then rest else committed) else rest

abbrev pub entry_url : Text → FileEntry → Text
entry_url base_url entry = base_url ++ b'/' ∷ entry.relative_path

unfoldable pub put_entry : Text → RepositoryFileState → FileEntry → Files → Files
put_entry base_url state entry files =
    let url = entry_url base_url entry in
    put files url (updated_file (get files url) entry.sha256 entry.size_bytes state)

unfoldable pub batch_create_repository_files :
    (ℕ → Bool) → Text → RepositoryFileState → List FileEntry → Files → Files
batch_create_repository_files commits base_url state entries files =
    run_batch (put_entry base_url state) commits entries files files 0 0

-- A change of the file of a URL, if the table has one.
unfoldable pub change_row :
    (RepositoryFile → RepositoryFile) → Text → Option RepositoryFile → Files → Files
change_row change url none files = files
change_row change url (some f) files = put files url (change f)

unfoldable pub update_state : RepositoryFileState → Text × Text → Files → Files
update_state state (url, local_path) files =
    change_row (λ f. record f { state = state; local_path = some local_path }) url (get files url)
      files

unfoldable pub batch_update_state :
    (ℕ → Bool) → RepositoryFileState → List (Text × Text) → Files → Files
batch_update_state commits state succeeded files =
    run_batch (update_state state) commits succeeded files files 0 0

abbrev pub retried : RepositoryFile → RepositoryFile
retried f = record f {
  retry_count = f.retry_count + 1;
  state = if leb max_retries (f.retry_count + 1) then failed else queued;
}

unfoldable pub mark_failed : Text → Files → Files
mark_failed url files = change_row retried url (get files url) files

unfoldable pub batch_mark_failed : (ℕ → Bool) → List Text → Files → Files
batch_mark_failed commits failed_urls files =
    run_batch mark_failed commits failed_urls files files 0 0

-- `_resume_interrupted_downloads`, with whether its commit returns.
abbrev pub requeued_from : RepositoryFileState → RepositoryFile → RepositoryFile
requeued_from downloading f = record f { state = queued }
requeued_from state f = f

abbrev pub requeued : RepositoryFile → RepositoryFile
requeued f = requeued_from f.state f

unfoldable pub resume_interrupted_downloads : Bool → Files → Files
resume_interrupted_downloads false files = files
resume_interrupted_downloads true files = map (λ (url, f). (url, requeued f)) files

abbrev pub is_verified : RepositoryFileState → Bool
is_verified verified = true
is_verified state = false

abbrev pub is_present : RepositoryFileState → Bool
is_present verified = true
is_present indexed = true
is_present state = false

-- One key of the checksums: its file's, if the file is in one of the states.
unfoldable pub add_checksum :
    (RepositoryFileState → Bool) → Text → Option RepositoryFile → Dict Text Text → Dict Text Text
add_checksum accepts path none checksums = checksums
add_checksum accepts path (some f) checksums =
    if accepts f.state then put checksums path f.sha256 else checksums

unfoldable pub get_local_checksums :
    Files → (base_url suite : Text) → List Text → Dict Text Text → Dict Text Text
get_local_checksums files base_url suite [] checksums = checksums
get_local_checksums files base_url suite (path ∷ paths) checksums =
    let url = base_url ++ codes "/dists/" ++ suite ++ b'/' ∷ path in
    get_local_checksums files base_url suite paths
      (add_checksum is_verified path (get files url) checksums)

unfoldable pub get_artifact_checksums :
    Files → Text → List FileEntry → Dict Text Text → Dict Text Text
get_artifact_checksums files base_url [] checksums = checksums
get_artifact_checksums files base_url (entry ∷ entries) checksums =
    get_artifact_checksums files base_url entries
      (add_checksum is_present entry.relative_path (get files (entry_url base_url entry)) checksums)
