-- ===== src/Mirror/Sync.antt =====
-- Which files a synchronization downloads: src/debcraft/domain/mirror/comparator.py and
-- `deduplicate_entries` of src/debcraft/infrastructure/mirror/_checksums.py.
pub mod Unique
use debcraft.Prelude.{
  ℕ, Bool, true, false, Option, none, some, List, [], ◌∷◌, ◌++◌, if◌then◌else◌, Eq, contains,
}
use debcraft.Prelude.Text.{Text, codes, list_text_eq}
use debcraft.Prelude.Dict.{Dict, get}

pub record FileEntry : Type 0 where
  pub relative_path : Text
  pub sha256 : Text
  pub size_bytes : ℕ

pub data Action : Type 0 where
  download skip verify : Action

-- The three texts that the comparator gives as a reason.
pub data Reason : Type 0 where
  not_cached checksum_matches checksum_differs : Reason

pub record SyncDecision : Type 0 where
  pub file_entry : FileEntry
  pub action : Action
  pub reason : Reason

-- The body of the loop.
unfoldable pub decide_entry : FileEntry → Option Text → SyncDecision
decide_entry entry none = record {
  file_entry = entry;
  action = Action.download;
  reason = Reason.not_cached;
}
decide_entry entry (some local_sha256) =
    if list_text_eq.same local_sha256 entry.sha256
    then record { file_entry = entry; action = Action.skip; reason = Reason.checksum_matches }
    else record { file_entry = entry; action = Action.download; reason = Reason.checksum_differs }

unfoldable pub compute_sync_decisions : List FileEntry → Dict Text Text → List SyncDecision
compute_sync_decisions [] local_checksums = []
compute_sync_decisions (entry ∷ entries) local_checksums =
    decide_entry entry (get local_checksums entry.relative_path)
    ∷ compute_sync_decisions entries local_checksums

unfoldable pub index_path : Text → Text → Text
index_path component architecture =
    component ++ (codes "/binary-" ++ (architecture ++ codes "/Packages.gz"))

-- `product(components, architectures)`: the architectures of the first component first.
unfoldable pub index_paths_of : Text → List Text → List Text
index_paths_of component [] = []
index_paths_of component (architecture ∷ architectures) =
    index_path component architecture ∷ index_paths_of component architectures

unfoldable pub generate_index_paths : List Text → List Text → List Text
generate_index_paths [] architectures = []
generate_index_paths (component ∷ components) architectures =
    index_paths_of component architectures ++ generate_index_paths components architectures

-- The loop of `deduplicate_entries`, with the paths seen so far.
unfoldable pub unique_entries : List Text → List FileEntry → List FileEntry
unique_entries seen_paths [] = []
unique_entries seen_paths (entry ∷ entries) =
    let seen = contains seen_paths entry.relative_path in
    let rest =
      unique_entries (if seen then seen_paths else entry.relative_path ∷ seen_paths) entries in
    if seen then rest else entry ∷ rest

unfoldable pub deduplicate_entries : List FileEntry → List FileEntry
deduplicate_entries entries = unique_entries [] entries
