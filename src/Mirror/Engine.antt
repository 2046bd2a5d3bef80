-- ===== src/Mirror/Engine.antt =====
-- src/debcraft/infrastructure/mirror/engine.py: the artifacts of a suite and the outcome of a
-- synchronization. The mirror's root directory, which the URL and the storage give, is an argument, and
-- so is what the batch of downloads returns or raises; each database session has its own `commits`.
pub mod Accounts
pub mod Present
pub mod Converged
pub mod Decided
pub mod Settled
use debcraft.Prelude.{
  ℕ, ◌+◌, Bool, true, false, ◌&&◌, Option, none, some, List, [], ◌∷◌, ◌++◌, map, length,
  if◌then◌else◌, ltb, is_empty, Result, ok, err, ◌>>=◌,
}
use debcraft.Prelude.Text.{Text}
use debcraft.Prelude.Paths.{join_path}
use debcraft.Mirror.Sync.{
  FileEntry, Action, SyncDecision, compute_sync_decisions, deduplicate_entries,
}
use debcraft.Mirror.Download.{DownloadTask, DownloadResult, AttemptError}
use debcraft.Mirror.Files.{
  Files, verified, queued, entry_url, batch_create_repository_files, batch_update_state,
  batch_mark_failed, get_artifact_checksums,
}

pub record SyncResult : Type 0 where
  pub files_downloaded : ℕ
  pub files_skipped : ℕ
  pub files_failed : ℕ
  pub bytes_transferred : ℕ

-- The engine's counters and the table of files.
pub record Engine : Type 0 where
  pub result : SyncResult
  pub files : Files

-- An exception that leaves a stage, with the engine as it is then: one of the downloads, or the `ValueError` of `zip`.
pub data SyncError : Type 0 where
  download_error : AttemptError → SyncError
  length_mismatch : SyncError

-- `[d.file_entry for d in decisions if d.action == "download"]`
unfoldable pub to_download : List SyncDecision → List FileEntry
to_download [] = []
to_download (d ∷ ds) = elim d.action [
  | Action.download ↦ d.file_entry ∷ to_download ds
  | Action.skip ↦ to_download ds
  | Action.verify ↦ to_download ds
]

unfoldable pub skipped_count : List SyncDecision → ℕ
skipped_count [] = 0
skipped_count (d ∷ ds) = elim d.action [
  | Action.download ↦ skipped_count ds
  | Action.skip ↦ skipped_count ds + 1
  | Action.verify ↦ skipped_count ds
]

unfoldable pub count_success : DownloadResult → SyncResult → SyncResult
count_success d r = record r {
  files_downloaded = r.files_downloaded + 1;
  bytes_transferred = r.bytes_transferred + d.bytes_transferred;
}

unfoldable pub count_failure : SyncResult → SyncResult
count_failure r = record r { files_failed = r.files_failed + 1 }

-- The counters, and the lists `succeeded` and `failed_urls`.
pub record Processed : Type 0 where
  pub result : SyncResult
  pub succeeded : List (Text × Text)
  pub failed_urls : List Text

unfoldable pub process_one : DownloadTask → DownloadResult → Processed → Processed
process_one task d p =
    if d.success
    then record {
      result = count_success d p.result;
      succeeded = p.succeeded ++ (task.url, task.dest_path) ∷ [];
      failed_urls = p.failed_urls;
    }
    else record {
      result = count_failure p.result;
      succeeded = p.succeeded;
      failed_urls = p.failed_urls ++ task.url ∷ [];
    }

-- The loop of `_process_artifact_results`. The tasks are made from the entries, one for each.
unfoldable pub process_results :
    List DownloadTask → List DownloadResult → Processed → Option SyncError × Processed
process_results [] [] p = (none, p)
process_results [] (d ∷ ds) p = (some length_mismatch, p)
process_results (task ∷ tasks) [] p = (some length_mismatch, p)
process_results (task ∷ tasks) (d ∷ ds) p = process_results tasks ds (process_one task d p)

-- `mirror_root / entry.relative_path`: an absolute path stays as it is.
unfoldable pub build_download_task : (base_url mirror_root : Text) → FileEntry → DownloadTask
build_download_task base_url mirror_root entry = record {
  url = entry_url base_url entry;
  dest_path = join_path mirror_root entry.relative_path;
  expected_sha256 = entry.sha256;
  expected_size = entry.size_bytes;
}

unfoldable pub add_skipped : ℕ → SyncResult → SyncResult
add_skipped n r = record r { files_skipped = r.files_skipped + n }

-- What the database and the network do during the stage.
pub record Outside : Type 0 where
  pub creates : ℕ → Bool
  pub updates : ℕ → Bool
  pub marks : ℕ → Bool
  pub batch : List DownloadTask → Result AttemptError (List DownloadResult)

module _ (env : Outside) (base_url mirror_root : Text) where
  -- `_process_artifact_results`, after the loop.
  unfoldable pub save_results : Engine → Option SyncError × Processed → Option SyncError × Engine
  save_results g (some e, p) = (some e, record g { result = p.result })
  save_results g (none, p) = (
    none,
    record {
      result = p.result;
      files =
          batch_mark_failed env.marks p.failed_urls
            (batch_update_state env.updates verified p.succeeded g.files);
    },
  )

  unfoldable pub process_batch :
      List DownloadTask
      → Engine
      → Result AttemptError (List DownloadResult)
      → Option SyncError × Engine
  process_batch tasks g (err e) = (some (download_error e), g)
  process_batch tasks g (ok results) = save_results g (
      process_results tasks results
        (record { result = g.result; succeeded = []; failed_urls = [] }))

  unfoldable pub download_entries : List FileEntry → Engine → Option SyncError × Engine
  download_entries [] g = (none, g)
  download_entries (entry ∷ entries) g =
      let tasks = map (build_download_task base_url mirror_root) (entry ∷ entries) in
      let files =
        batch_create_repository_files env.creates base_url queued (entry ∷ entries) g.files in
      process_batch tasks (record g { files = files }) (env.batch tasks)

  -- `_stage_artifacts`
  unfoldable pub stage_artifacts : List FileEntry → Engine → Option SyncError × Engine
  stage_artifacts [] g = (none, g)
  stage_artifacts (entry ∷ entries) g =
      let unique = deduplicate_entries (entry ∷ entries) in
      let decisions =
        compute_sync_decisions unique (get_artifact_checksums g.files base_url unique []) in
      download_entries (to_download decisions)
        (record g { result = add_skipped (skipped_count decisions) g.result })

pub data SyncStatus : Type 0 where
  cancelled partial failed completed : SyncStatus

unfoldable pub determine_sync_status : Bool → SyncResult → SyncStatus
determine_sync_status is_cancelled r =
    if is_cancelled
    then SyncStatus.cancelled
    else if ltb 0 r.files_failed && ltb 0 r.files_downloaded
    then SyncStatus.partial
    else if ltb 0 r.files_failed
    then SyncStatus.failed
    else SyncStatus.completed

-- `total_processed` of `_log_sync_summary`.
abbrev pub total_processed : SyncResult → ℕ
total_processed r = r.files_downloaded + r.files_skipped + r.files_failed
