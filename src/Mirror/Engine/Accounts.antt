-- ===== src/Mirror/Engine/Accounts.antt =====
-- The counters of a synchronization account for every file.
use debcraft.Prelude.{
  ℕ, ◌+◌, ◌≡◌, Option, none, some, List, [], ◌∷◌, map, length, ok, Bool, false, if◌then◌else◌,
}
use debcraft.Prelude.Text.{Text, list_text_eq}
use debcraft.Prelude.Dict.{Dict, get}
use debcraft.Mirror.Sync.{FileEntry, deduplicate_entries}
use debcraft.Mirror.Download.{DownloadResult}
use debcraft.Mirror.Files.{get_artifact_checksums}
use debcraft.Mirror.Engine.{Engine, SyncResult, build_download_task, Outside, total_processed}

-- Whether a checksum of the table is the entry's.
abbrev pub is_current : Option Text → FileEntry → Bool
is_current none entry = false
is_current (some local_sha256) entry = list_text_eq.same local_sha256 entry.sha256

-- The entries whose checksum the table has, counted, and the others.
abbrev pub count_current : Dict Text Text → List FileEntry → ℕ
count_current checksums [] = 0
count_current checksums (entry ∷ entries) =
    (if is_current (get checksums entry.relative_path) entry then 1 else 0)
    + count_current checksums entries

abbrev pub missing : Dict Text Text → List FileEntry → List FileEntry
missing checksums [] = []
missing checksums (entry ∷ entries) =
    if is_current (get checksums entry.relative_path) entry
    then missing checksums entries
    else entry ∷ missing checksums entries

-- The results with success and the others, counted, and the bytes of the former.
abbrev pub successes : List DownloadResult → ℕ
successes [] = 0
successes (d ∷ ds) = (if d.success then 1 else 0) + successes ds

abbrev pub unsuccessful : List DownloadResult → ℕ
unsuccessful [] = 0
unsuccessful (d ∷ ds) = (if d.success then 0 else 1) + unsuccessful ds

abbrev pub received : List DownloadResult → ℕ
received [] = 0
received (d ∷ ds) = (if d.success then d.bytes_transferred else 0) + received ds

-- The counters after as many skipped files and these results.
pub record Counted (skipped : ℕ) (results : List DownloadResult) (r s : SyncResult) : Type 0 where
  pub downloaded : s.files_downloaded ≡ r.files_downloaded + successes results
  pub failed : s.files_failed ≡ r.files_failed + unsuccessful results
  pub skipped_files : s.files_skipped ≡ r.files_skipped + skipped
  pub bytes : s.bytes_transferred ≡ r.bytes_transferred + received results

module _ (env : Outside) (base_url mirror_root : Text) where
  -- The results that the batch of downloads gives for these entries; there is none for no entry.
  abbrev pub Answered : List FileEntry → List DownloadResult → Type 0
  Answered [] results = results ≡ []
  Answered (entry ∷ entries) results =
      env.batch (map (build_download_task base_url mirror_root) (entry ∷ entries)) ≡ ok results

  -- What a stage from `g` to `h` counts: as skipped the distinct files of the entries that the
  -- table has, present and with the entry's checksum, and as downloaded and failed the results of the
  -- others, one for each, by their success.
  abbrev pub Accounted : List FileEntry → Engine → Engine → Type 0
  Accounted entries g h =
      let unique = deduplicate_entries entries in
      let checksums = get_artifact_checksums g.files base_url unique [] in
      (results : List DownloadResult) × Answered (missing checksums unique) results
      × (length results ≡ length (missing checksums unique))
      × Counted (count_current checksums unique) results g.result h.result
      × (total_processed h.result ≡ total_processed g.result + length unique)
