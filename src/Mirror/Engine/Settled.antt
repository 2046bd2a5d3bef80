-- ===== src/Mirror/Engine/Settled.antt =====
-- Two stages over the same entries.
use debcraft.Prelude.{
  none, ℕ, ◌≡◌, refl, sym, ◌∙◌, inl, inr, ap, Bool, true, List, [], ◌∷◌, ◌++◌, map, length, All, ok,
  append-nil, append_assoc,
}
use debcraft.Prelude.Text.{Text}
use debcraft.Mirror.Sync.{FileEntry, compute_sync_decisions, deduplicate_entries}
use debcraft.Mirror.Sync.Unique.{deduplicate_entries_lem}
use debcraft.Mirror.Download.{DownloadTask, DownloadResult}
use debcraft.Mirror.Files.{
  Files, verified, queued, run_batch, put_entry, update_state, batch_create_repository_files,
  batch_update_state, batch_mark_failed, get_artifact_checksums, entry_url,
}
use debcraft.Prelude.Paths.{join_path}
use debcraft.Mirror.Files.Batches.{apply_all, run_batch-Committed}
use debcraft.Mirror.Engine.{
  Engine, Outside, Processed, to_download, skipped_count, add_skipped, process_one, process_results,
  build_download_task, save_results, process_batch, download_entries, stage_artifacts,
}
use debcraft.Mirror.Engine.Present.{IsCached, skips_cached}
use debcraft.Mirror.Engine.Converged.{pairs, after_downloads, after_downloads-IsCached}
use debcraft.Mirror.Engine.Decided.{Decided, stage-Decided}

-- Every commit of the session returns.
abbrev pub Returns : (ℕ → Bool) → Type 0
Returns commits = (n : ℕ) → commits n ≡ true

run_batch-Returns {ℓ} :
    {A : Type ℓ} (step : A → Files → Files) (commits : ℕ → Bool) (items : List A) (files : Files)
    → Returns commits
    → run_batch step commits items files files 0 0 ≡ apply_all step items files
run_batch-Returns step commits items files r = elim (run_batch-Committed step commits items files) [
  | inl (e, h) ↦ e
  | inr (m, l, z, h, e) ↦ absurd (cc (r m, z))
]

-- All results are successes, one for each task.
abbrev pub Succeeded : List DownloadTask → List DownloadResult → Type 0
Succeeded [] [] = Unit
Succeeded [] (d ∷ ds) = ⊥
Succeeded (task ∷ tasks) [] = ⊥
Succeeded (task ∷ tasks) (d ∷ ds) = (d.success ≡ true) × Succeeded tasks ds

abbrev task_pairs : List DownloadTask → List (Text × Text)
task_pairs [] = []
task_pairs (task ∷ tasks) = (task.url, task.dest_path) ∷ task_pairs tasks

process_one-success :
    (task : DownloadTask) (d : DownloadResult) (p : Processed)
    → d.success ≡ true
    → ((process_one task d p).succeeded ≡ p.succeeded ++ (task.url, task.dest_path) ∷ [])
      × ((process_one task d p).failed_urls ≡ p.failed_urls)
unfolding process_one
process_one-success task d p h = simp h (refl, refl)

process_results-Succeeded :
    (tasks : List DownloadTask) (ds : List DownloadResult) (p : Processed)
    → Succeeded tasks ds
    → (q : Processed) × (process_results tasks ds p ≡ (none, q))
      × (q.succeeded ≡ p.succeeded ++ task_pairs tasks)
      × (q.failed_urls ≡ p.failed_urls)
unfolding process_results
process_results-Succeeded [] [] p h = (p, refl, sym (append-nil p.succeeded), refl)
process_results-Succeeded [] (d ∷ ds) p h = absurd h
process_results-Succeeded (task ∷ tasks) [] p h = absurd h
process_results-Succeeded (task ∷ tasks) (d ∷ ds) p (s, h) =
    let one = process_one-success task d p s in
    let r = process_results-Succeeded tasks ds (process_one task d p) h in
    (
      r.0,
      r.1,
      r.2
          ∙ ap (λ l. l ++ task_pairs tasks) one.0
          ∙ append_assoc p.succeeded ((task.url, task.dest_path) ∷ []) (task_pairs tasks),
      r.3 ∙ one.1,
    )

update-Returns :
    (commits : ℕ → Bool) (items : List (Text × Text)) (files : Files)
    → Returns commits
    → batch_update_state commits verified items files
      ≡ apply_all (update_state verified) items files
unfolding batch_update_state
update-Returns commits items files r =
    run_batch-Returns (update_state verified) commits items files r

create-Returns :
    (commits : ℕ → Bool) (base_url : Text) (es : List FileEntry) (files : Files)
    → Returns commits
    → batch_create_repository_files commits base_url queued es files
      ≡ apply_all (put_entry base_url queued) es files
unfolding batch_create_repository_files
create-Returns commits base_url es files r =
    run_batch-Returns (put_entry base_url queued) commits es files r

module _ (base_url mirror_root : Text) where
  abbrev dest_of : FileEntry → Text
  dest_of entry = join_path mirror_root entry.relative_path

  task_pairs-build :
      (es : List FileEntry)
      → task_pairs (map (build_download_task base_url mirror_root) es) ≡ pairs base_url dest_of es
  unfolding build_download_task
  task_pairs-build [] = refl
  task_pairs-build (e ∷ es) = ap (λ l. (entry_url base_url e, dest_of e) ∷ l) (task_pairs-build es)

  -- Downloads that succeed, and whose changes are committed.
  pub record Succeeds (env : Outside) : Type 0 where
    pub creates : Returns env.creates
    pub updates : Returns env.updates
    pub batch :
        (tasks : List DownloadTask)
        → (ds : List DownloadResult) × (env.batch tasks ≡ ok ds) × Succeeded tasks ds

  mark_none : (marks : ℕ → Bool) (files : Files) → batch_mark_failed marks [] files ≡ files
  unfolding batch_mark_failed run_batch
  mark_none marks files = refl

  download_entries-files :
      (env : Outside) (es : List FileEntry) (g : Engine)
      → Succeeds env
      → (h : Engine) × (download_entries env base_url mirror_root es g ≡ (none, h))
        × (h.files ≡ after_downloads base_url dest_of es g.files)
  unfolding download_entries process_batch save_results
  download_entries-files env [] g s = (g, refl, refl)
  download_entries-files env (e ∷ es) g s =
      let tasks = map (build_download_task base_url mirror_root) (e ∷ es) in
      let files = batch_create_repository_files env.creates base_url queued (e ∷ es) g.files in
      let b = s.batch tasks in
      let p : Processed = record { result = g.result; succeeded = []; failed_urls = [] } in
      let r = process_results-Succeeded tasks b.0 p b.2 in
      let h : Engine = record {
        result = (r.0).result;
        files =
            batch_mark_failed env.marks (r.0).failed_urls
              (batch_update_state env.updates verified (r.0).succeeded files);
      } in
      let g1 : Engine = record g { files = files } in
      let named = r.2 ∙ task_pairs-build (e ∷ es) in
      (
        h,
        ap (process_batch env base_url mirror_root tasks g1) b.1
            ∙ ap (save_results env base_url mirror_root g1) r.1,
        ap
              (λ l.
                batch_mark_failed env.marks l
                  (batch_update_state env.updates verified (r.0).succeeded files))
              r.3
            ∙ mark_none env.marks _
            ∙ ap (λ l. batch_update_state env.updates verified l files) named
            ∙ update-Returns env.updates (pairs base_url dest_of (e ∷ es)) files s.updates
            ∙ ap (apply_all (update_state verified) (pairs base_url dest_of (e ∷ es)))
                (create-Returns env.creates base_url (e ∷ es) g.files s.creates),
      )

  after_downloads-All :
      (ds es : List FileEntry) (files : Files)
      → All (Decided base_url files ds) es
      → All (IsCached base_url (after_downloads base_url dest_of ds files)) es
  after_downloads-All ds [] files h = tt
  after_downloads-All ds (e ∷ es) files (d, h) =
      (after_downloads-IsCached base_url dest_of ds e files d, after_downloads-All ds es files h)

  cached-skipped :
      (env : Outside) (e : FileEntry) (es : List FileEntry) (h : Engine)
      → All (IsCached base_url h.files) (deduplicate_entries (e ∷ es))
      → stage_artifacts env base_url mirror_root (e ∷ es) h
        ≡ (none, record h { result = add_skipped (length (deduplicate_entries (e ∷ es))) h.result })
  unfolding stage_artifacts
  cached-skipped env e es h c =
      let k = skips_cached base_url h.files (deduplicate_entries (e ∷ es)) c in
      rw (k.0, k.1) (unfold download_entries in refl)

  -- If the downloads of a stage succeed and its changes are committed, the stage returns, and a later
  -- one over the same entries counts each distinct file as skipped and changes nothing else.
  pub stage_artifacts-settles :
      (env later : Outside) (e : FileEntry) (es : List FileEntry) (g : Engine)
      → Succeeds env
      → (h : Engine) × (stage_artifacts env base_url mirror_root (e ∷ es) g ≡ (none, h))
        × (stage_artifacts later base_url mirror_root (e ∷ es) h ≡ (
          none,
          record h { result = add_skipped (length (deduplicate_entries (e ∷ es))) h.result },
        ))
  unfolding stage_artifacts
  stage_artifacts-settles env later e es g s =
      let unique = deduplicate_entries (e ∷ es) in
      let ds = compute_sync_decisions unique (get_artifact_checksums g.files base_url unique []) in
      let g1 : Engine = record g { result = add_skipped (skipped_count ds) g.result } in
      let r = download_entries-files env (to_download ds) g1 s in
      let decided = stage-Decided base_url g.files unique (deduplicate_entries_lem (e ∷ es)).0 in
      let cached = after_downloads-All (to_download ds) unique g.files decided in
      (r.0, r.1, cached-skipped later e es r.0 (rw r.2 cached))
