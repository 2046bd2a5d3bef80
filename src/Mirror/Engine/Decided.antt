-- ===== src/Mirror/Engine/Decided.antt =====
-- Which entries of a stage are downloaded, by the table of files.
use debcraft.Prelude.{
  ◌≡◌, ◌⊎◌, refl, sym, subst, ◌∙◌, inl, inr, Bool, true, false, Bool-cases, Option, none, some,
  List, [], ◌∷◌, All, arith,
}
use debcraft.Prelude.Text.{Text, text_eq→eq, list_text_eq}
use debcraft.Prelude.Dict.{Dict, get, get-put, get-nil}
use debcraft.Mirror.Sync.{FileEntry, SyncDecision, decide_entry, compute_sync_decisions}
use debcraft.Mirror.Sync.Unique.{find_entry, Distinct}
use debcraft.Mirror.Files.{
  Files, RepositoryFile, is_present, add_checksum, get_artifact_checksums, entry_url,
}
use debcraft.Mirror.Engine.{to_download}
use debcraft.Mirror.Engine.Present.{IsCached, same-row}
use debcraft.Mirror.Engine.Converged.{In, find_entry-cons}

abbrev same : Text → Text → Bool
same = list_text_eq.same

to_download-absent :
    (e : FileEntry) (ds : List SyncDecision)
    → to_download (decide_entry e none ∷ ds) ≡ e ∷ to_download ds
unfolding to_download decide_entry
to_download-absent e ds = refl

to_download-same :
    (e : FileEntry) (v : Text) (ds : List SyncDecision)
    → same v e.sha256 ≡ true
    → to_download (decide_entry e (some v) ∷ ds) ≡ to_download ds
unfolding to_download decide_entry
to_download-same e v ds y = simp y refl

to_download-other :
    (e : FileEntry) (v : Text) (ds : List SyncDecision)
    → same v e.sha256 ≡ false
    → to_download (decide_entry e (some v) ∷ ds) ≡ e ∷ to_download ds
unfolding to_download decide_entry
to_download-other e v ds y = simp y refl

module _ (base_url : Text) (files : Files) where
  -- The checksums are those of files in the table.
  abbrev Sound : Dict Text Text → Type 0
  Sound acc =
      (e : FileEntry) (v : Text)
      → get acc e.relative_path ≡ some v
      → (f : RepositoryFile) × (get files (entry_url base_url e) ≡ some f)
        × (is_present f.state ≡ true)
        × (f.sha256 ≡ v)

  add_checksum-Sound :
      (d : FileEntry) (o : Option RepositoryFile) (acc : Dict Text Text)
      → get files (entry_url base_url d) ≡ o
      → Sound acc
      → Sound (add_checksum is_present d.relative_path o acc)
  unfolding add_checksum
  add_checksum-Sound d none acc q s = s
  add_checksum-Sound d (some f) acc q s = elim (Bool-cases (is_present f.state)) [
    | inr n ↦ simp n s
    | inl n ↦ simp n (λ e v h. elim (Bool-cases (same d.relative_path e.relative_path)) [
      | inl y ↦
          let g = get-put acc d.relative_path e.relative_path f.sha256 in
          let k = rw y at g in (f, sym (same-row base_url files d e y) ∙ q, n, ground (arith, h, k))
      | inr y ↦
          let g = get-put acc d.relative_path e.relative_path f.sha256 in
          let k = rw y at g in s e v (sym k ∙ h)
    ])
  ]

  get_artifact_checksums-Sound :
      (es : List FileEntry) (acc : Dict Text Text)
      → Sound acc
      → Sound (get_artifact_checksums files base_url es acc)
  unfolding get_artifact_checksums
  get_artifact_checksums-Sound [] acc s = s
  get_artifact_checksums-Sound (d ∷ es) acc s =
      get_artifact_checksums-Sound es _ (add_checksum-Sound d _ acc refl s)

  -- The entry is downloaded, or it is cached and no entry of its path is downloaded.
  abbrev pub Decided : List FileEntry → FileEntry → Type 0
  Decided ds e = In e ds ⊎ ((find_entry ds e.relative_path ≡ none) × IsCached base_url files e)

  -- A path that no entry has is not downloaded.
  not_downloaded :
      (es : List FileEntry) (checksums : Dict Text Text) (path : Text)
      → find_entry es path ≡ none
      → find_entry (to_download (compute_sync_decisions es checksums)) path ≡ none
  unfolding find_entry to_download compute_sync_decisions decide_entry
  not_downloaded [] checksums path h = refl
  not_downloaded (e ∷ es) checksums path h =
      decided (get checksums e.relative_path) (find_entry-cons e es path h)
        (not_downloaded es checksums path (find_entry-cons e es path h).1)
    where
      decided :
          (o : Option Text)
          → (same e.relative_path path ≡ false) × (find_entry es path ≡ none)
          → find_entry (to_download (compute_sync_decisions es checksums)) path ≡ none
          → find_entry (to_download (decide_entry e o ∷ compute_sync_decisions es checksums)) path
            ≡ none
      decided none k ih = rw k.0 ih
      decided (some v) k ih = elim (Bool-cases (same v e.sha256)) [
        | inl y ↦ simp y ih
        | inr y ↦ simp (y, k.0) ih
      ]

  -- One more download leaves the decisions on entries of other paths.
  Decided-cons :
      (d : FileEntry) (ds es : List FileEntry)
      → find_entry es d.relative_path ≡ none
      → All (Decided ds) es
      → All (Decided (d ∷ ds)) es
  unfolding find_entry
  Decided-cons d ds [] h a = tt
  Decided-cons d ds (e ∷ es) h (inl i, a) =
      (inl (inr i), Decided-cons d ds es (find_entry-cons e es d.relative_path h).1 a)
  Decided-cons d ds (e ∷ es) h (inr (n, c), a) =
      let k = find_entry-cons e es d.relative_path h in
      let x : same d.relative_path e.relative_path ≡ false = ground (
        arith,
        k.0,
        list_text_eq.same_iff e.relative_path d.relative_path,
        list_text_eq.same_iff d.relative_path e.relative_path,
      ) in
      (inr (rw x n, c), Decided-cons d ds es k.1 a)

  decide_entry-Decided :
      (e : FileEntry) (es : List FileEntry) (checksums : Dict Text Text) (o : Option Text)
      → find_entry es e.relative_path ≡ none
      → Sound checksums
      → get checksums e.relative_path ≡ o
      → All (Decided (to_download (compute_sync_decisions es checksums))) es
      → All
          (Decided (to_download (decide_entry e o ∷ compute_sync_decisions es checksums)))
          (e ∷ es)
  decide_entry-Decided e es checksums none n s q ih =
      subst (λ ds. All (Decided ds) (e ∷ es))
        (sym (to_download-absent e (compute_sync_decisions es checksums)))
        (inl (inl (refl, not_downloaded es checksums e.relative_path n)), Decided-cons e _ es n ih)
  decide_entry-Decided e es checksums (some v) n s q ih = elim (Bool-cases (same v e.sha256)) [
    | inl y ↦
        let c = s e v q in
        subst (λ ds. All (Decided ds) (e ∷ es))
          (sym (to_download-same e v (compute_sync_decisions es checksums) y))
          (
            inr (
              not_downloaded es checksums e.relative_path n,
              (c.0, c.1, c.2, c.3 ∙ text_eq→eq v e.sha256 y),
            ),
            ih,
          )
    | inr y ↦
        subst (λ ds. All (Decided ds) (e ∷ es))
          (sym (to_download-other e v (compute_sync_decisions es checksums) y))
          (
            inl (inl (refl, not_downloaded es checksums e.relative_path n)),
            Decided-cons e _ es n ih,
          )
  ]

  decisions-Decided :
      (es : List FileEntry) (checksums : Dict Text Text)
      → Distinct es
      → Sound checksums
      → All (Decided (to_download (compute_sync_decisions es checksums))) es
  unfolding compute_sync_decisions
  decisions-Decided [] checksums u s = tt
  decisions-Decided (e ∷ es) checksums (n, u) s =
      decide_entry-Decided e es checksums (get checksums e.relative_path) n s refl
        (decisions-Decided es checksums u s)

  -- Every distinct entry of a stage is downloaded, or cached already.
  pub stage-Decided :
      (es : List FileEntry)
      → Distinct es
      → All
          (Decided
            (to_download (compute_sync_decisions es (get_artifact_checksums files base_url es []))))
          es
  stage-Decided es u = decisions-Decided es _ u (
      get_artifact_checksums-Sound es []
        (λ e v h. ground (arith, get-nil {V = Text} e.relative_path, h)))
