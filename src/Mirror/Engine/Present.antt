-- ===== src/Mirror/Engine/Present.antt =====
-- A stage whose downloads and commits succeed leaves nothing to download.
use debcraft.Prelude.{
  ◌≡◌, refl, sym, ◌∙◌, inl, inr, ap, Bool, true, Bool-cases, Option, none, some, List, [], ◌∷◌,
  length, All, arith, ==_refl,
}
use debcraft.Prelude.Text.{Text, text_eq_refl, text_eq→eq, list_text_eq}
use debcraft.Prelude.Dict.{Dict, get, get-put}
use debcraft.Mirror.Sync.{FileEntry, decide_entry, compute_sync_decisions}
use debcraft.Mirror.Files.{
  Files, RepositoryFile, is_present, add_checksum, get_artifact_checksums, entry_url,
}
use debcraft.Mirror.Engine.{to_download, skipped_count}

abbrev same : Text → Text → Bool
same = list_text_eq.same

pub entry_url-same :
    (base_url : Text) (d e : FileEntry)
    → same (entry_url base_url d) (entry_url base_url e) ≡ same d.relative_path e.relative_path
entry_url-same [] d e = refl
entry_url-same (c ∷ base_url) d e = rw (==_refl c) (entry_url-same base_url d e)

-- The file of an entry is in the table, with its checksum and in a state that counts as cached.
abbrev pub IsCached : Text → Files → FileEntry → Type 0
IsCached base_url files e =
    (f : RepositoryFile) × (get files (entry_url base_url e) ≡ some f)
    × (is_present f.state ≡ true)
    × (f.sha256 ≡ e.sha256)

sha256_of : Option RepositoryFile → Option Text
sha256_of none = none
sha256_of (some f) = some f.sha256

module _ (base_url : Text) (files : Files) where
  -- Entries of one path have one row.
  pub same-row :
      (d e : FileEntry)
      → same d.relative_path e.relative_path ≡ true
      → get files (entry_url base_url d) ≡ get files (entry_url base_url e)
  same-row d e h = ap (λ u. get files u) (text_eq→eq _ _ (entry_url-same base_url d e ∙ h))

  add_checksum-kept :
      (d e : FileEntry) (acc : Dict Text Text) (o : Option RepositoryFile)
      → get files (entry_url base_url d) ≡ o
      → IsCached base_url files e
      → get acc e.relative_path ≡ some e.sha256
      → get (add_checksum is_present d.relative_path o acc) e.relative_path ≡ some e.sha256
  unfolding add_checksum sha256_of
  add_checksum-kept d e acc none q c h = h
  add_checksum-kept d e acc (some f) q c h = elim (Bool-cases (is_present f.state)) [
    | inr n ↦ simp n h
    | inl n ↦ simp n (
        get-put acc d.relative_path e.relative_path f.sha256
        ∙ elim (Bool-cases (same d.relative_path e.relative_path)) [
          | inr z ↦ simp z h
          | inl z ↦ simp z (ap sha256_of (sym q ∙ same-row d e z ∙ c.1) ∙ ap some c.3)
        ])
  ]

  -- A cached file's checksum, once it is collected, stays.
  checksums-kept :
      (es : List FileEntry) (e : FileEntry) (acc : Dict Text Text)
      → IsCached base_url files e
      → get acc e.relative_path ≡ some e.sha256
      → get (get_artifact_checksums files base_url es acc) e.relative_path ≡ some e.sha256
  unfolding get_artifact_checksums
  checksums-kept [] e acc c h = h
  checksums-kept (d ∷ es) e acc c h = checksums-kept es e _ c (add_checksum-kept d e acc _ refl c h)

  add_checksum-own :
      (e : FileEntry) (acc : Dict Text Text)
      → IsCached base_url files e
      → get
          (add_checksum is_present e.relative_path (get files (entry_url base_url e)) acc)
          e.relative_path
        ≡ some e.sha256
  unfolding add_checksum
  add_checksum-own e acc (f, q, n, s) =
      simp (q, n)
        (get-put acc e.relative_path e.relative_path f.sha256
          ∙ rw (text_eq_refl e.relative_path) (ap some s))

  -- The checksums of cached entries are theirs.
  checksums-cached :
      (es : List FileEntry) (acc : Dict Text Text)
      → All (IsCached base_url files) es
      → All
          (λ e. get (get_artifact_checksums files base_url es acc) e.relative_path ≡ some e.sha256)
          es
  unfolding get_artifact_checksums
  checksums-cached [] acc h = tt
  checksums-cached (e ∷ es) acc (c, h) =
      (checksums-kept es e _ c (add_checksum-own e acc c), checksums-cached es _ h)

-- Entries whose checksums are known are skipped.
compute-skipped :
    (es : List FileEntry) (checksums : Dict Text Text)
    → All (λ e. get checksums e.relative_path ≡ some e.sha256) es
    → (to_download (compute_sync_decisions es checksums) ≡ [])
      × (skipped_count (compute_sync_decisions es checksums) ≡ length es)
unfolding compute_sync_decisions decide_entry to_download skipped_count
compute-skipped [] checksums h = (refl, refl)
compute-skipped (e ∷ es) checksums (q, h) =
    let k = compute-skipped es checksums h in
    simp (q, text_eq_refl e.sha256) (k.0, omega (arith, k.1))

pub skips_cached :
    (base_url : Text) (files : Files) (es : List FileEntry)
    → All (IsCached base_url files) es
    → let ds = compute_sync_decisions es (get_artifact_checksums files base_url es []) in
      (to_download ds ≡ []) × (skipped_count ds ≡ length es)
skips_cached base_url files es h = compute-skipped es _ (checksums-cached base_url files es [] h)
