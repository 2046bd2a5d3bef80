-- ===== src/Mirror/Engine/Converged.antt =====
-- The table of files after a stage whose downloads and commits succeed.
use debcraft.Prelude.{
  ◌≡◌, ◌⊎◌, refl, ◌∙◌, inl, inr, Bool, false, Bool-cases, Option, none, some, List, [], ◌∷◌,
}
use debcraft.Prelude.Text.{Text, text_eq_refl, text_eq→eq, list_text_eq}
use debcraft.Prelude.Dict.{get, get-put}
use debcraft.Mirror.Sync.{FileEntry}
use debcraft.Mirror.Sync.Unique.{find_entry}
use debcraft.Mirror.Files.{
  Files, RepositoryFile, verified, queued, entry_url, put_entry, updated_file, update_state,
  change_row,
}
use debcraft.Mirror.Files.Batches.{apply_all}
use debcraft.Mirror.Engine.Present.{IsCached, entry_url-same}

abbrev same : Text → Text → Bool
same = list_text_eq.same

pub find_entry-cons :
    (d : FileEntry) (es : List FileEntry) (path : Text)
    → find_entry (d ∷ es) path ≡ none
    → (same d.relative_path path ≡ false) × (find_entry es path ≡ none)
unfolding find_entry
find_entry-cons d es path h = elim (Bool-cases (same d.relative_path path)) [
  | inl e ↦ absurd (cc (rw e at h))
  | inr e ↦ (e, rw e at h)
]

-- The entry is in the list, and no later one has its path.
abbrev pub In : FileEntry → List FileEntry → Type 0
In e [] = ⊥
In e (d ∷ ds) = ((d ≡ e) × (find_entry ds e.relative_path ≡ none)) ⊎ In e ds

-- The row of the entry has the entry's checksum.
abbrev pub HasSum : Text → Files → FileEntry → Type 0
HasSum base_url files e =
    (f : RepositoryFile) × (get files (entry_url base_url e) ≡ some f) × (f.sha256 ≡ e.sha256)

module _ (base_url : Text) where
  abbrev row : Files → FileEntry → Option RepositoryFile
  row files e = get files (entry_url base_url e)

  url-differs :
      (d e : FileEntry)
      → same d.relative_path e.relative_path ≡ false
      → same (entry_url base_url d) (entry_url base_url e) ≡ false
  url-differs d e h = entry_url-same base_url d e ∙ h

  put_entry-other :
      (d e : FileEntry) (files : Files)
      → same d.relative_path e.relative_path ≡ false
      → row (put_entry base_url queued d files) e ≡ row files e
  unfolding put_entry
  put_entry-other d e files h =
      get-put files (entry_url base_url d) (entry_url base_url e) _ ∙ rw (url-differs d e h) refl

  put_all-other :
      (ds : List FileEntry) (e : FileEntry) (files : Files)
      → find_entry ds e.relative_path ≡ none
      → row (apply_all (put_entry base_url queued) ds files) e ≡ row files e
  put_all-other [] e files h = refl
  put_all-other (d ∷ ds) e files h =
      let k = find_entry-cons d ds e.relative_path h in
      put_all-other ds e _ k.1 ∙ put_entry-other d e files k.0

  updated-sum :
      (o : Option RepositoryFile) (e : FileEntry)
      → (updated_file o e.sha256 e.size_bytes queued).sha256 ≡ e.sha256
  unfolding updated_file
  updated-sum none e = refl
  updated-sum (some f) e = refl

  put_entry-own :
      (e : FileEntry) (files : Files) → HasSum base_url (put_entry base_url queued e files) e
  unfolding put_entry
  put_entry-own e files =
      let url = entry_url base_url e in
      let f = updated_file (get files url) e.sha256 e.size_bytes queued in
      (f, get-put files url url f ∙ rw (text_eq_refl url) refl, updated-sum (get files url) e)

  put_all-In :
      (ds : List FileEntry) (e : FileEntry) (files : Files)
      → In e ds
      → HasSum base_url (apply_all (put_entry base_url queued) ds files) e
  put_all-In [] e files h = absurd h
  put_all-In (d ∷ ds) e files (inl (q, n)) =
      let p = put_entry-own e files in rw q (p.0, put_all-other ds e _ n ∙ p.1, p.2)
  put_all-In (d ∷ ds) e files (inr h) = put_all-In ds e (put_entry base_url queued d files) h

  -- The pairs of URL and path that succeeded.
  abbrev pub pairs : (FileEntry → Text) → List FileEntry → List (Text × Text)
  pairs dest [] = []
  pairs dest (d ∷ ds) = (entry_url base_url d, dest d) ∷ pairs dest ds

  change_row-get :
      (change : RepositoryFile → RepositoryFile) (url : Text) (o : Option RepositoryFile)
      (files : Files) (other : Text)
      → same url other ≡ false
      → get (change_row change url o files) other ≡ get files other
  unfolding change_row
  change_row-get change url none files other h = refl
  change_row-get change url (some f) files other h = get-put files url other (change f) ∙ rw h refl

  update-other :
      (d e : FileEntry) (path : Text) (files : Files)
      → same d.relative_path e.relative_path ≡ false
      → row (update_state verified (entry_url base_url d, path) files) e ≡ row files e
  unfolding update_state
  update-other d e path files h =
      change_row-get _ (entry_url base_url d) _ files (entry_url base_url e) (url-differs d e h)

  update-own :
      (e : FileEntry) (path : Text) (files : Files)
      → HasSum base_url files e
      → IsCached base_url (update_state verified (entry_url base_url e, path) files) e
  unfolding update_state change_row
  update-own e path files (f, q, s) =
      let url = entry_url base_url e in
      let g : RepositoryFile = record f { state = verified; local_path = some path } in
      rw q (g, get-put files url url g ∙ rw (text_eq_refl url) refl, refl, s)

  update-HasSum :
      (d e : FileEntry) (path : Text) (files : Files)
      → HasSum base_url files e
      → HasSum base_url (update_state verified (entry_url base_url d, path) files) e
  update-HasSum d e path files h = elim (Bool-cases (same d.relative_path e.relative_path)) [
    | inr n ↦ (h.0, update-other d e path files n ∙ h.1, h.2)
    | inl y ↦
        let u : entry_url base_url d ≡ entry_url base_url e =
          text_eq→eq _ _ (entry_url-same base_url d e ∙ y) in
        let c = update-own e path files h in rw u (c.0, c.1, c.3)
  ]

  update_all-other :
      (dest : FileEntry → Text) (ds : List FileEntry) (e : FileEntry) (files : Files)
      → find_entry ds e.relative_path ≡ none
      → row (apply_all (update_state verified) (pairs dest ds) files) e ≡ row files e
  update_all-other dest [] e files h = refl
  update_all-other dest (d ∷ ds) e files h =
      let k = find_entry-cons d ds e.relative_path h in
      update_all-other dest ds e _ k.1 ∙ update-other d e (dest d) files k.0

  update_all-In :
      (dest : FileEntry → Text) (ds : List FileEntry) (e : FileEntry) (files : Files)
      → In e ds
      → HasSum base_url files e
      → IsCached base_url (apply_all (update_state verified) (pairs dest ds) files) e
  update_all-In dest [] e files h s = absurd h
  update_all-In dest (d ∷ ds) e files (inl (q, n)) s =
      let c = update-own e (dest e) files s in
      rw q (c.0, update_all-other dest ds e _ n ∙ c.1, c.2, c.3)
  update_all-In dest (d ∷ ds) e files (inr h) s =
      update_all-In dest ds e _ h (update-HasSum d e (dest d) files s)

  -- The table after the downloads of a list succeed.
  abbrev pub after_downloads : (FileEntry → Text) → List FileEntry → Files → Files
  after_downloads dest ds files =
      apply_all (update_state verified) (pairs dest ds)
        (apply_all (put_entry base_url queued) ds files)

  -- Afterwards an entry is cached that is in the list, or was cached before and is not.
  pub after_downloads-IsCached :
      (dest : FileEntry → Text) (ds : List FileEntry) (e : FileEntry) (files : Files)
      → In e ds ⊎ ((find_entry ds e.relative_path ≡ none) × IsCached base_url files e)
      → IsCached base_url (after_downloads dest ds files) e
  after_downloads-IsCached dest ds e files (inl h) =
      update_all-In dest ds e _ h (put_all-In ds e files h)
  after_downloads-IsCached dest ds e files (inr (n, c)) =
      (c.0, update_all-other dest ds e _ n ∙ put_all-other ds e files n ∙ c.1, c.2, c.3)
