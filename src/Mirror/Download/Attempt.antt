-- ===== src/Mirror/Download/Attempt.antt =====
-- What one attempt does to the files.
use debcraft.Prelude.{
  ℕ, ◌≡◌, ◌≢◌, ◌⊎◌, inl, inr, refl, ◌∙◌, true, false, Option, none, some, List, [], ◌∷◌, length,
  arith, if◌then◌else◌, is_empty, Result, ok, err,
}
use debcraft.Prelude.Text.{Text, list_text_eq, text_eq_refl, text_eq→eq}
use debcraft.Prelude.Dict.{Dict, get, put, pop, get-put, get-pop}
use debcraft.Mirror.Download.{
  File, Store, DownloadTask, Failure, Commit, committed, not_replaced, not_chmodded, BodyEnd, ends,
  breaks_off, client_error, interruption, Reply, limiter_timeout, no_response, response,
  AttemptError, network, rate_limit_timeout, other, DownloadResult, part_path, Written,
  status_error, change_file, replace_file, make_readable, verify, commit_file, fail_request,
  end_body, read_body, receive, attempt_download,
}
use debcraft.Mirror.Download.Parts.{
  same, Untouched, ne-same, same_sym, part_path-ne, Open, write_chunks-Open, write_chunks-other,
}

-- The content has the expected size and digest, as far as the task gives them.
abbrev pub IsVerified : (Text → Text) → DownloadTask → Text → Type 0
IsVerified sha256 task content =
    ((task.expected_size ≡ 0) ⊎ (length content ≡ task.expected_size))
    × ((task.expected_sha256 ≡ []) ⊎ (sha256 content ≡ task.expected_sha256))

-- A successful result, with the file that it promises at the destination.
pub record Delivered (sha256 : Text → Text) (task : DownloadTask) (r : DownloadResult) (t : Store)
    : Type 0 where
  pub file : File
  pub stored : get t task.dest_path ≡ some file
  pub mode : file.mode ≡ 420
  pub verified : IsVerified sha256 task file.content
  pub counted : r.bytes_transferred ≡ length file.content
  pub success : r.success ≡ true
  pub named : r.url ≡ task.url

-- The files after an exception: all are as they were, but for the part, which is left only by one
-- that has no handler.
abbrev pub Abandoned : DownloadTask → Store → AttemptError → Store → Type 0
Abandoned task s e t =
    ((path : Text) → path ≢ part_path task.dest_path → get t path ≡ get s path)
    × (e ≢ other → get t (part_path task.dest_path) ≡ none)

-- The files after `os.chmod` has raised: the verified file is at the destination, with the mode of the
-- part.
abbrev pub Unreadable : (Text → Text) → ℕ → DownloadTask → Store → AttemptError → Store → Type 0
Unreadable sha256 new_mode task s e t =
    (e ≡ other)
    × (get t (part_path task.dest_path) ≡ none)
    × ((content : Text) × (get t task.dest_path
          ≡ some (record { content = content; mode = new_mode }))
        × IsVerified sha256 task content)
    × Untouched (part_path task.dest_path) task.dest_path s t

abbrev pub Attempted :
    (Text → Text)
    → ℕ
    → DownloadTask
    → ℕ
    → Store
    → Result AttemptError DownloadResult × Store
    → Type 0
Attempted sha256 new_mode task attempt s (ok r, t) =
    Delivered sha256 task r t
    × (r.retry_count ≡ attempt)
    × (get t (part_path task.dest_path) ≡ none)
    × Untouched (part_path task.dest_path) task.dest_path s t
Attempted sha256 new_mode task attempt s (err e, t) =
    Abandoned task s e t ⊎ Unreadable sha256 new_mode task s e t

pop-Abandoned :
    (task : DownloadTask) (s t : Store) (e : AttemptError)
    → ((path : Text) → path ≢ part_path task.dest_path → get t path ≡ get s path)
    → Abandoned task s e (pop t (part_path task.dest_path))
pop-Abandoned task s t e h =
    let part = part_path task.dest_path in
    (
      λ path n. get-pop t part path ∙ rw (ne-same part path n) (h path n),
      λ n. get-pop t part part ∙ rw (text_eq_refl part) refl,
    )

text_cases : (t : Text) → (t ≡ []) ⊎ (is_empty t ≡ false)
text_cases [] = inl refl
text_cases (c ∷ t) = inr refl

pub make_readable-replace_file :
    (part dest : Text) (f : File) (t : Store)
    → get t part ≡ some f
    → make_readable dest (replace_file part dest (get t part) t)
      ≡ put (put (pop t part) dest f) dest (record f { mode = 420 })
unfolding make_readable replace_file change_file
make_readable-replace_file part dest f t h =
    simp (h, get-put (pop t part) dest dest f, text_eq_refl dest)

-- The store of a committed file, read anywhere.
pub get-committed :
    (part dest : Text) (f : File) (t : Store) (path : Text)
    → get (put (put (pop t part) dest f) dest (record f { mode = 420 })) path ≡ (
        if same dest path
        then some (record f { mode = 420 })
        else if same part path
        then none
        else get t path)
get-committed part dest f t path = ground (
  arith,
  get-put (put (pop t part) dest f) dest path (record f { mode = 420 }),
  get-put (pop t part) dest path f,
  get-pop t part path,
)

replace_file-get :
    (part dest : Text) (f : File) (t : Store)
    → get t part ≡ some f
    → replace_file part dest (get t part) t ≡ put (pop t part) dest f
unfolding replace_file
replace_file-get part dest f t h = rw h refl

get-replaced :
    (part dest : Text) (f : File) (t : Store) (path : Text)
    → get (put (pop t part) dest f) path
      ≡ (if same dest path then some f else if same part path then none else get t path)
get-replaced part dest f t path =
    ground (arith, get-put (pop t part) dest path f, get-pop t part path)

module _ (sha256 : Text → Text) (new_mode : ℕ) where
  pub verify-none :
      (task : DownloadTask) (w : Written)
      → verify sha256 new_mode task w ≡ none
      → w.bytes_written ≡ length w.hashed
      → IsVerified sha256 task w.hashed
  unfolding verify
  verify-none task w h c =
      let size = text_cases task.expected_sha256 in
      let digest = text_eq→eq (sha256 w.hashed) task.expected_sha256 in
      (ground (arith, c, h), ground (arith, h, size, digest))

  commit_file-Attempted :
      (task : DownloadTask) (attempt : ℕ) (headers : Dict Text Text) (v : Option AttemptError)
      (c : Commit) (w : Written) (s t : Store)
      → verify sha256 new_mode task w ≡ v
      → Open (part_path task.dest_path) new_mode t w
      → ((path : Text) → path ≢ part_path task.dest_path → get t path ≡ get s path)
      → Attempted sha256 new_mode task attempt s
          (commit_file sha256 new_mode task attempt headers v c w t)
  unfolding commit_file
  commit_file-Attempted task attempt headers (some e) c w s t h o k =
      inl (pop-Abandoned task s t e k)
  commit_file-Attempted task attempt headers none not_replaced w s t h o k =
      inl (k, λ n. absurd (n refl))
  commit_file-Attempted task attempt headers none not_chmodded w s t h o k =
      let part = part_path task.dest_path in
      let dest = task.dest_path in
      let f : File = record { content = w.hashed; mode = new_mode } in
      let read = get-replaced part dest f t in
      rw (replace_file-get part dest f t o.file) (
        inr (
          refl,
          read part ∙ simp (same_sym dest part (part_path-ne dest), text_eq_refl part),
          (w.hashed, read dest ∙ rw (text_eq_refl dest) refl, verify-none task w h o.counted),
          λ path n m. read path ∙ simp (ne-same dest path m, ne-same part path n) (k path n),
        ))
  commit_file-Attempted task attempt headers none committed w s t h o k =
      let part = part_path task.dest_path in
      let f : File = record { content = w.hashed; mode = new_mode } in
      let read = get-committed part task.dest_path f t in
      rw (make_readable-replace_file part task.dest_path f t o.file) (
        record {
          file = record { content = w.hashed; mode = 420 };
          stored = read task.dest_path ∙ rw (text_eq_refl task.dest_path) refl;
          mode = refl;
          verified = verify-none task w h o.counted;
          counted = o.counted;
          success = refl;
          named = refl;
        },
        refl,
        read part
            ∙ simp (same_sym task.dest_path part (part_path-ne task.dest_path), text_eq_refl part),
        λ path n m.
            read path ∙ simp (ne-same task.dest_path path m, ne-same part path n) (k path n),
      )

  fail_request-Attempted :
      (task : DownloadTask) (attempt : ℕ) (failure : Failure) (s t : Store)
      → ((path : Text) → path ≢ part_path task.dest_path → get t path ≡ get s path)
      → Attempted sha256 new_mode task attempt s (fail_request sha256 new_mode task failure t)
  unfolding fail_request
  fail_request-Attempted task attempt client_error s t k = inl (pop-Abandoned task s t network k)
  fail_request-Attempted task attempt interruption s t k = inl (k, λ n. absurd (n refl))

  end_body-Attempted :
      (task : DownloadTask) (attempt : ℕ) (headers : Dict Text Text) (body_end : BodyEnd)
      (w : Written) (s t : Store)
      → Open (part_path task.dest_path) new_mode t w
      → ((path : Text) → path ≢ part_path task.dest_path → get t path ≡ get s path)
      → Attempted sha256 new_mode task attempt s
          (end_body sha256 new_mode task attempt headers body_end w t)
  unfolding end_body
  end_body-Attempted task attempt headers (ends c) w s t o k =
      commit_file-Attempted task attempt headers _ c w s t refl o k
  end_body-Attempted task attempt headers (breaks_off failure) w s t o k =
      fail_request-Attempted task attempt failure s t k

  read_body-Attempted :
      (task : DownloadTask) (attempt : ℕ) (headers : Dict Text Text) (chunks : List Text)
      (body_end : BodyEnd) (e : Option AttemptError) (s t : Store)
      → ((path : Text) → path ≢ part_path task.dest_path → get t path ≡ get s path)
      → Attempted sha256 new_mode task attempt s
          (read_body sha256 new_mode task attempt headers chunks body_end e t)
  unfolding read_body
  read_body-Attempted task attempt headers chunks body_end (some e) s t k =
      inl (pop-Abandoned task s t e k)
  read_body-Attempted task attempt headers chunks body_end none s t k =
      let part = part_path task.dest_path in
      let empty : File = record { content = []; mode = new_mode } in
      let opened = put t part empty in
      let w : Written = record { hashed = []; bytes_written = 0 } in
      end_body-Attempted task attempt headers body_end _ s _
        (write_chunks-Open part new_mode chunks w opened (record {
          file = get-put t part part empty ∙ rw (text_eq_refl part) refl;
          counted = refl;
        }))
        (λ path n.
          write_chunks-other part chunks w opened path (ne-same part path n)
          ∙ get-put t part path empty
          ∙ rw (ne-same part path n) (k path n))

  receive-Attempted :
      (task : DownloadTask) (attempt : ℕ) (reply : Reply) (s t : Store)
      → Abandoned task s rate_limit_timeout t
      → Attempted sha256 new_mode task attempt s (receive sha256 new_mode task attempt reply t)
  unfolding receive
  receive-Attempted task attempt limiter_timeout s t k = inl k
  receive-Attempted task attempt (no_response failure) s t k =
      fail_request-Attempted task attempt failure s t k.0
  receive-Attempted task attempt (response status headers chunks body_end) s t k =
      read_body-Attempted task attempt headers chunks body_end (status_error status) s t k.0

  pub attempt_download-Attempted :
      (task : DownloadTask) (attempt : ℕ) (reply : Reply) (s : Store)
      → Attempted sha256 new_mode task attempt s
          (attempt_download sha256 new_mode task attempt reply s)
  unfolding attempt_download
  attempt_download-Attempted task attempt reply s =
      receive-Attempted task attempt reply s _
        (pop-Abandoned task s s rate_limit_timeout (λ path n. refl))
