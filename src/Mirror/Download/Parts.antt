-- ===== src/Mirror/Download/Parts.antt =====
-- What an attempt writes to the part of its file.
use debcraft.Prelude.{
  ℕ, ◌+◌, ◌≡◌, ◌≢◌, inl, inr, refl, sym, ◌∙◌, Bool, false, some, List, [], ◌∷◌, ◌++◌, append_assoc,
  append-nil, length, length-append, arith, Bool-cases, Option-cases,
}
use debcraft.Prelude.Text.{Text, list_text_eq, text_eq_refl, text_eq→eq}
use debcraft.Prelude.Dict.{get, put, get-put}
use debcraft.Mirror.Download.{Store, part_path, Written, append_file, change_file, write_chunks}

-- The content that the body's chunks make.
abbrev pub joined : List Text → Text
joined [] = []
joined (chunk ∷ chunks) = chunk ++ joined chunks

abbrev pub same : Text → Text → Bool
same = list_text_eq.same

-- Files other than those at the two paths are as they were.
abbrev pub Untouched : Text → Text → Store → Store → Type 0
Untouched first second s t = (path : Text) → path ≢ first → path ≢ second → get t path ≡ get s path

longer-ne : (base : Text) (c : ℕ) (more : Text) → same (base ++ c ∷ more) base ≡ false
longer-ne [] c more = refl
longer-ne (a ∷ base) c more = ground (arith, longer-ne base c more)

pub ne-same : (a b : Text) → b ≢ a → same a b ≡ false
ne-same a b h = elim (Bool-cases (same a b)) [
  | inl e ↦ absurd (h (sym (text_eq→eq a b e)))
  | inr e ↦ e
]

pub same_sym : (a b : Text) → same b a ≡ false → same a b ≡ false
same_sym a b h = ground (arith, list_text_eq.same_iff a b, list_text_eq.same_iff b a)

pub part_path-ne : (dest : Text) → same (part_path dest) dest ≡ false
part_path-ne dest = longer-ne dest _ _

-- The open file at the path, with what was hashed as its content.
pub record Open (path : Text) (mode : ℕ) (s : Store) (w : Written) : Type 0 where
  pub file : get s path ≡ some (record { content = w.hashed; mode = mode })
  pub counted : w.bytes_written ≡ length w.hashed

append_file-get :
    (path chunk : Text) (content : Text) (mode : ℕ) (s : Store)
    → get s path ≡ some (record { content = content; mode = mode })
    → append_file path chunk s ≡ put s path (record { content = content ++ chunk; mode = mode })
unfolding append_file change_file
append_file-get path chunk content mode s h = rw h

pub write_chunks-Open :
    (path : Text) (mode : ℕ) (chunks : List Text) (w : Written) (s : Store)
    → Open path mode s w
    → Open path mode (write_chunks path chunks w s).1 (write_chunks path chunks w s).0
unfolding write_chunks
write_chunks-Open path mode [] w s o = o
write_chunks-Open path mode (chunk ∷ chunks) w s o =
    write_chunks-Open path mode chunks
      (record { hashed = w.hashed ++ chunk; bytes_written = w.bytes_written + length chunk })
      (append_file path chunk s)
      (record {
        file = ground (
          arith,
          append_file-get path chunk w.hashed mode s o.file,
          get-put s path path (record { content = w.hashed ++ chunk; mode = mode }),
          text_eq_refl path,
        );
        counted = omega (arith, o.counted, length-append w.hashed chunk);
      })

pub write_chunks-hashed :
    (path : Text) (chunks : List Text) (w : Written) (s : Store)
    → ((write_chunks path chunks w s).0).hashed ≡ w.hashed ++ joined chunks
unfolding write_chunks
write_chunks-hashed path [] w s = sym (append-nil w.hashed)
write_chunks-hashed path (chunk ∷ chunks) w s =
    write_chunks-hashed path chunks
      (record { hashed = w.hashed ++ chunk; bytes_written = w.bytes_written + length chunk })
      (append_file path chunk s)
    ∙ append_assoc w.hashed chunk (joined chunks)

append_file-other :
    (path chunk p : Text) (s : Store)
    → same path p ≡ false
    → get (append_file path chunk s) p ≡ get s p
unfolding append_file change_file
append_file-other path chunk p s h = elim (Option-cases (get s path)) [
  | inl n ↦ simp n
  | inr (f, e) ↦ simp (e, get-put, h)
]

pub write_chunks-other :
    (path : Text) (chunks : List Text) (w : Written) (s : Store) (p : Text)
    → same path p ≡ false
    → get (write_chunks path chunks w s).1 p ≡ get s p
unfolding write_chunks
write_chunks-other path [] w s p h = refl
write_chunks-other path (chunk ∷ chunks) w s p h =
    write_chunks-other path chunks _ (append_file path chunk s) p h
    ∙ append_file-other path chunk p s h
