-- ===== src/Tests/Engine.antt =====
-- Runs of the model of the mirror's engine and its table of files.
use debcraft.Prelude.{
  All, ℕ, zero, suc, ◌≡◌, refl, Bool, true, false, none, some, List, [], ◌∷◌, length, map, ok,
}
use debcraft.Prelude.Text.{Text, codes}
use debcraft.Prelude.Dict.{get, put}
use debcraft.Mirror.Sync.{FileEntry, deduplicate_entries}
use debcraft.Mirror.Download.{DownloadTask, DownloadResult}
use debcraft.Mirror.Files.{RepositoryFile, new_file, verified, run_batch, mark_failed}
use debcraft.Mirror.Files.Batches.{Committed, run_batch-Committed}
use debcraft.Mirror.Engine.{Engine, Outside, stage_artifacts, add_skipped}
use debcraft.Prelude.Lines.{split_on, join}
use debcraft.Prelude.Strip.{partition, strip, lstrip, rstrip, is_space, is_blank, all_space}
use debcraft.Prelude.Decimal.{int_of_text, digits_value}
use debcraft.Stanza.{
  split_stanzas, parse_stanza_fields, parse_without_continuations, first_loop, first_round,
  stanza_loop, stanza_round, close_stanza,
}
use debcraft.Mirror.Packages.{
  parse_packages, entries_of, extract_entry, entry_of, sized_entry, truthy,
}
use debcraft.Mirror.Packages.Printed.{IsListed, print_packages, parse-print_packages}
use debcraft.Mirror.Engine.Settled.{Succeeded, Succeeds, stage_artifacts-settles}

-- The first commit returns, the second one raises.
abbrev first_commit : ℕ → Bool
first_commit zero = true
first_commit (suc n) = false

abbrev failures : ℕ → List Text
failures zero = []
failures (suc n) = codes "u" ∷ failures n

run_batch-Committed_example :
    Committed mark_failed first_commit
      (failures 600)
      []
      (run_batch mark_failed first_commit (failures 600) [] [] 0 0)
run_batch-Committed_example = run_batch-Committed mark_failed first_commit (failures 600) []

abbrev bash_deb : FileEntry
bash_deb = record { relative_path = codes "pool/b"; sha256 = codes "aa"; size_bytes = 10 }

abbrev zsh_deb : FileEntry
zsh_deb = record { relative_path = codes "pool/z"; sha256 = codes "bb"; size_bytes = 20 }

abbrev listed : List FileEntry
listed = bash_deb ∷ zsh_deb ∷ bash_deb ∷ []

abbrev delivered : DownloadTask → DownloadResult
delivered task = record {
  url = task.url;
  success = true;
  sha256_verified = true;
  bytes_transferred = task.expected_size;
  error = none;
  retry_count = 0;
  status_code = none;
  response_headers = none;
}

abbrev sound : Outside
sound = record {
  creates = λ n. true;
  updates = λ n. true;
  marks = λ n. true;
  batch = λ tasks. ok (map delivered tasks);
}

abbrev empty_mirror : Engine
empty_mirror = record {
  result = record {
    files_downloaded = 0;
    files_skipped = 0;
    files_failed = 0;
    bytes_transferred = 0;
  };
  files = [];
}

abbrev base : Text
base = codes "http://deb"

abbrev root : Text
root = codes "/m"

abbrev row : FileEntry → Text → RepositoryFile
row entry path = record (new_file entry.sha256 entry.size_bytes verified) { local_path = some path }

abbrev mirrored : Engine
mirrored = record {
  result = record {
    files_downloaded = 2;
    files_skipped = 0;
    files_failed = 0;
    bytes_transferred = 30;
  };
  files =
      (codes "http://deb/pool/b", row bash_deb (codes "/m/pool/b"))
      ∷ (codes "http://deb/pool/z", row zsh_deb (codes "/m/pool/z"))
      ∷ [];
}

all_delivered : (tasks : List DownloadTask) → Succeeded tasks (map delivered tasks)
all_delivered [] = tt
all_delivered (task ∷ tasks) = (refl, all_delivered tasks)

sound-Succeeds : Succeeds base root sound
sound-Succeeds = record {
  creates = λ n. refl;
  updates = λ n. refl;
  batch = λ tasks. (map delivered tasks, refl, all_delivered tasks);
}

stage_artifacts-settles_example :
    (h : Engine) × (stage_artifacts sound base root listed empty_mirror ≡ (none, h))
    × (stage_artifacts sound base root listed h
        ≡ (none, record h { result = add_skipped (length (deduplicate_entries listed)) h.result }))
stage_artifacts-settles_example =
    stage_artifacts-settles base root sound sound bash_deb (zsh_deb ∷ bash_deb ∷ []) empty_mirror
      sound-Succeeds

listed-IsListed : All IsListed listed
unfolding is_space
listed-IsListed =
    let bash : IsListed bash_deb = record {
      path = (refl, (refl, (refl, (refl, (refl, (refl, tt))))));
      has_path = refl;
      sum = (refl, (refl, tt));
      has_sum = refl;
    } in
    let zsh : IsListed zsh_deb = record {
      path = (refl, (refl, (refl, (refl, (refl, (refl, tt))))));
      has_path = refl;
      sum = (refl, (refl, tt));
      has_sum = refl;
    } in
    (bash, (zsh, (bash, tt)))

parse-print_packages_example : parse_packages (print_packages listed) ≡ listed
parse-print_packages_example = parse-print_packages listed listed-IsListed

-- A stanza whose size is negative or no number is left out.
bad_sizes :
    parse_packages (
      codes
        "Filename: a\nSHA256: b\nSize: -1\n\nFilename: a\nSHA256: b\nSize: x\n\nFilename: c\nSHA256: d\nSize: 7\n")
    ≡ record { relative_path = codes "c"; sha256 = codes "d"; size_bytes = 7 } ∷ []
unfolding parse_packages entries_of extract_entry entry_of sized_entry truthy split_stanzas
    parse_stanza_fields parse_without_continuations first_loop first_round stanza_loop stanza_round
    close_stanza split_on join partition strip lstrip rstrip is_space is_blank all_space int_of_text
    digits_value get put
bad_sizes = refl
