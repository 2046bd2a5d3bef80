-- ===== src/Tests/Mirror.antt =====
-- Runs of the models of the mirror.
use debcraft.Prelude.{
  ◌⊎◌, ℕ, ◌+◌, ◌-◌, ◌*◌, ◌≤◌, ◌≡◌, refl, arith, List, [], ◌∷◌, length, take, false,
}
use debcraft.Prelude.Text.{Text, codes}
use debcraft.Prelude.Dict.{Dict}
use debcraft.Mirror.Sync.{
  FileEntry, deduplicate_entries, unique_entries, generate_index_paths, index_paths_of, index_path,
}
use debcraft.Mirror.Sync.Unique.{find_entry, Distinct, deduplicate_entries_lem}
use debcraft.Mirror.RateLimiter.{
  Limiter, take_token, take_each, replenish, acquire_loop, sleep_time,
}
use debcraft.Mirror.RateLimiter.Throttle.{IsBounded, granted, take_each-granted}
use debcraft.Mirror.RateLimiter.Waiters.{changed_in, waiters-acquire}
use debcraft.Mirror.RateLimiter.{
  Round, Acquired, enters, cancels, acquire, end_round, leave, change_each, change_waiters,
  cancel_waiters, remove_waiter,
}
use debcraft.Mirror.RateLimiter.Waiting.{Timely, acquire_loop-Timely}
use debcraft.Mirror.RateLimiter.Alone.{alone, Served, acquire_loop-alone}

index_paths :
    generate_index_paths (codes "main" ∷ codes "contrib" ∷ []) (codes "amd64" ∷ codes "arm64" ∷ [])
    ≡ codes "main/binary-amd64/Packages.gz"
      ∷ codes "main/binary-arm64/Packages.gz"
      ∷ codes "contrib/binary-amd64/Packages.gz"
      ∷ codes "contrib/binary-arm64/Packages.gz"
      ∷ []
unfolding generate_index_paths index_paths_of index_path
index_paths = refl

abbrev bash_deb : FileEntry
bash_deb = record { relative_path = codes "pool/b"; sha256 = codes "aa"; size_bytes = 10 }

abbrev zsh_deb : FileEntry
zsh_deb = record { relative_path = codes "pool/z"; sha256 = codes "bb"; size_bytes = 20 }

abbrev remote : List FileEntry
remote = bash_deb ∷ zsh_deb ∷ bash_deb ∷ []

abbrev cache : Dict Text Text
cache = (codes "pool/z", codes "cc") ∷ []

twice_listed : deduplicate_entries remote ≡ bash_deb ∷ zsh_deb ∷ []
unfolding deduplicate_entries unique_entries
twice_listed = refl

deduplicate_entries_example :
    Distinct (deduplicate_entries remote)
    × ((path : Text) → find_entry (deduplicate_entries remote) path ≡ find_entry remote path)
deduplicate_entries_example = deduplicate_entries_lem remote

-- Three tokens, one every 5 ticks, at time 100.
abbrev bucket : Limiter
bucket = record { tokens = 15; max_tokens = 3; period = 5; last_replenish = 100; waiters = [] }

abbrev attempts : List ℕ
attempts = 100 ∷ 101 ∷ 101 ∷ 102 ∷ 103 ∷ 106 ∷ []

four_granted : granted bucket attempts ≡ 4
unfolding granted take_token replenish
four_granted = refl

take_each-granted_example :
    (granted bucket attempts * 5 ≤ 3 * 5 + ((take_each bucket attempts).last_replenish - 100))
    × IsBounded (take_each bucket attempts)
take_each-granted_example = take_each-granted bucket attempts (omega arith)

abbrev empty_bucket : Limiter
empty_bucket = record { tokens = 0; max_tokens = 3; period = 5; last_replenish = 100; waiters = [] }

acquire_loop-Timely_example :
    Timely 110 (alone 101 102 107 ∷ []) (acquire_loop empty_bucket 110 (alone 101 102 107 ∷ [])).1
acquire_loop-Timely_example = acquire_loop-Timely (alone 101 102 107 ∷ []) empty_bucket 110

acquire_loop-alone_example :
    Served 110 107 (acquire_loop empty_bucket 110 (alone 101 102 107 ∷ alone 107 108 113 ∷ [])).1
unfolding sleep_time
acquire_loop-alone_example =
    acquire_loop-alone empty_bucket 110 101 102 107 107 108 113 [] (omega arith) (omega arith)
      (omega arith) (omega arith) (omega arith)

-- Another task enters before the first round and cancels all waiters before the second, and a third
-- one enters then.
abbrev crowded : List Round
crowded =
    record { others = []; changes = enters 8 ∷ []; now = 101; checked = 102; woken = 107 }
    ∷ record {
      others = [];
      changes = cancels ∷ enters 9 ∷ [];
      now = 107;
      checked = 108;
      woken = 113;
    }
    ∷ []

waiters-acquire_example :
    (n : ℕ) × (n ≤ length crowded)
    × (((acquire empty_bucket 7 100 60 crowded false).0).waiters ≡ changed_in [] (take n crowded))
    × ((((acquire empty_bucket 7 100 60 crowded false).1 ≡ Acquired.cancelled)
          × (n ≡ length crowded))
        ⊎ (1 ≤ n))
unfolding acquire leave acquire_loop end_round take_token replenish take_each change_each
    change_waiters cancel_waiters remove_waiter
waiters-acquire_example =
    waiters-acquire empty_bucket 7 100 60 crowded false refl ((refl, tt), ((tt, (refl, tt)), tt))
      (λ e. ground arith)
