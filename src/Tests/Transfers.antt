-- ===== src/Tests/Transfers.antt =====
-- Runs of the models of the mirror's downloads.
use debcraft.Prelude.{
  ℕ, zero, suc, ◌≤◌, ◌<◌, ◌≡◌, refl, inr, arith, Bool, true, Option, none, some, List, [], ◌∷◌,
  length, Result, ok, err,
}
use debcraft.Prelude.Text.{Text, codes}
use debcraft.Mirror.Download.{
  Store, DownloadTask, client_error, ends, committed, Reply, no_response, response, AttemptError,
  DownloadResult,
}
use debcraft.Mirror.Transfers.{Environment, download_file, check_conditional}
use debcraft.Mirror.Transfers.Settled.{Settled, download_file-Settled}
use debcraft.Mirror.Transfers.Backoff.{IsUniform, sum, pauses, download_file-Paced}
use debcraft.Mirror.Transfers.Transient.{Transient, unreachable, unavailable}
use debcraft.Mirror.Transfers.Retry.{Succeeds, download_file-Succeeds}

-- A digest that keeps its input.
abbrev digest : Text → Text
digest content = content

abbrev index_task : DownloadTask
index_task = record {
  url = codes "http://deb/Release";
  dest_path = codes "/m/Release";
  expected_sha256 = codes "hello";
  expected_size = 5;
}

abbrev old_files : Store
old_files =
    (codes "/m/Release", record { content = codes "old"; mode = 420 })
    ∷ (codes "/m/Release.part", record { content = codes "he"; mode = 384 })
    ∷ []

abbrev halves : List Text
halves = codes "hel" ∷ codes "lo" ∷ []

abbrev reply_at : ℕ → Reply
reply_at zero = no_response client_error
reply_at (suc zero) = response 503 [] [] (ends committed)
reply_at (suc (suc n)) = response 200 [] halves (ends committed)

abbrev flaky : Environment
flaky = record { reply = reply_at; uniform = λ attempt bound. bound }

flaky-IsUniform : IsUniform flaky
flaky-IsUniform attempt bound = omega arith

download_file-Settled_example :
    Settled digest 384 index_task old_files (download_file digest 384 flaky index_task old_files)
download_file-Settled_example = download_file-Settled digest 384 flaky index_task old_files

download_file-Paced_example :
    let r = download_file digest 384 flaky index_task old_files in
    (length (pauses r) ≤ 2)
    × (sum (pauses r) ≤ 22500)
    × ((d : DownloadResult) → r.0 ≡ ok d → d.retry_count ≡ length (pauses r))
download_file-Paced_example =
    download_file-Paced digest 384 flaky index_task old_files flaky-IsUniform

reply_at-Transient : (j : ℕ) → j < 2 → Transient digest index_task (reply_at j)
reply_at-Transient zero h = unreachable
reply_at-Transient (suc zero) h = unavailable 503 [] [] (ends committed) (omega arith)
reply_at-Transient (suc (suc j)) h = absurd (omega (arith, h))

download_file-Succeeds_example :
    Succeeds digest 384 flaky index_task halves 2
      (download_file digest 384 flaky index_task old_files)
download_file-Succeeds_example =
    download_file-Succeeds digest 384 flaky index_task halves 2 old_files (omega arith)
      reply_at-Transient
      (record {
        status = 200;
        headers = [];
        is_response = refl;
        accepted = omega arith;
        verified = (inr refl, inr refl);
      })

-- With the status 404 the batch has a failed result at once.
abbrev gone : ℕ → Environment
gone i = record {
  reply = λ attempt. response 404 [] [] (ends committed);
  uniform = λ attempt bound. 0;
}

abbrev first_success : Result AttemptError (List DownloadResult) → Option Bool
first_success (err e) = none
first_success (ok []) = none
first_success (ok (r ∷ rs)) = some r.success

conditional : check_conditional (some 304) ≡ true
unfolding check_conditional
conditional = refl
