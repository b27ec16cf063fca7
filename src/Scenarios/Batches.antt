-- ===== src/Scenarios/Batches.antt =====
-- src/compute-job-queue/queue.service.ts: a batch of twelve jobs, of which the second fails.
use stell_aiverse_backend.Prelude.{
  ℕ, ◌+◌, ◌≡◌, refl, Bool, true, false, List, [], ok, ◌==◌, ltb, if◌then◌else◌, Bool-cases, inl,
  inr,
}
use stell_aiverse_backend.BatchJobs.{Finish, succeeds, fails, BatchConfig, parallel, add_batch_job}
use stell_aiverse_backend.BatchJobs.Tally.{goes_on}
use stell_aiverse_backend.BatchJobs.Outcome.{whole, add_batch_job-outcome}
use stell_aiverse_backend.BatchJobs.Places.{names_place}

abbrev finishes : ℕ → Finish
finishes i = if i == 1 then fails 99 else succeeds (record { text = 500 + i; places = [] }) (i + 1)

-- The batch is cancelled while its fourth job runs.
abbrev is_cancelled : ℕ → Bool
is_cancelled i = i == 3

abbrev priority : ℕ → ℕ
priority i = if ltb i 6 then 10 else 2

abbrev same_order : List ℕ → List ℕ
same_order places = places

abbrev config : BatchConfig
config = record { strategy = parallel; max_concurrency = 5; continue_on_error = true }

goes_on_always : (j : ℕ) → goes_on finishes is_cancelled true j ≡ true
goes_on_always j = elim (Bool-cases (j == 1)) [ inl hit ↦ rw hit refl | inr miss ↦ rw miss refl ]

finishes-names_place : (k j : ℕ) → names_place j (finishes k) ≡ false
finishes-names_place k j = elim (Bool-cases (k == 1)) [
  | inl hit ↦ rw hit refl
  | inr miss ↦ rw miss refl
]

add_batch_job-outcome_example :
    add_batch_job finishes is_cancelled priority same_order config 12
    ≡ ok (whole finishes 12, false)
add_batch_job-outcome_example =
    add_batch_job-outcome finishes is_cancelled priority same_order config 11 (λ chunk j. refl)
      (λ j u. goes_on_always j) finishes-names_place
