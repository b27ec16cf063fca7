-- ===== src/BatchJobs/Tally.antt =====
-- src/compute-job-queue/queue.service.ts: what the progress of a batch says once its jobs have ended.
use stell_aiverse_backend.Prelude.{
  ℕ, ◌+◌, ◌<◌, ◌≡◌, refl, inl, inr, Bool, true, false, ◌||◌, List, [], ◌∷◌, arith, if◌then◌else◌,
  Bool-cases, includes, some,
}
use stell_aiverse_backend.BatchJobs.{
  BatchStatus, completed, cancelled, BatchJobProgress, Finish, succeeds, fails, record_success,
  record_failure, cancel_batch_job, recorded, run_job, run_jobs, process_places, queued, own,
  succeeded, broken,
}
use stell_aiverse_backend.BatchJobs.Places.{entries, names_place, write_first-entries}

abbrev pub is_success : Finish → Bool
is_success (succeeds job_id result) = true
is_success (fails error) = false

abbrev pub successes : (ℕ → Finish) → List ℕ → ℕ
successes finishes [] = 0
successes finishes (i ∷ places) =
    (if is_success (finishes i) then 1 else 0) + successes finishes places

abbrev pub failures : (ℕ → Finish) → List ℕ → ℕ
failures finishes [] = 0
failures finishes (i ∷ places) =
    (if is_success (finishes i) then 0 else 1) + failures finishes places

abbrev pub add_done : List ℕ → List ℕ → List ℕ
add_done [] done = done
add_done (i ∷ places) done = add_done places (i ∷ done)

pub add_one : (a m : ℕ) (x : Bool) → a + ((if x then 1 else 0) + m) ≡ (if x then a + 1 else a) + m
add_one a m x = ground arith

pub add_none : (a m : ℕ) (x : Bool) → a + ((if x then 0 else 1) + m) ≡ (if x then a else a + 1) + m
add_none a m x = ground arith

module _ (finishes : ℕ → Finish) (is_cancelled : ℕ → Bool) (continue_on_error : Bool) where
  -- The progress of `n` jobs when those at the places `done` have ended.
  abbrev pub progress : ℕ → List ℕ → ℕ → ℕ → BatchStatus → BatchJobProgress
  progress n done good bad status = record {
    total_jobs = n;
    completed_jobs = good;
    failed_jobs = bad;
    status = status;
    results = entries finishes done 0 n;
  }

  -- The loop goes on after the job.
  abbrev pub goes_on : ℕ → Bool
  goes_on i = is_success (finishes i) || continue_on_error

  -- It does, and no id of the queue includes the text of a place.
  abbrev pub Goes : ℕ → Type 0
  Goes i = (goes_on i ≡ true) × ((k j : ℕ) → names_place j (finishes k) ≡ false)

  recorded-progress :
      (n : ℕ) (done : List ℕ) (s b i : ℕ) (status : BatchStatus) (o : Finish)
      → finishes i ≡ o
      → (is_success o || continue_on_error) ≡ true
      → ((j : ℕ) → names_place i (finishes j) ≡ false)
      → includes done i ≡ false
      → i < n
      → recorded finishes is_cancelled continue_on_error i o (progress n done s b status) ≡ (
        progress n
            (i ∷ done)
            (if is_success o then s + 1 else s)
            (if is_success o then b else b + 1)
            status,
        false,
      )
  unfolding record_success record_failure
  recorded-progress n done s b i status (succeeds job_id result) e g c d u =
      let written =
        write_first-entries finishes done i 0 n
          (λ entry. record {
            job_id = queued job_id;
            original_job_id = some i;
            status = succeeded result;
          })
          d (omega arith) (omega (arith, u)) (rw e refl) c in
      rw (record_success, written) refl
  recorded-progress n done s b i status (fails error) e g c d u =
      let written =
        write_first-entries finishes done i 0 n
          (λ entry. record entry { job_id = own i; status = broken error }) d (omega arith)
          (omega (arith, u)) (rw e refl) c in
      rw (record_failure, written, g) refl

  -- What the places leave to be done after a round.
  unfoldable pub Ready : List ℕ → ℕ → List ℕ → Type 0
  Ready done n [] = Unit
  Ready done n (i ∷ places) =
      (includes done i ≡ false) × (i < n) × Goes i × Ready (i ∷ done) n places

  pub run_job-progress :
      (n : ℕ) (done : List ℕ) (s b i : ℕ) (status : BatchStatus)
      → Goes i
      → includes done i ≡ false
      → i < n
      → run_job finishes is_cancelled continue_on_error i (progress n done s b status) ≡ (
        progress n
            (i ∷ done)
            (if is_success (finishes i) then s + 1 else s)
            (if is_success (finishes i) then b else b + 1)
            (if is_cancelled i then cancelled else status),
        false,
      )
  unfolding run_job cancel_batch_job
  run_job-progress n done s b i status g d u = elim (Bool-cases (is_cancelled i)) [
    | inl hit ↦
        rw (hit, recorded-progress n done s b i cancelled (finishes i) refl g.0 (λ k. g.1 k i) d u)
          refl
    | inr miss ↦
        rw (miss, recorded-progress n done s b i status (finishes i) refl g.0 (λ k. g.1 k i) d u)
          refl
  ]

  pub process_places-progress :
      (n : ℕ) (places done : List ℕ) (s b : ℕ) (status : BatchStatus)
      → Ready done n places
      → process_places finishes is_cancelled continue_on_error places (progress n done s b status)
        ≡ (
          progress n
              (add_done places done)
              (s + successes finishes places)
              (b + failures finishes places)
              completed,
          false,
        )
  unfolding process_places run_jobs Ready
  process_places-progress n [] done s b status h =
      let same_s : s + 0 ≡ s = omega arith in
      let same_b : b + 0 ≡ b = omega arith in rw (same_s, same_b) refl
  process_places-progress n (i ∷ places) done s b status (d, u, g, h) =
      let more_s = add_one s (successes finishes places) (is_success (finishes i)) in
      let more_b = add_none b (failures finishes places) (is_success (finishes i)) in
      rw (run_job-progress n done s b i status g d u, more_s, more_b)
        (process_places-progress n places (i ∷ done) (if is_success (finishes i) then s + 1 else s)
          (if is_success (finishes i) then b else b + 1)
          (if is_cancelled i then cancelled else status) h)
