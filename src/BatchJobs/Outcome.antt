-- ===== src/BatchJobs/Outcome.antt =====
-- src/compute-job-queue/queue.service.ts: the progress of a whole batch.
use stell_aiverse_backend.Prelude.{
  ℕ, zero, suc, ◌+◌, ◌≤◌, ◌<◌, ◌≡◌, refl, ap, Bool, true, false, List, [], ◌∷◌, ◌∙◌, arith,
  includes, map, count, ok,
}
use stell_aiverse_backend.BatchJobs.{
  completed, running, BatchJobProgress, Finish, process_places, process_in_parallel, pending_entry,
  upto, chunks_of, concurrency, initial_progress, insert_by, sort_by, BatchConfig, BatchStrategy,
  sequential, parallel, priority_based, process_batch, add_batch_job,
}
use stell_aiverse_backend.BatchJobs.Sums.{
  SamePlaces, count-upto, includes-count, successes-same, failures-same,
}
use stell_aiverse_backend.BatchJobs.Parallel.{concat, run_chunks-progress, chunks-SamePlaces}
use stell_aiverse_backend.BatchJobs.Places.{names_place, ended_entry, entries}
use stell_aiverse_backend.BatchJobs.Tally.{
  successes, failures, Goes, goes_on, Ready, add_done, progress, process_places-progress,
}

count-insert_by :
    (priority : ℕ → ℕ) (i j : ℕ) (places : List ℕ)
    → count j (insert_by priority i places) ≡ count j (i ∷ places)
count-insert_by priority i j [] = refl
count-insert_by priority i j (k ∷ places) = ground (arith, count-insert_by priority i j places)

count-sort_by :
    (priority : ℕ → ℕ) (j : ℕ) (places : List ℕ)
    → count j (sort_by priority places) ≡ count j places
count-sort_by priority j [] = refl
count-sort_by priority j (i ∷ places) =
    ground (
      arith,
      count-insert_by priority i j (sort_by priority places),
      count-sort_by priority j places,
    )

count-add_done :
    (j : ℕ) (places done : List ℕ) → count j (add_done places done) ≡ count j places + count j done
count-add_done j [] done = omega arith
count-add_done j (i ∷ places) done = ground (arith, count-add_done j places (i ∷ done))

entries-all :
    (finishes : ℕ → Finish) (done : List ℕ) (k n : ℕ)
    → ((j : ℕ) → k ≤ j → j < k + n → includes done j ≡ true)
    → entries finishes done k n ≡ map (λ i. ended_entry i (finishes i)) (upto k n)
entries-all finishes done k zero h = refl
entries-all finishes done k (suc n) h =
    rw
      (
        h k (omega arith) (omega arith),
        entries-all finishes done (k + 1) n (λ j l u. h j (omega (arith, l)) (omega (arith, u))),
      )
      refl

entries-none :
    (finishes : ℕ → Finish) (k n : ℕ) → entries finishes [] k n ≡ map pending_entry (upto k n)
entries-none finishes k zero = refl
entries-none finishes k (suc n) = rw (entries-none finishes (k + 1) n) refl

Ready-intro :
    (finishes : ℕ → Finish) (is_cancelled : ℕ → Bool) (continue_on_error : Bool) (n : ℕ)
    (done places : List ℕ)
    → ((j : ℕ) → count j done + count j places ≤ 1)
    → ((j : ℕ) → 0 < count j places → j < n)
    → ((j : ℕ) → j < n → Goes finishes is_cancelled continue_on_error j)
    → Ready finishes is_cancelled continue_on_error done n places
unfolding Ready
Ready-intro finishes is_cancelled continue_on_error n done [] c b g = tt
Ready-intro finishes is_cancelled continue_on_error n done (i ∷ places) c b g =
    let small : i < n = b i (ground arith) in
    (
      ground (arith, includes-count i done, c i),
      small,
      g i small,
      Ready-intro finishes is_cancelled continue_on_error n (i ∷ done) places
          (λ j. ground (arith, c j)) (λ j h. b j (ground arith)) g,
    )

zero_add : (m : ℕ) → 0 + m ≡ m
zero_add m = omega arith

-- The progress once all `n` jobs have ended.
abbrev pub whole : (ℕ → Finish) → ℕ → BatchJobProgress
whole finishes n = record {
  total_jobs = n;
  completed_jobs = successes finishes (upto 0 n);
  failed_jobs = failures finishes (upto 0 n);
  status = completed;
  results = map (λ i. ended_entry i (finishes i)) (upto 0 n);
}

module _ (finishes : ℕ → Finish) (is_cancelled : ℕ → Bool) (continue_on_error : Bool) where
  Ready-all :
      (n : ℕ) (places : List ℕ)
      → SamePlaces places (upto 0 n)
      → ((j : ℕ) → j < n → Goes finishes is_cancelled continue_on_error j)
      → Ready finishes is_cancelled continue_on_error [] n places
  Ready-all n places same g =
      Ready-intro finishes is_cancelled continue_on_error n [] places
        (λ j. ground (arith, same j, count-upto j 0 n))
        (λ j h. ground (arith, same j, count-upto j 0 n)) g

  -- The progress that the loops leave, whose places are in the order of the loops.
  progress-whole :
      (n : ℕ) (places : List ℕ)
      → SamePlaces places (upto 0 n)
      → progress finishes is_cancelled continue_on_error n
          (add_done places [])
          (0 + successes finishes places)
          (0 + failures finishes places)
          completed
        ≡ whole finishes n
  progress-whole n places same =
      let all = entries-all finishes (add_done places []) 0 n (λ j l u. ground (
        arith,
        includes-count j (add_done places []),
        count-add_done j places [],
        same j,
        count-upto j 0 n,
      )) in
      rw
        (
          all,
          zero_add (successes finishes places),
          zero_add (failures finishes places),
          successes-same finishes places n same,
          failures-same finishes places n same,
        )
        refl

  start-progress :
      (n : ℕ)
      → initial_progress n ≡ progress finishes is_cancelled continue_on_error n [] 0 0 running
  start-progress n = rw (entries-none finishes 0 n) refl

  process_places-all :
      (n : ℕ) (places : List ℕ)
      → SamePlaces places (upto 0 n)
      → ((j : ℕ) → j < n → Goes finishes is_cancelled continue_on_error j)
      → process_places finishes is_cancelled continue_on_error places (initial_progress n)
        ≡ (whole finishes n, false)
  process_places-all n places same g =
      ap (process_places finishes is_cancelled continue_on_error places) (start-progress n)
      ∙ process_places-progress finishes is_cancelled continue_on_error n places [] 0 0 running
          (Ready-all n places same g)
      ∙ ap (λ p. (p, false)) (progress-whole n places same)

  process_in_parallel-all :
      (n : ℕ) (chunks : List (List ℕ))
      → SamePlaces (concat chunks) (upto 0 n)
      → ((j : ℕ) → j < n → Goes finishes is_cancelled continue_on_error j)
      → process_in_parallel finishes is_cancelled continue_on_error chunks (initial_progress n)
        ≡ (whole finishes n, false)
  process_in_parallel-all n chunks same g =
      ap (process_in_parallel finishes is_cancelled continue_on_error chunks) (start-progress n)
      ∙ run_chunks-progress finishes is_cancelled continue_on_error n chunks [] 0 0 running
          (Ready-all n (concat chunks) same g)
      ∙ ap (λ p. (p, false)) (progress-whole n (concat chunks) same)

concurrency-positive : (c : BatchConfig) → 0 < concurrency c
concurrency-positive c = ground arith

process_batch-all :
    (finishes : ℕ → Finish) (is_cancelled : ℕ → Bool) (priority : ℕ → ℕ) (order : List ℕ → List ℕ)
    (c : BatchConfig) (n : ℕ) (strategy : BatchStrategy)
    → ((chunk : List ℕ) → SamePlaces (order chunk) chunk)
    → ((j : ℕ) → j < n → Goes finishes is_cancelled c.continue_on_error j)
    → process_batch finishes is_cancelled priority order c n strategy ≡ (whole finishes n, false)
unfolding process_batch
process_batch-all finishes is_cancelled priority order c n sequential o g =
    process_places-all finishes is_cancelled c.continue_on_error n (upto 0 n) (λ j. refl) g
process_batch-all finishes is_cancelled priority order c n parallel o g =
    process_in_parallel-all finishes is_cancelled c.continue_on_error n
      (map order (chunks_of n (concurrency c) 0 n))
      (chunks-SamePlaces order (concurrency c) n o (concurrency-positive c)) g
process_batch-all finishes is_cancelled priority order c n priority_based o g =
    process_places-all finishes is_cancelled c.continue_on_error n (sort_by priority (upto 0 n))
      (λ j. count-sort_by priority j (upto 0 n)) g

-- Whatever the strategy, a batch of distinct jobs ends as completed, even where it was cancelled on the
-- way: each job's outcome stands at its own place of the results and the two counts are those of the
-- outcomes, if no job fails or the batch goes on after errors, each chunk's jobs end in some order, and
-- no id that the queue gives includes the text `-job-<i>` for a number.
pub add_batch_job-outcome :
    (finishes : ℕ → Finish) (is_cancelled : ℕ → Bool) (priority : ℕ → ℕ) (order : List ℕ → List ℕ)
    (c : BatchConfig) (n : ℕ)
    → ((chunk : List ℕ) → SamePlaces (order chunk) chunk)
    → ((j : ℕ) → j < suc n → goes_on finishes is_cancelled c.continue_on_error j ≡ true)
    → ((k j : ℕ) → names_place j (finishes k) ≡ false)
    → add_batch_job finishes is_cancelled priority order c (suc n)
      ≡ ok (whole finishes (suc n), false)
unfolding add_batch_job
add_batch_job-outcome finishes is_cancelled priority order c n o g clean =
    rw
      (process_batch-all finishes is_cancelled priority order c (suc n) c.strategy o
        (λ j u. (g j u, clean)))
      refl
