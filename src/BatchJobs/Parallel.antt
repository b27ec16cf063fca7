-- ===== src/BatchJobs/Parallel.antt =====
-- src/compute-job-queue/queue.service.ts: jobs that run in chunks.
use stell_aiverse_backend.Prelude.{
  ℕ, zero, suc, ◌+◌, ◌-◌, ◌≤◌, ◌<◌, ◌≡◌, refl, inl, inr, Bool, false, ◌&&◌, List, [], ◌∷◌, ◌++◌,
  arith, ltb, leb, if◌then◌else◌, Bool-cases, count, count-append, map, min,
}
use stell_aiverse_backend.BatchJobs.{
  BatchStatus, cancelled, Finish, run_chunk, run_chunks, process_in_parallel, chunks_of, upto,
  completed,
}
use stell_aiverse_backend.BatchJobs.Tally.{
  is_success, successes, failures, progress, Ready, add_done, run_job-progress, add_one, add_none,
}
use stell_aiverse_backend.BatchJobs.Sums.{SamePlaces, count-upto}

abbrev pub concat : List (List ℕ) → List ℕ
concat [] = []
concat (chunk ∷ chunks) = chunk ++ concat chunks

add_done-append :
    (front back done : List ℕ) → add_done (front ++ back) done ≡ add_done back (add_done front done)
add_done-append [] back done = refl
add_done-append (i ∷ front) back done = add_done-append front back (i ∷ done)

successes-append :
    (finishes : ℕ → Finish) (front back : List ℕ)
    → successes finishes (front ++ back) ≡ successes finishes front + successes finishes back
successes-append finishes [] back = omega arith
successes-append finishes (i ∷ front) back = ground (arith, successes-append finishes front back)

failures-append :
    (finishes : ℕ → Finish) (front back : List ℕ)
    → failures finishes (front ++ back) ≡ failures finishes front + failures finishes back
failures-append finishes [] back = omega arith
failures-append finishes (i ∷ front) back = ground (arith, failures-append finishes front back)

module _ (finishes : ℕ → Finish) (is_cancelled : ℕ → Bool) (continue_on_error : Bool) where
  Ready-append :
      (n : ℕ) (front back done : List ℕ)
      → Ready finishes is_cancelled continue_on_error done n (front ++ back)
      → Ready finishes is_cancelled continue_on_error done n front
        × Ready finishes is_cancelled continue_on_error (add_done front done) n back
  unfolding Ready
  Ready-append n [] back done h = (tt, h)
  Ready-append n (i ∷ front) back done (d, u, g, h) =
      let (first, rest) = Ready-append n front back (i ∷ done) h in ((d, u, g, first), rest)

  status_after : List ℕ → BatchStatus → BatchStatus
  status_after [] status = status
  status_after (i ∷ places) status =
      status_after places (if is_cancelled i then cancelled else status)

  run_chunk-progress :
      (n : ℕ) (places done : List ℕ) (s b : ℕ) (status : BatchStatus)
      → Ready finishes is_cancelled continue_on_error done n places
      → run_chunk finishes is_cancelled continue_on_error places
          (progress finishes is_cancelled continue_on_error n done s b status)
        ≡ (
          progress finishes is_cancelled continue_on_error n
              (add_done places done)
              (s + successes finishes places)
              (b + failures finishes places)
              (status_after places status),
          false,
        )
  unfolding run_chunk Ready status_after
  run_chunk-progress n [] done s b status h =
      let same_s : s + 0 ≡ s = omega arith in
      let same_b : b + 0 ≡ b = omega arith in rw (same_s, same_b) refl
  run_chunk-progress n (i ∷ places) done s b status (d, u, g, h) =
      let more_s = add_one s (successes finishes places) (is_success (finishes i)) in
      let more_b = add_none b (failures finishes places) (is_success (finishes i)) in
      let rest =
        run_chunk-progress n places (i ∷ done) (if is_success (finishes i) then s + 1 else s)
          (if is_success (finishes i) then b else b + 1)
          (if is_cancelled i then cancelled else status) h in
      rw
        (
          run_job-progress finishes is_cancelled continue_on_error n done s b i status g d u,
          rest,
          more_s,
          more_b,
        )
        refl

  pub run_chunks-progress :
      (n : ℕ) (chunks : List (List ℕ)) (done : List ℕ) (s b : ℕ) (status : BatchStatus)
      → Ready finishes is_cancelled continue_on_error done n (concat chunks)
      → process_in_parallel finishes is_cancelled continue_on_error chunks
          (progress finishes is_cancelled continue_on_error n done s b status)
        ≡ (
          progress finishes is_cancelled continue_on_error n
              (add_done (concat chunks) done)
              (s + successes finishes (concat chunks))
              (b + failures finishes (concat chunks))
              completed,
          false,
        )
  unfolding process_in_parallel run_chunks
  run_chunks-progress n [] done s b status h =
      let same_s : s + 0 ≡ s = omega arith in
      let same_b : b + 0 ≡ b = omega arith in rw (same_s, same_b) refl
  run_chunks-progress n (chunk ∷ chunks) done s b status h =
      let (first, rest) = Ready-append n chunk (concat chunks) done h in
      let ran = run_chunk-progress n chunk done s b status first in
      let more =
        run_chunks-progress n chunks (add_done chunk done) (s + successes finishes chunk)
          (b + failures finishes chunk) (status_after chunk status) rest in
      let sum_s : s + successes finishes (chunk ++ concat chunks)
          ≡ s + successes finishes chunk + successes finishes (concat chunks) =
        omega (arith, successes-append finishes chunk (concat chunks)) in
      let sum_b : b + failures finishes (chunk ++ concat chunks)
          ≡ b + failures finishes chunk + failures finishes (concat chunks) =
        omega (arith, failures-append finishes chunk (concat chunks)) in
      rw (ran, add_done-append chunk (concat chunks) done, sum_s, sum_b) more

-- Each place of the batch is in one chunk, once.
count-chunks :
    (order : List ℕ → List ℕ) (fuel concurrency i n j : ℕ)
    → ((chunk : List ℕ) → SamePlaces (order chunk) chunk)
    → 0 < concurrency
    → n ≤ i + fuel
    → count j (concat (map order (chunks_of fuel concurrency i n)))
      ≡ (if leb i j && ltb j n then 1 else 0)
unfolding chunks_of
count-chunks order zero c i n j o p f = ground arith
count-chunks order (suc fuel) c i n j o p f = elim (Bool-cases (ltb i n)) [
  | inr over ↦ rw over (ground arith)
  | inl more ↦
      let rest = count-chunks order fuel c (i + c) n j o p (omega arith) in
      let here = o (upto i (min c (n - i))) j in
      let run_ = count-upto j i (min c (n - i)) in
      rw
        (
          more,
          count-append j (order (upto i (min c (n - i))))
              (concat (map order (chunks_of fuel c (i + c) n))),
          rest,
          here,
          run_,
        )
        (ground arith)
]

pub chunks-SamePlaces :
    (order : List ℕ → List ℕ) (concurrency n : ℕ)
    → ((chunk : List ℕ) → SamePlaces (order chunk) chunk)
    → 0 < concurrency
    → SamePlaces (concat (map order (chunks_of n concurrency 0 n))) (upto 0 n)
chunks-SamePlaces order c n o p =
    λ j. ground (arith, count-chunks order n c 0 n j o p (omega arith), count-upto j 0 n)
