-- ===== src/BatchJobs.antt =====
-- src/compute-job-queue/queue.service.ts, the batches: how `addBatchJob` runs the jobs of a batch and
-- keeps its progress. Adding a job to the Bull queue and awaiting its end is a parameter, `finishes`.
-- The progress of one batch is modelled, which the map of the service holds under the batch's id. Job
-- types, payloads, group keys and times are not: they do not decide what happens. An id of
-- the queue, which may hold text of a client's, comes with the numbers `i` whose `-job-<i>` it includes;
-- the id of the batch, which is generated, includes none. The jobs are distinct objects, as those of a
-- parsed request are, so that `jobs.indexOf` gives a job's own place.
pub mod Tally
pub mod Places
pub mod Sums
pub mod Parallel
pub mod Outcome
use stell_aiverse_backend.Prelude.{
  ℕ, zero, suc, ◌+◌, ◌-◌, ◌/◌, Bool, true, false, ◌&&◌, ◌||◌, List, [], ◌∷◌, ◌++◌, Option, none,
  some, ltb, leb, ◌==◌, if◌then◌else◌, min, includes, Result, ok, err, map,
}

pub data BatchStatus : Type 0 where
  running : BatchStatus
  completed : BatchStatus
  failed : BatchStatus
  cancelled : BatchStatus

-- An id that the queue gave, and the numbers `i` whose `-job-<i>` it includes.
pub record QueueId : Type 0 where
  pub text : ℕ
  pub places : List ℕ

-- `own i` is the text `<batch>-job-<i>`.
pub data JobId : Type 0 where
  own : ℕ → JobId
  queued : QueueId → JobId

pub data EntryStatus : Type 0 where
  pending : EntryStatus
  succeeded : ℕ → EntryStatus
  broken : ℕ → EntryStatus

pub record Entry : Type 0 where
  pub job_id : JobId
  pub original_job_id : Option ℕ
  pub status : EntryStatus

pub record BatchJobProgress : Type 0 where
  pub total_jobs : ℕ
  pub completed_jobs : ℕ
  pub failed_jobs : ℕ
  pub status : BatchStatus
  pub results : List Entry

-- What comes of a job: its id in the queue with its result, or an error.
pub data Finish : Type 0 where
  succeeds : QueueId → ℕ → Finish
  fails : ℕ → Finish

-- The decimal text of `i` is a prefix of the decimal text of `j`, on fuel that `j` is enough for.
unfoldable pub is_prefix : ℕ → ℕ → ℕ → Bool
is_prefix zero i j = i == j
is_prefix (suc fuel) i j = let rest = is_prefix fuel i (j / 10) in i == j || (leb 10 j && rest)

-- `r.jobId.includes(`-job-${i}`)`
unfoldable pub is_job : ℕ → JobId → Bool
unfolding is_prefix
is_job i (own j) = is_prefix j i j
is_job i (queued q) = includes q.places i

-- `findIndex` with the write to the place that it finds; the flag tells whether it finds one.
unfoldable pub write_first : ℕ → (Entry → Entry) → List Entry → List Entry × Bool
unfolding is_job
write_first i f [] = ([], false)
write_first i f (e ∷ es) =
    let (rest, found) = write_first i f es in
    if is_job i e.job_id then (f e ∷ es, true) else (e ∷ rest, found)

unfoldable pub record_success : ℕ → QueueId → ℕ → BatchJobProgress → BatchJobProgress
unfolding write_first
record_success i job_id result p =
    let (results, found) =
      write_first i
        (λ e. record {
          job_id = queued job_id;
          original_job_id = some i;
          status = succeeded result;
        })
        p.results in
    if found then record p { results = results; completed_jobs = p.completed_jobs + 1 } else p

-- The progress, and whether the error is thrown on.
unfoldable pub record_failure : Bool → ℕ → ℕ → BatchJobProgress → BatchJobProgress × Bool
unfolding write_first
record_failure continue_on_error i error p =
    let (results, found) =
      write_first i (λ e. record e { job_id = own i; status = broken error }) p.results in
    let counted = record p { results = results; failed_jobs = p.failed_jobs + 1 } in
    if found
    then (if continue_on_error
        then (counted, false)
        else (record counted { status = failed }, true))
    else (p, false)

-- `cancelBatchJob`, on the same object
unfoldable pub cancel_batch_job : BatchJobProgress → BatchJobProgress
cancel_batch_job p = record p { status = cancelled }

-- `finishes i` is what comes of the job at place `i`, `is_cancelled i` tells whether the batch is
-- cancelled while that job runs.
module _ (finishes : ℕ → Finish) (is_cancelled : ℕ → Bool) (continue_on_error : Bool) where
  abbrev pub recorded : ℕ → Finish → BatchJobProgress → BatchJobProgress × Bool
  recorded i (succeeds job_id result) p = (record_success i job_id result p, false)
  recorded i (fails error) p = record_failure continue_on_error i error p

  -- A round of the loop for the job at place `i`.
  unfoldable pub run_job : ℕ → BatchJobProgress → BatchJobProgress × Bool
  unfolding record_success record_failure cancel_batch_job
  run_job i p = recorded i (finishes i) (if is_cancelled i then cancel_batch_job p else p)

  -- The rounds for the jobs at these places; an error that is thrown ends the loop.
  unfoldable pub run_jobs : List ℕ → BatchJobProgress → BatchJobProgress × Bool
  unfolding run_job
  run_jobs [] p = (p, false)
  run_jobs (i ∷ places) p =
      let (p', thrown) = run_job i p in
      let rest = run_jobs places p' in if thrown then (p', true) else rest

  abbrev pub ended : BatchJobProgress × Bool → BatchJobProgress × Bool
  ended (p, thrown) = if thrown then (p, true) else (record p { status = completed }, false)

  -- The loop over places, and its end.
  unfoldable pub process_places : List ℕ → BatchJobProgress → BatchJobProgress × Bool
  unfolding run_jobs
  process_places places p = ended (run_jobs places p)

  -- A chunk of `processInParallel`, its jobs in the order in which they end: an error that one throws
  -- rejects the chunk, and the others run on.
  unfoldable pub run_chunk : List ℕ → BatchJobProgress → BatchJobProgress × Bool
  unfolding run_job
  run_chunk [] p = (p, false)
  run_chunk (i ∷ places) p =
      let (p', thrown) = run_job i p in
      let (p'', later) = run_chunk places p' in (p'', thrown || later)

  unfoldable pub run_chunks : List (List ℕ) → BatchJobProgress → BatchJobProgress × Bool
  unfolding run_chunk
  run_chunks [] p = (p, false)
  run_chunks (chunk ∷ chunks) p =
      let (p', thrown) = run_chunk chunk p in
      let rest = run_chunks chunks p' in if thrown then (p', true) else rest

  unfoldable pub process_in_parallel : List (List ℕ) → BatchJobProgress → BatchJobProgress × Bool
  unfolding run_chunks
  process_in_parallel chunks p = ended (run_chunks chunks p)

abbrev pub upto : ℕ → ℕ → List ℕ
upto i zero = []
upto i (suc n) = i ∷ upto (i + 1) n

-- `jobs.slice(i, i + concurrency)` for `i` in steps of the concurrency, on fuel that the number of the
-- jobs is enough for where the concurrency is not 0.
unfoldable pub chunks_of : ℕ → ℕ → ℕ → ℕ → List (List ℕ)
chunks_of zero concurrency i n = []
chunks_of (suc fuel) concurrency i n =
    let rest = chunks_of fuel concurrency (i + concurrency) n in
    if ltb i n then upto i (min concurrency (n - i)) ∷ rest else []

-- The sort by priority, stable; `priority i` is `jobs[i].priority ?? 10`.
abbrev pub insert_by : (ℕ → ℕ) → ℕ → List ℕ → List ℕ
insert_by priority i [] = i ∷ []
insert_by priority i (j ∷ places) =
    if leb (priority i) (priority j) then i ∷ j ∷ places else j ∷ insert_by priority i places

abbrev pub sort_by : (ℕ → ℕ) → List ℕ → List ℕ
sort_by priority [] = []
sort_by priority (i ∷ places) = insert_by priority i (sort_by priority places)

pub data BatchStrategy : Type 0 where
  sequential : BatchStrategy
  parallel : BatchStrategy
  priority_based : BatchStrategy

pub record BatchConfig : Type 0 where
  pub strategy : BatchStrategy
  pub max_concurrency : ℕ
  pub continue_on_error : Bool

abbrev pub pending_entry : ℕ → Entry
pending_entry i = record { job_id = own i; original_job_id = none; status = pending }

abbrev pub initial_progress : ℕ → BatchJobProgress
initial_progress n = record {
  total_jobs = n;
  completed_jobs = 0;
  failed_jobs = 0;
  status = running;
  results = map pending_entry (upto 0 n);
}

pub data BatchError : Type 0 where
  no_jobs : BatchError

-- `config.maxConcurrency || 5`
abbrev pub concurrency : BatchConfig → ℕ
concurrency c = if c.max_concurrency == 0 then 5 else c.max_concurrency

-- `order` is the order in which the jobs of a chunk end.
unfoldable pub process_batch :
    (ℕ → Finish)
    → (ℕ → Bool)
    → (ℕ → ℕ)
    → (List ℕ → List ℕ)
    → BatchConfig
    → ℕ
    → BatchStrategy
    → BatchJobProgress × Bool
unfolding process_places process_in_parallel chunks_of
process_batch finishes is_cancelled priority order c n sequential =
    process_places finishes is_cancelled c.continue_on_error (upto 0 n) (initial_progress n)
process_batch finishes is_cancelled priority order c n parallel =
    process_in_parallel finishes is_cancelled c.continue_on_error
      (map order (chunks_of n (concurrency c) 0 n)) (initial_progress n)
process_batch finishes is_cancelled priority order c n priority_based =
    process_places finishes is_cancelled c.continue_on_error (sort_by priority (upto 0 n))
      (initial_progress n)

-- The last progress, and whether `addBatchJob` throws a job's error on.
unfoldable pub add_batch_job :
    (ℕ → Finish)
    → (ℕ → Bool)
    → (ℕ → ℕ)
    → (List ℕ → List ℕ)
    → BatchConfig
    → ℕ
    → Result BatchError (BatchJobProgress × Bool)
unfolding process_batch
add_batch_job finishes is_cancelled priority order c zero = err no_jobs
add_batch_job finishes is_cancelled priority order c (suc n) =
    let (p, thrown) = process_batch finishes is_cancelled priority order c (suc n) c.strategy in
    ok (if thrown then (record p { status = failed }, true) else (p, false))
