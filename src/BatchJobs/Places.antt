-- ===== src/BatchJobs/Places.antt =====
-- src/compute-job-queue/queue.service.ts: which entry of the results a finished job is written to.
use stell_aiverse_backend.Prelude.{
  ℕ, zero, suc, ◌+◌, ◌/◌, ◌≤◌, ◌<◌, ◌≡◌, refl, Bool, inl, inr, true, false, List, [], ◌∷◌, none,
  some, arith, ◌==◌, ==_refl, if◌then◌else◌, Bool-cases, includes,
}
use stell_aiverse_backend.BatchJobs.{
  own, queued, succeeded, broken, Entry, Finish, succeeds, fails, is_prefix, is_job, write_first,
  pending_entry,
}

is_prefix-less : (fuel i j : ℕ) → j < i → is_prefix fuel i j ≡ false
unfolding is_prefix
is_prefix-less zero i j h = ground arith
is_prefix-less (suc fuel) i j h =
    let shorter : j / 10 < i = omega arith in
    rw (is_prefix-less fuel i (j / 10) shorter) (ground arith)

is_prefix_self : (fuel i : ℕ) → is_prefix fuel i i ≡ true
unfolding is_prefix
is_prefix_self zero i = ==_refl i
is_prefix_self (suc fuel) i = rw (==_refl i) refl

-- The entry of the job at place `i` once the job has ended.
abbrev pub ended_entry : ℕ → Finish → Entry
ended_entry i (succeeds job_id result) = record {
  job_id = queued job_id;
  original_job_id = some i;
  status = succeeded result;
}
ended_entry i (fails error) = record {
  job_id = own i;
  original_job_id = none;
  status = broken error;
}

-- The entries of `n` jobs from place `k` on, when those at the places `done` have ended.
abbrev pub entries : (ℕ → Finish) → List ℕ → ℕ → ℕ → List Entry
entries finishes done k zero = []
entries finishes done k (suc n) =
    (if includes done k then ended_entry k (finishes k) else pending_entry k)
    ∷ entries finishes done (k + 1) n

-- The id that the queue gave includes `-job-<i>`.
abbrev pub names_place : ℕ → Finish → Bool
names_place i (succeeds job_id result) = includes job_id.places i
names_place i (fails error) = false

is_job-ended :
    (i k : ℕ) (o : Finish)
    → k < i
    → names_place i o ≡ false
    → is_job i (ended_entry k o).job_id ≡ false
unfolding is_job
is_job-ended i k (succeeds job_id result) h c = c
is_job-ended i k (fails error) h c = is_prefix-less k i k h

is_job_self : (i : ℕ) → is_job i (own i) ≡ true
unfolding is_job
is_job_self i = is_prefix_self i i

is_job-earlier :
    (finishes : ℕ → Finish) (done : List ℕ) (i k : ℕ)
    → k < i
    → names_place i (finishes k) ≡ false
    → is_job i (if includes done k then ended_entry k (finishes k) else pending_entry k).job_id
      ≡ false
unfolding is_job
is_job-earlier finishes done i k h c = elim (Bool-cases (includes done k)) [
  | inl hit ↦ rw hit (is_job-ended i k (finishes k) h c)
  | inr miss ↦ rw miss (is_prefix-less k i k h)
]

entries-later :
    (finishes : ℕ → Finish) (done : List ℕ) (i k n : ℕ)
    → i < k
    → entries finishes (i ∷ done) k n ≡ entries finishes done k n
entries-later finishes done i k zero h = refl
entries-later finishes done i k (suc n) h =
    let other : (i == k) ≡ false = ground arith in
    rw (other, entries-later finishes done i (k + 1) n (omega arith)) refl

pub write_first-entries :
    (finishes : ℕ → Finish) (done : List ℕ) (i k n : ℕ) (f : Entry → Entry)
    → includes done i ≡ false
    → k ≤ i
    → i < k + n
    → f (pending_entry i) ≡ ended_entry i (finishes i)
    → ((j : ℕ) → names_place i (finishes j) ≡ false)
    → write_first i f (entries finishes done k n) ≡ (entries finishes (i ∷ done) k n, true)
unfolding write_first
write_first-entries finishes done i k zero f d l u e c = absurd (omega arith)
write_first-entries finishes done i k (suc n) f d l u e c = elim (Bool-cases (i == k)) [
  | inl hit ↦
      let same : k ≡ i = ground arith in
      let later = entries-later finishes done i (i + 1) n (omega arith) in
      rw same (rw (d, ==_refl i, is_job_self i, e, later) refl)
  | inr miss ↦
      let earlier = is_job-earlier finishes done i k (ground arith) (c k) in
      let rest =
        write_first-entries finishes done i (k + 1) n f d (ground arith) (omega arith) e c in
      rw (earlier, rest, miss) refl
]
