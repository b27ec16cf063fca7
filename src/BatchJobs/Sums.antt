-- ===== src/BatchJobs/Sums.antt =====
-- src/compute-job-queue/queue.service.ts: the counts of outcomes, in whatever order the jobs end.
use stell_aiverse_backend.Prelude.{
  ℕ, zero, suc, ◌+◌, ◌≤◌, ◌<◌, ◌≡◌, refl, sym, ap, ◌∙◌, inl, inr, false, List, [], ◌∷◌, arith, ltb,
  leb, ◌==◌, ==_refl, if◌then◌else◌, Bool-cases, includes, count, ◌&&◌,
}
use stell_aiverse_backend.BatchJobs.{Finish, upto}
use stell_aiverse_backend.BatchJobs.Tally.{is_success, successes, failures}

-- The places are those of the list `all`, each as often.
abbrev pub SamePlaces : List ℕ → List ℕ → Type 0
SamePlaces places all = (i : ℕ) → count i places ≡ count i all

pub count-upto : (j k n : ℕ) → count j (upto k n) ≡ (if leb k j && ltb j (k + n) then 1 else 0)
count-upto j k zero = ground arith
count-upto j k (suc n) = ground (arith, count-upto j (k + 1) n)

pub includes-count : (j : ℕ) (places : List ℕ) → includes places j ≡ ltb 0 (count j places)
includes-count j [] = refl
includes-count j (i ∷ places) = ground (arith, includes-count j places)

module _ (weight : ℕ → ℕ) where
  sum_of : List ℕ → ℕ
  sum_of [] = 0
  sum_of (i ∷ places) = weight i + sum_of places

  -- The same sum over the places from `k` on.
  total : List ℕ → ℕ → ℕ → ℕ
  total places k zero = 0
  total places k (suc n) = (if includes places k then weight k else 0) + total places (k + 1) n

  total-empty : (k n : ℕ) → total [] k n ≡ 0
  unfolding total
  total-empty k zero = refl
  total-empty k (suc n) = omega (arith, total-empty (k + 1) n)

  total-same :
      (places all : List ℕ) (k n : ℕ)
      → ((j : ℕ) → includes places j ≡ includes all j)
      → total places k n ≡ total all k n
  unfolding total
  total-same places all k zero h = refl
  total-same places all k (suc n) h = rw (h k, total-same places all (k + 1) n h) refl

  total-later :
      (i : ℕ) (places : List ℕ) (k n : ℕ) → i < k → total (i ∷ places) k n ≡ total places k n
  unfolding total
  total-later i places k zero h = refl
  total-later i places k (suc n) h =
      let other : (i == k) ≡ false = ground arith in
      rw (other, total-later i places (k + 1) n (omega arith)) refl

  total-cons :
      (i : ℕ) (places : List ℕ) (k n : ℕ)
      → includes places i ≡ false
      → k ≤ i
      → i < k + n
      → total (i ∷ places) k n ≡ weight i + total places k n
  unfolding total
  total-cons i places k zero e l u = absurd (omega arith)
  total-cons i places k (suc n) e l u = elim (Bool-cases (i == k)) [
    | inl hit ↦
        let same : k ≡ i = ground arith in
        let later = total-later i places (i + 1) n (omega arith) in
        rw same (rw (==_refl i, e, later) (omega arith))
    | inr miss ↦
        let rest = total-cons i places (k + 1) n e (ground arith) (omega arith) in
        rw (miss, rest) (omega arith)
  ]

  sum_of-total :
      (places : List ℕ) (n : ℕ)
      → ((j : ℕ) → count j places ≤ 1)
      → ((j : ℕ) → 0 < count j places → j < n)
      → sum_of places ≡ total places 0 n
  unfolding sum_of
  sum_of-total [] n c b = sym (total-empty 0 n)
  sum_of-total (i ∷ places) n c b =
      let once = c i in
      let out : includes places i ≡ false = ground (arith, includes-count i places, ==_refl i) in
      let small : i < n = b i (ground (arith, ==_refl i)) in
      let rest = sum_of-total places n (λ j. ground (arith, c j)) (λ j h. b j (ground arith)) in
      rw (total-cons i places 0 n out (omega arith) (omega (arith, small)), rest) refl

  sum_of-same :
      (places : List ℕ) (n : ℕ) → SamePlaces places (upto 0 n) → sum_of places ≡ sum_of (upto 0 n)
  sum_of-same places n same =
      sum_of-total places n (λ j. ground (arith, same j, count-upto j 0 n))
        (λ j h. ground (arith, same j, count-upto j 0 n))
      ∙ total-same places (upto 0 n) 0 n
          (λ j. includes-count j places ∙ ap (ltb 0) (same j) ∙ sym (includes-count j (upto 0 n)))
      ∙ sym (
          sum_of-total (upto 0 n) n (λ j. ground (arith, count-upto j 0 n))
            (λ j h. ground (arith, count-upto j 0 n)))

successes-sum :
    (finishes : ℕ → Finish) (places : List ℕ)
    → successes finishes places ≡ sum_of (λ i. if is_success (finishes i) then 1 else 0) places
unfolding sum_of
successes-sum finishes [] = refl
successes-sum finishes (i ∷ places) = rw (successes-sum finishes places) refl

failures-sum :
    (finishes : ℕ → Finish) (places : List ℕ)
    → failures finishes places ≡ sum_of (λ i. if is_success (finishes i) then 0 else 1) places
unfolding sum_of
failures-sum finishes [] = refl
failures-sum finishes (i ∷ places) = rw (failures-sum finishes places) refl

pub successes-same :
    (finishes : ℕ → Finish) (places : List ℕ) (n : ℕ)
    → SamePlaces places (upto 0 n)
    → successes finishes places ≡ successes finishes (upto 0 n)
successes-same finishes places n same =
    successes-sum finishes places
    ∙ sum_of-same (λ i. if is_success (finishes i) then 1 else 0) places n same
    ∙ sym (successes-sum finishes (upto 0 n))

pub failures-same :
    (finishes : ℕ → Finish) (places : List ℕ) (n : ℕ)
    → SamePlaces places (upto 0 n)
    → failures finishes places ≡ failures finishes (upto 0 n)
failures-same finishes places n same =
    failures-sum finishes places
    ∙ sum_of-same (λ i. if is_success (finishes i) then 0 else 1) places n same
    ∙ sym (failures-sum finishes (upto 0 n))
