-- ===== src/Governance/Pending.antt =====
-- src/governance/governance.service.ts: how many proposals are pending for a key.
use stell_aiverse_backend.Prelude.{
  ℕ, ◌+◌, ◌≤◌, ◌≡◌, refl, inl, inr, false, List, [], ◌∷◌, ◌++◌, Option, none, some, arith, ltb,
  ◌==◌, if◌then◌else◌, Bool-cases, Option-cases, ok, err, Result, find_first,
}
use stell_aiverse_backend.Governance.{
  GovernanceProposal, ProposalStatus, pending, ready, executed, cancelled, GovernanceError,
  min_delay_ms, new_proposal, queue_unless_pending, delay_or_default, queue_proposal, find_or_fail,
  save, execute_found, saved, execute_proposal, cancel_status, cancel_proposal,
  mark_ready_proposals, Call, queues, executes, cancels, marks_ready, rows_after, call, run,
  is_pending_for, is_pending,
}

abbrev pub pending_count : ℕ → List GovernanceProposal → ℕ
pending_count key [] = 0
pending_count key (p ∷ ps) = (if is_pending_for key p then 1 else 0) + pending_count key ps

abbrev pub OnePending : List GovernanceProposal → Type 0
OnePending ps = (key : ℕ) → pending_count key ps ≤ 1

count-save :
    (key : ℕ) (p : GovernanceProposal) (ps : List GovernanceProposal)
    → is_pending p.status ≡ false
    → pending_count key (save p ps) ≤ pending_count key ps
unfolding save
count-save key p [] h = ground arith
count-save key p (q ∷ ps) h = ground (arith, count-save key p ps h)

count-mark_ready :
    (key now : ℕ) (ps : List GovernanceProposal)
    → pending_count key (mark_ready_proposals ps now) ≤ pending_count key ps
unfolding mark_ready_proposals
count-mark_ready key now [] = ground arith
count-mark_ready key now (p ∷ ps) = ground (arith, count-mark_ready key now ps)

count-append :
    (key : ℕ) (ps : List GovernanceProposal) (p : GovernanceProposal)
    → pending_count key (ps ++ p ∷ []) ≡ pending_count key ps + pending_count key (p ∷ [])
count-append key [] p = ground arith
count-append key (q ∷ ps) p = ground (arith, count-append key ps p)

count-none :
    (key : ℕ) (ps : List GovernanceProposal)
    → find_first (is_pending_for key) ps ≡ none
    → pending_count key ps ≡ 0
count-none key [] h = refl
count-none key (p ∷ ps) h = ground (arith, count-none key ps)

one_at-le : (key : ℕ) (p : GovernanceProposal) → pending_count key (p ∷ []) ≤ 1
one_at-le key p = ground arith

saved-OnePending :
    (ps : List GovernanceProposal) (r : Result GovernanceError GovernanceProposal)
    → OnePending ps
    → ((q : GovernanceProposal) → r ≡ ok q → is_pending q.status ≡ false)
    → OnePending (rows_after ps (saved ps r))
saved-OnePending ps (err e) h f = h
saved-OnePending ps (ok q) h f = λ key. omega (arith, count-save key q ps (f q refl), h key)

queue_unless_pending-OnePending :
    (ps : List GovernanceProposal) (o : Option GovernanceProposal) (i key delay now : ℕ)
    → OnePending ps
    → find_first (is_pending_for key) ps ≡ o
    → OnePending (rows_after ps (queue_unless_pending ps o (new_proposal i key delay now)))
queue_unless_pending-OnePending ps (some p) i key delay now h e = h
queue_unless_pending-OnePending ps none i key delay now h e = λ asked.
    let n = new_proposal i key delay now in
    elim (Bool-cases (key == asked)) [
      | inl same ↦
          let k : key ≡ asked = ground arith in
          omega (arith, count-append asked ps n, count-none asked ps (rw k at e), one_at-le asked n)
      | inr other ↦ rw (count-append asked ps n, other) (omega (arith, h asked))
    ]

execute_found-settles :
    (p : GovernanceProposal) (now : ℕ) (q : GovernanceProposal)
    → execute_found p now ≡ ok q
    → is_pending q.status ≡ false
unfolding execute_found
execute_found-settles p now q e = ground arith

cancel_status-settles :
    (p : GovernanceProposal) (reason : ℕ) (k : ProposalStatus) (q : GovernanceProposal)
    → cancel_status p reason k ≡ ok q
    → is_pending q.status ≡ false
cancel_status-settles p reason pending q e = ground arith
cancel_status-settles p reason ready q e = ground arith
cancel_status-settles p reason executed q e = ground arith
cancel_status-settles p reason cancelled q e = ground arith

call-OnePending :
    (ps : List GovernanceProposal) (now : ℕ) (c : Call) → OnePending ps → OnePending (call ps now c)
unfolding call queue_proposal execute_proposal cancel_proposal
call-OnePending ps now (queues i key delay) h =
    elim (Bool-cases (ltb (delay_or_default delay) min_delay_ms)) [
      | inl short ↦ rw (call, queue_proposal, short) h
      | inr enough ↦
          rw (call, queue_proposal, enough)
            (queue_unless_pending-OnePending ps (find_first (is_pending_for key) ps) i key
              (delay_or_default delay) now h refl)
    ]
call-OnePending ps now (executes id) h = elim (Option-cases (find_or_fail ps id)) [
  | inl missing ↦ rw (call, execute_proposal, missing) h
  | inr (p, found) ↦
      rw (call, execute_proposal, found)
        (saved-OnePending ps (execute_found p now) h (λ q. execute_found-settles p now q))
]
call-OnePending ps now (cancels id reason) h = elim (Option-cases (find_or_fail ps id)) [
  | inl missing ↦ rw (call, cancel_proposal, missing) h
  | inr (p, found) ↦
      rw (call, cancel_proposal, found)
        (saved-OnePending ps (cancel_status p reason p.status) h
          (λ q. cancel_status-settles p reason p.status q))
]
call-OnePending ps now marks_ready h = λ key. omega (arith, count-mark_ready key now ps, h key)

-- Calls that run one after another never leave two proposals pending for one key, if the rows that they
-- start from have none.
pub run-OnePending :
    (ps : List GovernanceProposal) (cs : List (ℕ × Call)) → OnePending ps → OnePending (run ps cs)
unfolding run
run-OnePending ps [] h = h
run-OnePending ps ((now, c) ∷ cs) h = run-OnePending (call ps now c) cs (call-OnePending ps now c h)
