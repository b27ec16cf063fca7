-- ===== src/Scenarios/Proposals.antt =====
-- src/governance/governance.service.ts: a proposal for key 3 that waits two hours.
use stell_aiverse_backend.Prelude.{ℕ, ◌+◌, ◌≤◌, ◌≡◌, refl, List, [], ◌∷◌, some, none, arith}
use stell_aiverse_backend.Governance.{
  GovernanceProposal, executed, Call, queues, executes, cancels, marks_ready, new_proposal,
  queue_proposal, find_or_fail, min_delay_ms, delay_or_default, run,
}
use stell_aiverse_backend.Governance.Timelock.{queue_proposal-timelock}
use stell_aiverse_backend.Governance.Pending.{OnePending, run-OnePending}

abbrev calls : List (ℕ × Call)
calls =
    (2000, executes 1)
    ∷ (3000, queues 2 3 none)
    ∷ (7300000, marks_ready)
    ∷ (7300001, queues 4 3 none)
    ∷ (7300002, executes 1)
    ∷ (7300003, cancels 4 8)
    ∷ []

abbrev queued : List GovernanceProposal
queued = new_proposal 1 3 7200000 1000 ∷ []

queue_proposal-timelock_example :
    (q : GovernanceProposal) × (find_or_fail (run queued calls) 1 ≡ some q)
    × (min_delay_ms ≤ delay_or_default (some 7200000))
    × ((when : ℕ)
        → q.status ≡ executed
        → q.executed_at ≡ some when
        → 1000 + delay_or_default (some 7200000) ≤ when)
unfolding find_or_fail queue_proposal
queue_proposal-timelock_example =
    queue_proposal-timelock [] queued 1 3 1000 (some 7200000) calls refl refl

one_queued : OnePending queued
one_queued key = ground arith

run-OnePending_example : OnePending (run queued calls)
run-OnePending_example = run-OnePending queued calls one_queued
