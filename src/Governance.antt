-- ===== src/Governance.antt =====
-- src/governance/governance.service.ts and the proposal entity: changes of parameters behind a timelock.
-- `proposals` is the rows of the repository, times and delays are milliseconds, and the clock is an argument.
-- A method runs with nothing in between. Titles, values and persons, which are only carried
-- along, are not modelled, and an id is a number that the database gives.
pub mod Follows
pub mod Timelock
pub mod Pending
use stell_aiverse_backend.Prelude.{
  ℕ, ◌+◌, ◌-◌, Bool, true, false, ◌&&◌, ◌||◌, List, [], ◌∷◌, ◌++◌, Option, none, some, Result, ok,
  err, ltb, leb, ◌==◌, if◌then◌else◌, any, find_first, keep, not,
}

pub data ProposalStatus : Type 0 where
  pending : ProposalStatus
  ready : ProposalStatus
  executed : ProposalStatus
  cancelled : ProposalStatus

pub record GovernanceProposal : Type 0 where
  pub id : ℕ
  pub target_key : ℕ
  pub delay_ms : ℕ
  pub execute_after : ℕ
  pub status : ProposalStatus
  pub executed_at : Option ℕ
  pub cancelled_reason : Option ℕ

pub data GovernanceError : Type 0 where
  delay_too_short : GovernanceError
  already_pending : ℕ → GovernanceError
  not_executable : ProposalStatus → GovernanceError
  timelock_not_elapsed : ℕ → GovernanceError
  already_executed : GovernanceError
  already_cancelled : GovernanceError
  proposal_not_found : GovernanceError

abbrev pub min_delay_ms : ℕ
min_delay_ms = 3600000

abbrev pub default_delay_ms : ℕ
default_delay_ms = 86400000

abbrev pub is_pending : ProposalStatus → Bool
is_pending pending = true
is_pending ready = false
is_pending executed = false
is_pending cancelled = false

abbrev pub is_pending_for : ℕ → GovernanceProposal → Bool
is_pending_for key p = p.target_key == key && is_pending p.status

abbrev pub new_proposal : ℕ → ℕ → ℕ → ℕ → GovernanceProposal
new_proposal new_id key delay now = record {
  id = new_id;
  target_key = key;
  delay_ms = delay;
  execute_after = now + delay;
  status = pending;
  executed_at = none;
  cancelled_reason = none;
}

abbrev pub queue_unless_pending :
    List GovernanceProposal
    → Option GovernanceProposal
    → GovernanceProposal
    → Result GovernanceError (List GovernanceProposal)
queue_unless_pending ps (some existing) p = err (already_pending existing.id)
queue_unless_pending ps none p = ok (ps ++ p ∷ [])

abbrev pub delay_or_default : Option ℕ → ℕ
delay_or_default none = default_delay_ms
delay_or_default (some d) = d

unfoldable pub queue_proposal :
    List GovernanceProposal
    → ℕ
    → ℕ
    → Option ℕ
    → ℕ
    → Result GovernanceError (List GovernanceProposal)
queue_proposal ps new_id key delay now =
    if ltb (delay_or_default delay) min_delay_ms
    then err delay_too_short
    else queue_unless_pending ps (find_first (is_pending_for key) ps)
        (new_proposal new_id key (delay_or_default delay) now)

unfoldable pub find_or_fail : List GovernanceProposal → ℕ → Option GovernanceProposal
find_or_fail [] id = none
find_or_fail (p ∷ ps) id = if p.id == id then some p else find_or_fail ps id

-- `this.repo.save(proposal)`, on the row with the proposal's id
unfoldable pub save : GovernanceProposal → List GovernanceProposal → List GovernanceProposal
save p [] = []
save p (q ∷ ps) = if q.id == p.id then p ∷ ps else q ∷ save p ps

abbrev pub is_executable : ProposalStatus → Bool
is_executable pending = true
is_executable ready = true
is_executable executed = false
is_executable cancelled = false

unfoldable pub execute_found : GovernanceProposal → ℕ → Result GovernanceError GovernanceProposal
execute_found p now =
    if not (is_executable p.status)
    then err (not_executable p.status)
    else if ltb now p.execute_after
    then err (timelock_not_elapsed (p.execute_after - now))
    else ok (record p { status = executed; executed_at = some now })

abbrev pub saved :
    List GovernanceProposal
    → Result GovernanceError GovernanceProposal
    → Result GovernanceError (List GovernanceProposal)
saved ps (err e) = err e
saved ps (ok p) = ok (save p ps)

unfoldable pub execute_proposal :
    List GovernanceProposal → ℕ → ℕ → Result GovernanceError (List GovernanceProposal)
unfolding find_or_fail save execute_found
execute_proposal ps id now = elim (find_or_fail ps id) [
  | none ↦ err proposal_not_found
  | some p ↦ saved ps (execute_found p now)
]

abbrev pub cancel_status :
    GovernanceProposal → ℕ → ProposalStatus → Result GovernanceError GovernanceProposal
cancel_status p reason executed = err already_executed
cancel_status p reason cancelled = err already_cancelled
cancel_status p reason pending =
    ok (record p { status = cancelled; cancelled_reason = some reason })
cancel_status p reason ready = ok (record p { status = cancelled; cancelled_reason = some reason })

unfoldable pub cancel_proposal :
    List GovernanceProposal → ℕ → ℕ → Result GovernanceError (List GovernanceProposal)
unfolding find_or_fail save
cancel_proposal ps id reason = elim (find_or_fail ps id) [
  | none ↦ err proposal_not_found
  | some p ↦ saved ps (cancel_status p reason p.status)
]

abbrev pub ready_at : ℕ → GovernanceProposal → GovernanceProposal
ready_at now p =
    if is_pending p.status && leb p.execute_after now then record p { status = ready } else p

unfoldable pub mark_ready_proposals : List GovernanceProposal → ℕ → List GovernanceProposal
mark_ready_proposals [] now = []
mark_ready_proposals (p ∷ ps) now = ready_at now p ∷ mark_ready_proposals ps now

pub data Call : Type 0 where
  queues : ℕ → ℕ → Option ℕ → Call
  executes : ℕ → Call
  cancels : ℕ → ℕ → Call
  marks_ready : Call

-- A call that throws changes nothing.
abbrev pub rows_after :
    List GovernanceProposal
    → Result GovernanceError (List GovernanceProposal)
    → List GovernanceProposal
rows_after ps (err e) = ps
rows_after ps (ok qs) = qs

unfoldable pub call : List GovernanceProposal → ℕ → Call → List GovernanceProposal
unfolding queue_proposal execute_proposal cancel_proposal mark_ready_proposals
call ps now (queues new_id key delay) = rows_after ps (queue_proposal ps new_id key delay now)
call ps now (executes id) = rows_after ps (execute_proposal ps id now)
call ps now (cancels id reason) = rows_after ps (cancel_proposal ps id reason)
call ps now marks_ready = mark_ready_proposals ps now

-- The rows after a series of calls, each with its time.
unfoldable pub run : List GovernanceProposal → List (ℕ × Call) → List GovernanceProposal
unfolding call
run ps [] = ps
run ps ((now, c) ∷ cs) = run (call ps now c) cs
