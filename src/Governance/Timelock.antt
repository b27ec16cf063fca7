-- ===== src/Governance/Timelock.antt =====
-- src/governance/governance.service.ts: what calls make of a proposal, and when it is executed.
use stell_aiverse_backend.Prelude.{
  ℕ, ◌+◌, ◌≤◌, ◌≡◌, refl, inl, inr, true, ◌&&◌, List, [], ◌∷◌, ◌++◌, Option, none, some, arith, ltb,
  leb, ◌==◌, Bool-cases, Option-cases, ok, find_first, ==_refl,
}
use stell_aiverse_backend.Governance.{
  GovernanceProposal, ProposalStatus, pending, ready, executed, cancelled, min_delay_ms,
  new_proposal, queue_unless_pending, delay_or_default, queue_proposal, find_or_fail, is_executable,
  execute_found, execute_proposal, cancel_status, cancel_proposal, ready_at, mark_ready_proposals,
  Call, queues, executes, cancels, marks_ready, rows_after, call, run, is_pending_for, is_pending,
}
use stell_aiverse_backend.Governance.Follows.{
  executed_late, Follows, Follows-self, Follows-step, Holds, find-append, saved-Holds, unsettled,
  execute_found-Follows, cancel_status-Follows,
}

pending-executable : (k : ProposalStatus) → is_pending k ≡ true → is_executable k ≡ true
pending-executable pending h = refl
pending-executable ready h = refl
pending-executable executed h = absurd (ground arith)
pending-executable cancelled h = absurd (ground arith)

ready_at-Follows : (now : ℕ) (p : GovernanceProposal) → Follows p p → Follows p (ready_at now p)
ready_at-Follows now p s = elim (Bool-cases (is_pending p.status && leb p.execute_after now)) [
  | inl hit ↦ rw hit (
    refl,
    refl,
    refl,
    λ h. absurd (unsettled p.status (pending-executable p.status (ground arith)) h),
  )
  | inr miss ↦ rw miss s
]

ready_at-id : (now : ℕ) (p : GovernanceProposal) → (ready_at now p).id ≡ p.id
ready_at-id now p = ground arith

find-mark_ready :
    (ps : List GovernanceProposal) (now id : ℕ) (p : GovernanceProposal)
    → find_or_fail ps id ≡ some p
    → find_or_fail (mark_ready_proposals ps now) id ≡ some (ready_at now p)
unfolding find_or_fail mark_ready_proposals
find-mark_ready [] now id p e = absurd (ground arith)
find-mark_ready (q ∷ ps) now id p e = elim (Bool-cases (q.id == id)) [
  | inl hit ↦ let same : q ≡ p = ground arith in rw (ready_at-id now q, hit, same) refl
  | inr miss ↦ rw (ready_at-id now q, miss) (find-mark_ready ps now id p (rw miss at e))
]

queue_unless_pending-Holds :
    (ps : List GovernanceProposal) (o : Option GovernanceProposal) (n : GovernanceProposal) (id : ℕ)
    (p : GovernanceProposal)
    → find_or_fail ps id ≡ some p
    → Follows p p
    → Holds (rows_after ps (queue_unless_pending ps o n)) id p
queue_unless_pending-Holds ps none n id p f s = (p, find-append ps (n ∷ []) id p f, s)
queue_unless_pending-Holds ps (some existing) n id p f s = (p, f, s)

call-Holds :
    (ps : List GovernanceProposal) (now : ℕ) (c : Call) (id : ℕ) (p : GovernanceProposal)
    → find_or_fail ps id ≡ some p
    → Follows p p
    → Holds (call ps now c) id p
unfolding call queue_proposal execute_proposal cancel_proposal
call-Holds ps now (queues n key delay) id p f s =
    elim (Bool-cases (ltb (delay_or_default delay) min_delay_ms)) [
      | inl short ↦ rw (call, queue_proposal, short) (p, f, s)
      | inr enough ↦ rw (call, queue_proposal, enough) (queue_unless_pending-Holds ps _ _ id p f s)
    ]
call-Holds ps now (executes j) id p f s = elim (Option-cases (find_or_fail ps j)) [
  | inl missing ↦ rw (call, execute_proposal, missing) (p, f, s)
  | inr (r, g) ↦
      rw (call, execute_proposal, g)
        (saved-Holds ps id j p r (execute_found r now) f s g (λ q. execute_found-Follows r now q))
]
call-Holds ps now (cancels j reason) id p f s = elim (Option-cases (find_or_fail ps j)) [
  | inl missing ↦ rw (call, cancel_proposal, missing) (p, f, s)
  | inr (r, g) ↦
      rw (call, cancel_proposal, g)
        (saved-Holds ps id j p r (cancel_status r reason r.status) f s g
          (λ q. cancel_status-Follows r reason r.status q refl))
]
call-Holds ps now marks_ready id p f s =
    (ready_at now p, find-mark_ready ps now id p f, ready_at-Follows now p s)

-- Whatever calls follow, a proposal keeps its id and its timelock, an executed or a cancelled one stays
-- as it is, and the proposal is never executed before the timelock ends, if it has not been before.
pub run-Holds :
    (ps : List GovernanceProposal) (cs : List (ℕ × Call)) (id : ℕ) (p : GovernanceProposal)
    → find_or_fail ps id ≡ some p
    → executed_late p.status p.executed_at p.execute_after ≡ true
    → Holds (run ps cs) id p
unfolding run
run-Holds ps [] id p f l = (p, f, Follows-self p l)
run-Holds ps ((now, c) ∷ cs) id p f l =
    let (q, g, s) = call-Holds ps now c id p f (Follows-self p l) in
    let (r, k, u) = run-Holds (call ps now c) cs id q g s.2 in (r, k, Follows-step p q r s u)

executed_late-le :
    (k : ProposalStatus) (at_time : Option ℕ) (due when : ℕ)
    → executed_late k at_time due ≡ true
    → k ≡ executed
    → at_time ≡ some when
    → due ≤ when
executed_late-le executed none due when h e w = absurd (ground arith)
executed_late-le executed (some t) due when h e w = ground arith
executed_late-le pending t due when h e w = absurd (ground arith)
executed_late-le ready t due when h e w = absurd (ground arith)
executed_late-le cancelled t due when h e w = absurd (ground arith)

queued-rows :
    (ps qs : List GovernanceProposal) (o : Option GovernanceProposal) (n : GovernanceProposal)
    → queue_unless_pending ps o n ≡ ok qs
    → ps ++ n ∷ [] ≡ qs
queued-rows ps qs none n e = ground arith
queued-rows ps qs (some p) n e = absurd (ground arith)

find-queued :
    (ps : List GovernanceProposal) (n : GovernanceProposal)
    → find_or_fail ps n.id ≡ none
    → find_or_fail (ps ++ n ∷ []) n.id ≡ some n
unfolding find_or_fail
find-queued [] n h = ground (arith, ==_refl n.id)
find-queued (q ∷ ps) n h = ground (arith, find-queued ps n)

-- A proposal that is queued with a fresh id and executed after any calls is not executed until its
-- delay has passed since it was queued, and that delay is an hour or more.
pub queue_proposal-timelock :
    (ps qs : List GovernanceProposal) (new_id key now : ℕ) (delay : Option ℕ) (cs : List (ℕ × Call))
    → find_or_fail ps new_id ≡ none
    → queue_proposal ps new_id key delay now ≡ ok qs
    → (q : GovernanceProposal) × (find_or_fail (run qs cs) new_id ≡ some q)
      × (min_delay_ms ≤ delay_or_default delay)
      × ((when : ℕ)
          → q.status ≡ executed
          → q.executed_at ≡ some when
          → now + delay_or_default delay ≤ when)
unfolding queue_proposal
queue_proposal-timelock ps qs i key now delay cs fresh e =
    elim (Bool-cases (ltb (delay_or_default delay) min_delay_ms)) [
      | inl short ↦ absurd (ground arith)
      | inr enough ↦
          let n = new_proposal i key (delay_or_default delay) now in
          let rows = rw (queue_proposal, enough) at e in
          let same = queued-rows ps qs (find_first (is_pending_for key) ps) n rows in
          let (q, g, s) = run-Holds qs cs i n (rw same at (find-queued ps n fresh)) refl in
          (
            q,
            g,
            ground arith,
            λ when x y.
                rw s.1 at (executed_late-le q.status q.executed_at q.execute_after when s.2 x y),
          )
    ]
