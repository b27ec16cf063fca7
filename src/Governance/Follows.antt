-- ===== src/Governance/Follows.antt =====
-- src/governance/governance.service.ts: what executing and cancelling make of a proposal.
use stell_aiverse_backend.Prelude.{
  ℕ, ◌≡◌, refl, sym, inl, inr, Bool, true, false, List, [], ◌∷◌, ◌++◌, Option, none, some, arith,
  ltb, leb, ◌==◌, Bool-cases, ok, err, Result, ◌∙◌, ==_refl,
}
use stell_aiverse_backend.Governance.{
  GovernanceProposal, ProposalStatus, pending, ready, executed, cancelled, GovernanceError,
  find_or_fail, save, is_executable, execute_found, saved, cancel_status, rows_after,
}

abbrev pub executed_late : ProposalStatus → Option ℕ → ℕ → Bool
executed_late executed none due = false
executed_late executed (some t) due = leb due t
executed_late pending t due = true
executed_late ready t due = true
executed_late cancelled t due = true

abbrev pub is_settled : ProposalStatus → Bool
is_settled executed = true
is_settled cancelled = true
is_settled pending = false
is_settled ready = false

-- What may have become of a proposal: its id and its timelock are the same, it is not executed too
-- early, and where it was executed or cancelled nothing has changed.
abbrev pub Follows : GovernanceProposal → GovernanceProposal → Type 0
Follows p q =
    (q.id ≡ p.id)
    × (q.execute_after ≡ p.execute_after)
    × (executed_late q.status q.executed_at q.execute_after ≡ true)
    × (is_settled p.status ≡ true → q ≡ p)

pub Follows-self :
    (p : GovernanceProposal)
    → executed_late p.status p.executed_at p.execute_after ≡ true
    → Follows p p
Follows-self p h = (refl, refl, h, λ s. refl)

pub Follows-step : (p q r : GovernanceProposal) → Follows p q → Follows q r → Follows p r
Follows-step p q r (i, d, l, s) (i', d', l', s') =
    (i' ∙ i, d' ∙ d, l', λ h. let e = s h in s' (rw e h) ∙ e)

-- The row with the id becomes a row that follows it.
abbrev pub Holds : List GovernanceProposal → ℕ → GovernanceProposal → Type 0
Holds ps id p = (q : GovernanceProposal) × (find_or_fail ps id ≡ some q) × Follows p q

find-id :
    (ps : List GovernanceProposal) (id : ℕ) (p : GovernanceProposal)
    → find_or_fail ps id ≡ some p
    → p.id ≡ id
unfolding find_or_fail
find-id [] id p e = absurd (ground arith)
find-id (q ∷ ps) id p e = elim (Bool-cases (q.id == id)) [
  | inl hit ↦
      let same : q ≡ p = ground arith in
      let at_id : q.id ≡ id = ground (arith, hit) in rw same at at_id
  | inr miss ↦ find-id ps id p (rw miss at e)
]

pub find-append :
    (ps qs : List GovernanceProposal) (id : ℕ) (p : GovernanceProposal)
    → find_or_fail ps id ≡ some p
    → find_or_fail (ps ++ qs) id ≡ some p
unfolding find_or_fail
find-append [] qs id p e = absurd (ground arith)
find-append (q ∷ ps) qs id p e = ground (arith, find-append ps qs id p)

find-save_other :
    (r : GovernanceProposal) (ps : List GovernanceProposal) (id : ℕ)
    → (r.id == id) ≡ false
    → find_or_fail (save r ps) id ≡ find_or_fail ps id
unfolding find_or_fail save
find-save_other r [] id e = refl
find-save_other r (q ∷ ps) id e = ground (arith, find-save_other r ps id)

find-save :
    (r p : GovernanceProposal) (ps : List GovernanceProposal)
    → find_or_fail ps r.id ≡ some p
    → find_or_fail (save r ps) r.id ≡ some r
unfolding find_or_fail save
find-save r p [] e = absurd (ground arith)
find-save r p (q ∷ ps) e = ground (arith, find-save r p ps, ==_refl r.id)

pub saved-Holds :
    (ps : List GovernanceProposal) (id j : ℕ) (p r : GovernanceProposal)
    (res : Result GovernanceError GovernanceProposal)
    → find_or_fail ps id ≡ some p
    → Follows p p
    → find_or_fail ps j ≡ some r
    → ((q : GovernanceProposal) → res ≡ ok q → Follows r q)
    → Holds (rows_after ps (saved ps res)) id p
saved-Holds ps id j p r (err e) f s g h = (p, f, s)
saved-Holds ps id j p r (ok q) f s g h = elim (Bool-cases (q.id == id)) [
  | inl hit ↦
      let same : q.id ≡ id = ground (arith, hit) in
      let there : j ≡ id = sym (find-id ps j r g) ∙ sym (h q refl).0 ∙ same in
      let e : r ≡ p = (let g' = rw there at g in ground arith) in
      (q, rw (sym same) (find-save q p ps (rw same f)), rw e at (h q refl))
  | inr miss ↦ (p, find-save_other q ps id miss ∙ f, s)
]

pub unsettled : (k : ProposalStatus) → is_executable k ≡ true → is_settled k ≡ true → ⊥
unsettled pending h s = ground arith
unsettled ready h s = ground arith
unsettled executed h s = ground arith
unsettled cancelled h s = ground arith

Follows-path : (p q r : GovernanceProposal) → q ≡ r → Follows p q → Follows p r
Follows-path p q r e f = rw e at f

cancelled-Follows :
    (p : GovernanceProposal) (reason : ℕ)
    → is_executable p.status ≡ true
    → Follows p (record p { status = cancelled; cancelled_reason = some reason })
cancelled-Follows p reason h = (refl, refl, refl, λ s. absurd (unsettled p.status h s))

pub execute_found-Follows :
    (p : GovernanceProposal) (now : ℕ) (q : GovernanceProposal)
    → execute_found p now ≡ ok q
    → Follows p q
unfolding execute_found
execute_found-Follows p now q e = elim (Bool-cases (is_executable p.status)) [
  | inl may ↦ elim (Bool-cases (ltb now p.execute_after)) [
    | inl early ↦ absurd (ground arith)
    | inr late ↦
        let done : record p { status = executed; executed_at = some now } ≡ q = ground arith in
        let out : Follows p (record p { status = executed; executed_at = some now }) =
          (refl, refl, ground arith, λ s. absurd (unsettled p.status may s)) in
        Follows-path p _ q done out
  ]
  | inr not_so ↦ absurd (ground arith)
]

pub cancel_status-Follows :
    (p : GovernanceProposal) (reason : ℕ) (k : ProposalStatus) (q : GovernanceProposal)
    → p.status ≡ k
    → cancel_status p reason k ≡ ok q
    → Follows p q
cancel_status-Follows p reason executed q h e = absurd (ground arith)
cancel_status-Follows p reason cancelled q h e = absurd (ground arith)
cancel_status-Follows p reason pending q h e =
    let done : record p { status = cancelled; cancelled_reason = some reason } ≡ q = ground arith in
    Follows-path p _ q done (cancelled-Follows p reason (rw h refl))
cancel_status-Follows p reason ready q h e =
    let done : record p { status = cancelled; cancelled_reason = some reason } ≡ q = ground arith in
    Follows-path p _ q done (cancelled-Follows p reason (rw h refl))
