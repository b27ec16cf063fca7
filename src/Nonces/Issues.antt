-- ===== src/Nonces/Issues.antt =====
-- src/oracle/services/nonce-management.service.ts: no nonce is issued twice.
use stell_aiverse_backend.Prelude.{
  ℕ, ◌+◌, ◌≡◌, refl, ◌∙◌, ap, inl, inr, Bool, true, false, List, [], ◌∷◌, Option, none, some, arith,
  ◌==◌, ==_iff, ==_refl, not, all, if◌then◌else◌, Bool-cases, Option-cases, lookup, lookup-insert,
  lookup-remove,
}
use stell_aiverse_backend.Nonces.{
  NonceManagementService, SubmissionNonce, row_nonce, fetch_nonce, fill_cache, set_nonce,
  clear_stale_cache,
}
use stell_aiverse_backend.Nonces.Transactions.{
  Transaction, Database, Step, begins, commits, fetches, fills, sets, resets, cleans, begun, begin,
  written, closed, inserted, committed, commit, set_unlocked, step, add_issued, issued,
}

-- The nonces issued to an address count up from `n`.
abbrev pub CountsFrom : ℕ → ℕ → List (ℕ × ℕ) → Type 0
CountsFrom a n [] = Unit
CountsFrom a n ((b, k) ∷ l) = if b == a then (k ≡ n) × CountsFrom a (n + 1) l else CountsFrom a n l

-- What a step adds to the row's nonce of `a`.
abbrev counted : ℕ → Option (ℕ × ℕ) → ℕ
counted a none = 0
counted a (some (b, k)) = if b == a then 1 else 0

CountsFrom-add :
    (a n m : ℕ) (e : Option (ℕ × ℕ)) (l : List (ℕ × ℕ))
    → ((k : ℕ) → e ≡ some (a, k) → k ≡ n)
    → m ≡ n + counted a e
    → CountsFrom a m l
    → CountsFrom a n (add_issued e l)
CountsFrom-add a n m none l f h r = let e : m ≡ n = omega (arith, h) in rw e at r
CountsFrom-add a n m (some (b, k)) l f h r = elim (Bool-cases (b == a)) [
  | inl hit ↦
      let e : m ≡ n + 1 = ground arith in
      let q : b ≡ a = ground arith in rw hit (f k (ground arith), rw e at r)
  | inr miss ↦ let e : m ≡ n = ground arith in rw miss (rw e at r)
]

-- The step does not set the nonce of `a` by hand.
abbrev pub is_unset : ℕ → Step → Bool
is_unset a (sets address nonce) = not (address == a)
is_unset a (resets address) = not (address == a)
is_unset a (begins id address) = true
is_unset a (commits id) = true
is_unset a (fetches address) = true
is_unset a (fills address nonce) = true
is_unset a cleans = true

-- An open transaction that has read a row of `a` has its lock, and the row is as it was read.
abbrev Owned : ℕ → Database → Type 0
Owned a d =
    (id : ℕ) (t : Transaction) (n : ℕ)
    → lookup id d.open_ ≡ some t
    → t.address ≡ a
    → t.current ≡ some n
    → (lookup a d.row_locks ≡ some id)
      × ((row : SubmissionNonce) × (lookup a d.service.table ≡ some row) × (row.nonce ≡ n))

-- What a step does to `a`: its row counts what is issued, which is its nonce.
abbrev Advances : ℕ → Database → Database × Option (ℕ × ℕ) → Type 0
Advances a d (d', e) =
    Owned a d'
    × (row_nonce (lookup a d'.service.table) ≡ row_nonce (lookup a d.service.table) + counted a e)
    × ((k : ℕ) → e ≡ some (a, k) → k ≡ row_nonce (lookup a d.service.table))

add_zero : (n : ℕ) → n ≡ n + 0
add_zero n = omega arith

silent :
    (a : ℕ) (d : Database) (k : ℕ)
    → Path (Option (ℕ × ℕ)) none (some (a, k))
    → k ≡ row_nonce (lookup a d.service.table)
silent a d k h = absurd (ground arith)

-- A step that issues nothing and leaves the row as it is.
still :
    (a : ℕ) (d d' : Database)
    → Owned a d'
    → lookup a d'.service.table ≡ lookup a d.service.table
    → Advances a d (d', none)
still a d d' o e = (o, ap row_nonce e ∙ add_zero _, silent a d)

-- The rows that are there stay: those of `a` are kept by a new service.
Owned-service :
    (a : ℕ) (d : Database) (s : NonceManagementService)
    → ((row : SubmissionNonce) → lookup a d.service.table ≡ some row → lookup a s.table ≡ some row)
    → Owned a d
    → Owned a (record d { service = s })
Owned-service a d s keeps o id t n l e c =
    let (owns, (row, there, same)) = o id t n l e c in (owns, (row, keeps row there, same))

begun-Advances :
    (a : ℕ) (d : Database) (id address : ℕ) (row : Option SubmissionNonce) (owner : Option ℕ)
    → lookup address d.service.table ≡ row
    → lookup address d.row_locks ≡ owner
    → Owned a d
    → Advances a d (begun d id address row owner, none)
begun-Advances a d id address none owner r q o =
    still a d (begun d id address none owner)
      (λ id' t n l e c. elim (Bool-cases (id == id')) [
        | inl hit ↦ absurd (
            ground
              (arith, lookup-insert id id' (record { address = address; current = none }) d.open_))
        | inr miss ↦
            o id' t n
              (ground (
                arith,
                lookup-insert id id' (record { address = address; current = none }) d.open_,
              ))
              e c
      ])
      refl
begun-Advances a d id address (some row) (some owner) r q o = still a d d o refl
begun-Advances a d id address (some row) none r q o =
    let new : Transaction = record { address = address; current = some row.nonce } in
    still a d (begun d id address (some row) none)
      (λ id' t n l e c. elim (Bool-cases (id == id')) [
        | inl hit ↦
            let same : new ≡ t = ground (arith, lookup-insert id id' new d.open_) in
            let here : address ≡ a = ap (λ (x : Transaction). x.address) same ∙ e in
            let read : some row.nonce ≡ some n = ap (λ (x : Transaction). x.current) same ∙ c in
            (
              ground (arith, lookup-insert address a id d.row_locks, here),
              (row, rw (← here) r, ground (arith, read)),
            )
        | inr miss ↦
            let (owns, rest) = o id' t n (ground (arith, lookup-insert id id' new d.open_)) e c in
            elim (Bool-cases (address == a)) [
              | inl hit ↦
                  let here : address ≡ a = (==_iff address a).0 hit in
                  let free : lookup a d.row_locks ≡ none = rw (← here) q in
                  absurd (ground (arith, owns, free))
              | inr other ↦ (ground (arith, lookup-insert address a id d.row_locks, owns), rest)
            ]
      ])
      refl

begin-Advances :
    (a : ℕ) (d : Database) (id address : ℕ) (t : Option Transaction)
    → Owned a d
    → Advances a d (begin d id address t, none)
begin-Advances a d id address (some t) o = still a d d o refl
begin-Advances a d id address none o =
    begun-Advances a d id address (lookup address d.service.table) (lookup address d.row_locks) refl
      refl o

Owned-closed : (a : ℕ) (d : Database) (id : ℕ) → Owned a d → Owned a (closed d id)
Owned-closed a d id o id' t n l e c =
    o id' t n (ground (arith, lookup-remove id id' d.open_, l)) e c

inserted-Advances :
    (a : ℕ) (d : Database) (id address now : ℕ) (row : Option SubmissionNonce)
    → lookup address d.service.table ≡ row
    → Owned a d
    → Advances a d (inserted d id address now row)
inserted-Advances a d id address now (some row) r o =
    still a d (closed d id) (Owned-closed a d id o) refl
inserted-Advances a d id address now none r o =
    let row : SubmissionNonce = record { nonce = 0 + 1; last_used_at = some now } in
    let stored = lookup-insert address a row d.service.table in
    elim (Bool-cases (address == a)) [
      | inl hit ↦
          let here : address ≡ a = (==_iff address a).0 hit in
          let absent : lookup a d.service.table ≡ none = rw (← here) r in
          (
            (λ id' t n l e c.
                let (owns, (old, there, same)) = Owned-closed a d id o id' t n l e c in
                absurd (ground (arith, there, absent))),
            rw (stored, hit, absent) refl,
            (λ k h. rw absent (ground (arith, h))),
          )
      | inr other ↦ (
        Owned-service a (closed d id) (written d.service address 0 now)
            (λ old there. ground (arith, stored, other, there)) (Owned-closed a d id o),
        rw (stored, other) (add_zero _),
        (λ k h. absurd (ground (arith, h, other, ==_refl a))),
      )
    ]

committed-Advances :
    (a : ℕ) (d : Database) (id now : ℕ) (t : Transaction) (current : ℕ)
    → lookup id d.open_ ≡ some t
    → t.current ≡ some current
    → Owned a d
    → Advances a d (committed d id t.address now (some current))
committed-Advances a d id now t current l c o =
    let row : SubmissionNonce = record { nonce = current + 1; last_used_at = some now } in
    let stored = lookup-insert t.address a row d.service.table in
    elim (Bool-cases (t.address == a)) [
      | inl hit ↦
          let (owns, (old, there, same)) = o id t current l ((==_iff t.address a).0 hit) c in
          (
            (λ id' t' n l' e' c'.
                let (owns', rest) =
                  o id' t' n (ground (arith, lookup-remove id id' d.open_, l')) e' c' in
                absurd (ground (arith, lookup-remove id id' d.open_, l', owns, owns'))),
            rw (stored, hit, there) (ground (arith, same)),
            (λ k h. rw there (ground (arith, h, same))),
          )
      | inr other ↦ (
        (λ id' t' n l' e' c'.
            let (owns', (old, there, same)) =
              o id' t' n (ground (arith, lookup-remove id id' d.open_, l')) e' c' in
            (
              ground (arith, lookup-remove t.address a d.row_locks, other, owns'),
              (old, ground (arith, stored, other, there), same),
            )),
        rw (stored, other) (add_zero _),
        (λ k h. absurd (ground (arith, h, other, ==_refl a))),
      )
    ]

commit-Advances :
    (a : ℕ) (d : Database) (id now : ℕ) (o : Option Transaction)
    → lookup id d.open_ ≡ o
    → Owned a d
    → Advances a d (commit d id now o)
commit-Advances a d id now none l o = still a d d o refl
commit-Advances a d id now (some t) l o = elim (Option-cases t.current) [
  | inl absent ↦
      rw absent (inserted-Advances a d id t.address now (lookup t.address d.service.table) refl o)
  | inr (current, read) ↦ rw read (committed-Advances a d id now t current l read o)
]

set_unlocked-Advances :
    (a : ℕ) (d : Database) (address nonce : ℕ) (owner : Option ℕ)
    → (address == a) ≡ false
    → Owned a d
    → Advances a d (set_unlocked d address nonce owner, none)
unfolding set_nonce
set_unlocked-Advances a d address nonce (some owner) x o = still a d d o refl
set_unlocked-Advances a d address nonce none x o =
    still a d (set_unlocked d address nonce none)
      (Owned-service a d (set_nonce d.service address nonce)
        (λ row there. grind (arith, lookup-insert)) o)
      (grind (arith, lookup-insert))

fetch_nonce-keeps :
    (s : NonceManagementService) (a address : ℕ) (row : SubmissionNonce)
    → lookup a s.table ≡ some row
    → lookup a (fetch_nonce s address).0.table ≡ some row
unfolding fetch_nonce
fetch_nonce-keeps s a address row h = grind (arith, lookup-insert)

fetch_nonce-same :
    (s : NonceManagementService) (a address : ℕ)
    → row_nonce (lookup a (fetch_nonce s address).0.table) ≡ row_nonce (lookup a s.table)
unfolding fetch_nonce
fetch_nonce-same s a address = grind (arith, lookup-insert)

step-Advances :
    (a : ℕ) (d : Database) (now : ℕ) (c : Step)
    → is_unset a c ≡ true
    → Owned a d
    → Advances a d (step d now c)
unfolding step fill_cache clear_stale_cache
step-Advances a d now (begins id address) u o = begin-Advances a d id address (lookup id d.open_) o
step-Advances a d now (commits id) u o = commit-Advances a d id now (lookup id d.open_) refl o
step-Advances a d now (fetches address) u o = (
  Owned-service a d (fetch_nonce d.service address).0
      (λ row there. fetch_nonce-keeps d.service a address row there) o,
  fetch_nonce-same d.service a address ∙ add_zero _,
  silent a d,
)
step-Advances a d now (fills address nonce) u o =
    still a d (record d { service = fill_cache d.service address nonce now }) o refl
step-Advances a d now (sets address nonce) u o =
    set_unlocked-Advances a d address nonce (lookup address d.row_locks) (ground arith) o
step-Advances a d now (resets address) u o =
    set_unlocked-Advances a d address 0 (lookup address d.row_locks) (ground arith) o
step-Advances a d now cleans u o =
    still a d (record d { service = clear_stale_cache d.service now }) o refl

issued-counts :
    (a : ℕ) (d : Database) (cs : List (ℕ × Step))
    → all (λ c. is_unset a c.1) cs ≡ true
    → Owned a d
    → CountsFrom a (row_nonce (lookup a d.service.table)) (issued d cs)
unfolding issued
issued-counts a d [] u o = tt
issued-counts a d ((now, c) ∷ cs) u o =
    let (o', counts, issues) = step-Advances a d now c (ground arith) o in
    CountsFrom-add a (row_nonce (lookup a d.service.table))
      (row_nonce (lookup a (step d now c).0.service.table)) (step d now c).1
      (issued (step d now c).0 cs) issues counts
      (issued-counts a (step d now c).0 cs (ground arith) o')

-- The services before any transaction is open.
abbrev pub at_rest : NonceManagementService → Database
at_rest s = record { service = s; open_ = []; row_locks = [] }

-- Under any interleaving of transactions that issue nonces with reads, cache writes and cache clearing,
-- and with nonces that are set or reset for other addresses, the nonces issued to an address count up
-- one by one from the one in its row, or from 0 where it has none: none is issued twice and none is left
-- out. That no other transaction writes a row that one has locked, and that an address has one row, are
-- taken from the database.
pub issued-CountsFrom :
    (s : NonceManagementService) (a : ℕ) (cs : List (ℕ × Step))
    → all (λ c. is_unset a c.1) cs ≡ true
    → CountsFrom a (row_nonce (lookup a s.table)) (issued (at_rest s) cs)
issued-CountsFrom s a cs u =
    issued-counts a (at_rest s) cs u (λ id t n l e c. absurd (unfold lookup in ground arith))
