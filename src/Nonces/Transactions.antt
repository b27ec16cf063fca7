-- ===== src/Nonces/Transactions.antt =====
-- src/oracle/services/nonce-management.service.ts: the services' calls, interleaved. A transaction of
-- `getAndIncrementNonce` reads, and later writes and commits. A row that it has read is locked until
-- then (`pessimistic_write`): another transaction, or a write of `setNonce`, waits for it, which is a step
-- that does nothing yet. Where there is no row nothing is locked, and the insert of a row that has come
-- into being meanwhile throws, since addresses are unique. `cleanupOldNonces` is left out.
use stell_aiverse_backend.Prelude.{
  ℕ, ◌+◌, List, [], ◌∷◌, Option, none, some, lookup, insert, remove,
}
use stell_aiverse_backend.Nonces.{
  NonceManagementService, SubmissionNonce, fetch_nonce, fill_cache, set_nonce, clear_stale_cache,
}

-- What a transaction has read: the nonce of the address's row, if there is one.
pub record Transaction : Type 0 where
  pub address : ℕ
  pub current : Option ℕ

-- The open transactions by their ids, and the one that has locked the row of an address.
pub record Database : Type 0 where
  pub service : NonceManagementService
  pub open_ : List (ℕ × Transaction)
  pub row_locks : List (ℕ × ℕ)

pub data Step : Type 0 where
  begins : ℕ → ℕ → Step
  commits : ℕ → Step
  fetches : ℕ → Step
  fills : ℕ → ℕ → Step
  sets : ℕ → ℕ → Step
  resets : ℕ → Step
  cleans : Step

abbrev pub opened : Database → ℕ → Transaction → Database
opened d id t = record d { open_ = insert id t d.open_ }

-- The read of transaction `id` for the address, by what is there: its row, and the row's lock.
abbrev pub begun : Database → ℕ → ℕ → Option SubmissionNonce → Option ℕ → Database
begun d id address none owner = opened d id (record { address = address; current = none })
begun d id address (some row) (some owner) = d
begun d id address (some row) none =
    record (opened d id (record { address = address; current = some row.nonce })) {
      row_locks = insert address id d.row_locks;
    }

-- An id is that of one transaction at a time.
abbrev pub begin : Database → ℕ → ℕ → Option Transaction → Database
begin d id address (some t) = d
begin d id address none =
    begun d id address (lookup address d.service.table) (lookup address d.row_locks)

-- `nonceEntity.nonce = nextNonce`, the save, and the deletion from the cache.
abbrev pub written : NonceManagementService → ℕ → ℕ → ℕ → NonceManagementService
written s address current now = record {
  table = insert address (record { nonce = current + 1; last_used_at = some now }) s.table;
  nonce_cache = remove address s.nonce_cache;
}

abbrev pub closed : Database → ℕ → Database
closed d id = record d { open_ = remove id d.open_ }

-- The insert of a new row, by what row is there by now: it throws, or `0` is issued.
abbrev pub inserted : Database → ℕ → ℕ → ℕ → Option SubmissionNonce → Database × Option (ℕ × ℕ)
inserted d id address now (some row) = (closed d id, none)
inserted d id address now none =
    (record (closed d id) { service = written d.service address 0 now }, some (address, 0))

abbrev pub committed : Database → ℕ → ℕ → ℕ → Option ℕ → Database × Option (ℕ × ℕ)
committed d id address now none = inserted d id address now (lookup address d.service.table)
committed d id address now (some current) = (
  record {
    service = written d.service address current now;
    open_ = remove id d.open_;
    row_locks = remove address d.row_locks;
  },
  some (address, current),
)

abbrev pub commit : Database → ℕ → ℕ → Option Transaction → Database × Option (ℕ × ℕ)
commit d id now none = (d, none)
commit d id now (some t) = committed d id t.address now t.current

abbrev pub set_unlocked : Database → ℕ → ℕ → Option ℕ → Database
set_unlocked d address nonce (some owner) = d
set_unlocked d address nonce none = record d { service = set_nonce d.service address nonce }

-- A step, and the nonce that it issues with its address.
unfoldable pub step : Database → ℕ → Step → Database × Option (ℕ × ℕ)
unfolding fetch_nonce fill_cache set_nonce clear_stale_cache
step d now (begins id address) = (begin d id address (lookup id d.open_), none)
step d now (commits id) = commit d id now (lookup id d.open_)
step d now (fetches address) = (record d { service = (fetch_nonce d.service address).0 }, none)
step d now (fills address nonce) =
    (record d { service = fill_cache d.service address nonce now }, none)
step d now (sets address nonce) = (set_unlocked d address nonce (lookup address d.row_locks), none)
step d now (resets address) = (set_unlocked d address 0 (lookup address d.row_locks), none)
step d now cleans = (record d { service = clear_stale_cache d.service now }, none)

abbrev pub add_issued : Option (ℕ × ℕ) → List (ℕ × ℕ) → List (ℕ × ℕ)
add_issued none l = l
add_issued (some e) l = e ∷ l

-- The nonces that a schedule of steps issues, in order.
unfoldable pub issued : Database → List (ℕ × Step) → List (ℕ × ℕ)
unfolding step
issued d [] = []
issued d ((now, c) ∷ cs) = let (d', e) = step d now c in add_issued e (issued d' cs)
