-- ===== src/BlockCoordinator/Commands.antt =====
-- src/indexer/services/block-coordinator.service.ts, `tryAcquireRange`: the commands that any number of
-- calls send to Redis for one range, one at a time in any order. A call is known by a number of its
-- own. A lock outlives the commands of the call that took it: `lockTTL` is 300 seconds. The other methods
-- send nothing for the range meanwhile.
use stell_aiverse_backend.Prelude.{
  ℕ, ◌≡◌, refl, ◌∙◌, sym, Option-cases, inl, inr, ◌⊎◌, false, List, [], ◌∷◌, Option, none, some,
  if◌then◌else◌, Bool-cases, lookup, insert, remove,
}
use stell_aiverse_backend.BlockCoordinator.{
  BlockRange, BlockCoordinatorService, try_acquire_range, try_locked, get, set, BlockRangeStatus,
  is_processing, acquired_status,
}
use stell_aiverse_backend.BlockCoordinator.Entries.{get-set, same_range_refl}

-- How far a call is: it has the lock, it has read a status that it may replace, or it gives the lock
-- back.
pub data Stage : Type 0 where
  reading : ℕ → Stage
  writing : ℕ → BlockRangeStatus → Stage
  leaving : Stage

-- The values under the range's two keys, and the calls between their first and last command.
pub record RangeKeys : Type 0 where
  pub entry : Option BlockRangeStatus
  pub lock : Option ℕ
  pub calls : List (ℕ × Stage)

-- `SET … NX` of a call for an instance, `GET`, `SETEX` and `DEL` of a call, the end of the lock's time.
pub data Command : Type 0 where
  sets_lock : ℕ → ℕ → Command
  gets puts dels : ℕ → Command
  lock_expires : Command

abbrev pub lock_set : RangeKeys → ℕ → ℕ → Option ℕ → Option Stage → RangeKeys
lock_set k id i (some owner) g = k
lock_set k id i none (some g) = k
lock_set k id i none none = record k { lock = some i; calls = insert id (reading i) k.calls }

-- The status that was read.
abbrev pub seen : ℕ → Option BlockRangeStatus → Stage
seen i none = leaving
seen i (some status) = if is_processing status.status then leaving else writing i status

abbrev pub got : RangeKeys → ℕ → Option Stage → RangeKeys
got k id (some (reading i)) = record k { calls = insert id (seen i k.entry) k.calls }
got k id (some (writing i status)) = k
got k id (some leaving) = k
got k id none = k

-- The answer names the instance that has acquired the range.
abbrev pub put : RangeKeys → ℕ → ℕ → Option Stage → RangeKeys × Option ℕ
put k id now (some (writing i status)) =
    (record k { entry = some (acquired_status status i now); calls = remove id k.calls }, some i)
put k id now (some (reading i)) = (k, none)
put k id now (some leaving) = (k, none)
put k id now none = (k, none)

abbrev pub lock_freed : RangeKeys → ℕ → Option Stage → RangeKeys
lock_freed k id (some leaving) = record k { lock = none; calls = remove id k.calls }
lock_freed k id (some (reading i)) = k
lock_freed k id (some (writing i status)) = k
lock_freed k id none = k

abbrev pub lock_ended : RangeKeys → List (ℕ × Stage) → RangeKeys
lock_ended k [] = record k { lock = none }
lock_ended k (c ∷ cs) = k

unfoldable pub execute : RangeKeys → ℕ → Command → RangeKeys × Option ℕ
execute k now (sets_lock id i) = (lock_set k id i k.lock (lookup id k.calls), none)
execute k now (gets id) = (got k id (lookup id k.calls), none)
execute k now (puts id) = put k id now (lookup id k.calls)
execute k now (dels id) = (lock_freed k id (lookup id k.calls), none)
execute k now lock_expires = (lock_ended k k.calls, none)

abbrev pub add_winner : Option ℕ → List ℕ → List ℕ
add_winner none l = l
add_winner (some i) l = i ∷ l

-- The keys after a series of commands, and the instances that have acquired the range, in order.
unfoldable pub execute_all : RangeKeys → List (ℕ × Command) → RangeKeys × List ℕ
unfolding execute
execute_all k [] = (k, [])
execute_all k ((now, c) ∷ cs) =
    let (k', winner) = execute k now c in
    let (k'', l) = execute_all k' cs in (k'', add_winner winner l)

abbrev pub quiet : Option BlockRangeStatus → Option ℕ → RangeKeys
quiet e l = record { entry = e; lock = l; calls = [] }

abbrev busy : Option BlockRangeStatus → ℕ → ℕ → Stage → RangeKeys
busy e owner id g = record { entry = e; lock = some owner; calls = (id, g) ∷ [] }

-- What a call has read is still there.
abbrev Fits : Option BlockRangeStatus → Stage → Type 0
Fits e (reading i) = Unit
Fits e (writing i status) = (e ≡ some status) × (is_processing status.status ≡ false)
Fits e leaving = Unit

-- No call is under way, or one is, and it has the lock.
abbrev One : Option BlockRangeStatus → RangeKeys → Type 0
One e k =
    ((l : Option ℕ) × (k ≡ quiet e l))
    ⊎ ((owner : ℕ) × (id : ℕ) × (g : Stage) × (k ≡ busy e owner id g) × Fits e g)

-- A command that leaves the entry as it is, or acquires the range.
abbrev Moves : Option BlockRangeStatus → RangeKeys × Option ℕ → Type 0
Moves e (k, winner) =
    ((winner ≡ none) × One e k)
    ⊎ ((i : ℕ) × (status : BlockRangeStatus) × (now : ℕ) × (winner ≡ some i)
        × (e ≡ some status)
        × (is_processing status.status ≡ false)
        × One (some (acquired_status status i now)) k)

-- How a series of commands ends: nobody has acquired the range, or one instance has.
abbrev pub Ends : Option BlockRangeStatus → RangeKeys × List ℕ → Type 0
Ends e (k, winners) =
    ((winners ≡ []) × (k.entry ≡ e))
    ⊎ ((i : ℕ) × (status : BlockRangeStatus) × (now : ℕ) × (winners ≡ i ∷ [])
        × (e ≡ some status)
        × (is_processing status.status ≡ false)
        × (k.entry ≡ some (acquired_status status i now)))

-- The commands of one call that is alone: it gives the lock back unless it acquires the range.
abbrev alone : ℕ → ℕ → List (ℕ × Command)
alone i now = (now, sets_lock 0 i) ∷ (now, gets 0) ∷ (now, puts 0) ∷ (now, dels 0) ∷ []

set-own {ℓ} :
    {V : Type ℓ} (r : BlockRange) (v : V) (m : List (BlockRange × V)) → get r (set r v m) ≡ some v
set-own r v m = get-set r r v m ∙ rw (same_range_refl r) refl

-- A call that is alone does what `try_acquire_range` does in one step.
try_acquire_range-alone :
    (s : BlockCoordinatorService) (r : BlockRange) (i now : ℕ)
    → let (s', acquired) = try_acquire_range s r i now in
      let (k, winners) = execute_all (quiet (get r s.ranges) (get r s.locks)) (alone i now) in
      (k.entry ≡ get r s'.ranges)
      × (k.lock ≡ get r s'.locks)
      × (winners ≡ (if acquired then i ∷ [] else []))
unfolding try_acquire_range try_locked execute_all execute lookup insert remove
try_acquire_range-alone s r i now = elim (Option-cases (get r s.locks)) [
  | inr (owner, taken) ↦ rw (taken, try_acquire_range) (refl, sym taken, refl)
  | inl free ↦ elim (Option-cases (get r s.ranges)) [
    | inl absent ↦ rw (free, absent, try_acquire_range, try_locked) (sym absent, sym free, refl)
    | inr (status, there) ↦ elim (Bool-cases (is_processing status.status)) [
      | inl hit ↦ rw (free, there, hit, try_acquire_range, try_locked) (sym there, sym free, refl)
      | inr miss ↦
          rw (free, there, miss, try_acquire_range, try_locked)
            (
              sym (set-own r (acquired_status status i now) s.ranges),
              sym (set-own r i s.locks),
              refl,
            )
    ]
  ]
]
