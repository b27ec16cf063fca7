-- ===== src/MessageQueue.antt =====
-- src/simulator/mock-message-queue.provider.ts: queues of messages in simulations. Names of queues, ids
-- and payloads are numbers. A queue's messages are held by value: each message object is in one queue.
-- The log, which holds the same objects, is their ids. `is_live` stands for the three patterns that the names
-- of live queues match; ids come from the generator of random numbers and are arguments, like times. Latency is not modelled.
pub mod Fifo
use stell_aiverse_backend.Prelude.{
  ℕ, ◌+◌, Bool, true, false, List, [], ◌∷◌, ◌++◌, Option, none, some, Result, ok, err, ◌==◌,
  if◌then◌else◌, not, length, keep, any, find_first, lookup, insert,
}

pub record QueuedMessage : Type 0 where
  pub id : ℕ
  pub payload : ℕ
  pub timestamp : ℕ
  pub processed : Bool

pub record MockMessageQueueProvider : Type 0 where
  pub queues : List (ℕ × List QueuedMessage)
  pub message_log : List ℕ
  pub live_submission_count : ℕ

pub data QueueError : Type 0 where
  live_submission_blocked : QueueError
  live_operation_blocked : QueueError

-- The default queues `default`, `tasks` and `events` are 0, 1 and 2.
unfoldable pub initialize : MockMessageQueueProvider
initialize = record {
  queues = (0, []) ∷ (1, []) ∷ (2, []) ∷ [];
  message_log = [];
  live_submission_count = 0;
}

unfoldable pub reset : MockMessageQueueProvider → MockMessageQueueProvider
unfolding initialize
reset s = initialize

-- `this.queues.get(queue) || []`
abbrev pub or_empty : Option (List QueuedMessage) → List QueuedMessage
or_empty none = []
or_empty (some ms) = ms

unfoldable pub get_all_messages : MockMessageQueueProvider → ℕ → List QueuedMessage
get_all_messages s queue = or_empty (lookup queue s.queues)

abbrev pub is_waiting : QueuedMessage → Bool
is_waiting m = not m.processed

-- A live queue's error leaves the provider with one more live submission.
unfoldable pub publish :
    (ℕ → Bool)
    → MockMessageQueueProvider
    → ℕ
    → ℕ
    → ℕ
    → ℕ
    → MockMessageQueueProvider × Result QueueError ℕ
unfolding get_all_messages
publish is_live s queue payload id now =
    if is_live queue
    then (
      record s { live_submission_count = s.live_submission_count + 1 },
      err live_submission_blocked,
    )
    else (
      record s {
        queues =
            insert queue
              (get_all_messages s queue
                ++ record { id = id; payload = payload; timestamp = now; processed = false } ∷ [])
              s.queues;
        message_log = s.message_log ++ id ∷ [];
      },
      ok id,
    )

-- `message.processed = true` on the first message that waits
unfoldable pub process_first : List QueuedMessage → List QueuedMessage
process_first [] = []
process_first (m ∷ ms) =
    let rest = process_first ms in
    if is_waiting m then record m { processed = true } ∷ ms else m ∷ rest

abbrev pub mark_processed : QueuedMessage → QueuedMessage
mark_processed m = record m { processed = true }

-- The message that is returned is the object in the queue, with its new flag. A queue that is not
-- in the map stays so.
unfoldable pub consume :
    MockMessageQueueProvider → ℕ → MockMessageQueueProvider × Option QueuedMessage
unfolding process_first get_all_messages
consume s queue = elim (find_first is_waiting (get_all_messages s queue)) [
  | none ↦ (s, none)
  | some m ↦ (
    record s { queues = insert queue (process_first (get_all_messages s queue)) s.queues },
    some (mark_processed m),
  )
]

unfoldable pub peek : MockMessageQueueProvider → ℕ → Option QueuedMessage
unfolding get_all_messages
peek s queue = find_first is_waiting (get_all_messages s queue)

unfoldable pub get_queue_size : MockMessageQueueProvider → ℕ → ℕ
unfolding get_all_messages
get_queue_size s queue = length (keep is_waiting (get_all_messages s queue))

unfoldable pub purge_queue :
    (ℕ → Bool) → MockMessageQueueProvider → ℕ → MockMessageQueueProvider × Result QueueError ℕ
unfolding get_queue_size
purge_queue is_live s queue =
    if is_live queue
    then (
      record s { live_submission_count = s.live_submission_count + 1 },
      err live_operation_blocked,
    )
    else (record s { queues = insert queue [] s.queues }, ok (get_queue_size s queue))

-- `processed` of the first message with the id
unfoldable pub set_processed : ℕ → Bool → List QueuedMessage → List QueuedMessage
set_processed id flag [] = []
set_processed id flag (m ∷ ms) =
    let rest = set_processed id flag ms in
    if m.id == id then record m { processed = flag } ∷ ms else m ∷ rest

-- The loop of `ack` and of `requeue` over the queues; the flag tells whether the message is found.
unfoldable pub set_in_queues :
    ℕ → Bool → List (ℕ × List QueuedMessage) → List (ℕ × List QueuedMessage) × Bool
unfolding set_processed
set_in_queues id flag [] = ([], false)
set_in_queues id flag ((queue, ms) ∷ queues) =
    let (rest, found) = set_in_queues id flag queues in
    if any (λ m. m.id == id) ms
    then ((queue, set_processed id flag ms) ∷ queues, true)
    else ((queue, ms) ∷ rest, found)

unfoldable pub ack : MockMessageQueueProvider → ℕ → MockMessageQueueProvider × Bool
unfolding set_in_queues
ack s id =
    let (queues, found) = set_in_queues id true s.queues in (record s { queues = queues }, found)

unfoldable pub requeue : MockMessageQueueProvider → ℕ → MockMessageQueueProvider × Bool
unfolding set_in_queues
requeue s id =
    let (queues, found) = set_in_queues id false s.queues in (record s { queues = queues }, found)
