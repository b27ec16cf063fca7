-- ===== src/MessageQueue/Fifo.antt =====
-- src/simulator/mock-message-queue.provider.ts: the provider and queues that are first in, first out.
use stell_aiverse_backend.Prelude.{
  ℕ, ◌≡◌, refl, sym, ap, ◌∙◌, inl, inr, Bool, false, List, [], ◌∷◌, ◌++◌, Option, none, some,
  Result, ok, err, ◌==◌, ==_iff, if◌then◌else◌, length, keep, find_first, lookup, insert, arith,
  Bool-cases, Option-cases, lookup-insert,
}
use stell_aiverse_backend.MessageQueue.{
  QueuedMessage, MockMessageQueueProvider, QueueError, initialize, get_all_messages, is_waiting,
  publish, process_first, consume, peek, get_queue_size, purge_queue, reset,
}

-- What a caller does with queues.
pub data Operation : Type 0 where
  publishes : ℕ → ℕ → ℕ → ℕ → Operation
  consumes : ℕ → Operation
  peeks : ℕ → Operation
  sizes : ℕ → Operation
  purges : ℕ → Operation
  resets : Operation

-- What the caller is told: an id or a number, the id and the payload of a message, or nothing.
pub data Answer : Type 0 where
  refused : Answer
  number : ℕ → Answer
  message : Option (ℕ × ℕ) → Answer
  silent : Answer

-- Queues as lists of ids with payloads, first in first out, by name.
abbrev pub Queues : Type 0
Queues = ℕ → List (ℕ × ℕ)

abbrev pub head : List (ℕ × ℕ) → Option (ℕ × ℕ)
head [] = none
head (m ∷ ms) = some m

abbrev pub tail : List (ℕ × ℕ) → List (ℕ × ℕ)
tail [] = []
tail (m ∷ ms) = ms

abbrev pub replace : ℕ → List (ℕ × ℕ) → Queues → Queues
replace queue ms q = λ asked. if queue == asked then ms else q asked

module _ (is_live : ℕ → Bool) where
  abbrev pub fifo : Queues → Operation → Queues × Answer
  fifo q (publishes queue payload id now) =
      if is_live queue
      then (q, refused)
      else (replace queue (q queue ++ (id, payload) ∷ []) q, number id)
  fifo q (consumes queue) = (replace queue (tail (q queue)) q, message (head (q queue)))
  fifo q (peeks queue) = (q, message (head (q queue)))
  fifo q (sizes queue) = (q, number (length (q queue)))
  fifo q (purges queue) =
      if is_live queue then (q, refused) else (replace queue [] q, number (length (q queue)))
  fifo q resets = ((λ asked. []), silent)

  abbrev pub answer_id : Result QueueError ℕ → Answer
  answer_id (ok id) = number id
  answer_id (err e) = refused

  abbrev pub content : QueuedMessage → ℕ × ℕ
  content m = (m.id, m.payload)

  abbrev pub answer_message : Option QueuedMessage → Answer
  answer_message none = message none
  answer_message (some m) = message (some (content m))

  unfoldable pub perform : MockMessageQueueProvider → Operation → MockMessageQueueProvider × Answer
  unfolding publish consume peek get_queue_size purge_queue reset
  perform s (publishes queue payload id now) =
      let (s', r) = publish is_live s queue payload id now in (s', answer_id r)
  perform s (consumes queue) = let (s', m) = consume s queue in (s', answer_message m)
  perform s (peeks queue) = (s, answer_message (peek s queue))
  perform s (sizes queue) = (s, number (get_queue_size s queue))
  perform s (purges queue) = let (s', r) = purge_queue is_live s queue in (s', answer_id r)
  perform s resets = (reset s, silent)

  abbrev pub contents : List QueuedMessage → List (ℕ × ℕ)
  contents [] = []
  contents (m ∷ ms) = let rest = contents ms in if m.processed then rest else content m ∷ rest

  -- The messages that wait in each queue.
  abbrev pub waiting : MockMessageQueueProvider → Queues
  waiting s queue = contents (get_all_messages s queue)

  -- The provider behaves as the queues do, and its messages that wait are theirs.
  abbrev pub Agrees : MockMessageQueueProvider → Queues → Type 0
  Agrees s q = (queue : ℕ) → waiting s queue ≡ q queue

  contents-append :
      (ms : List QueuedMessage) (m : QueuedMessage)
      → m.processed ≡ false
      → contents (ms ++ m ∷ []) ≡ contents ms ++ content m ∷ []
  contents-append [] m h = rw h refl
  contents-append (n ∷ ms) m h = elim (Bool-cases n.processed) [
    | inl done ↦ rw done (contents-append ms m h)
    | inr waits ↦ rw (waits, contents-append ms m h) refl
  ]

  contents-process_first :
      (ms : List QueuedMessage) → contents (process_first ms) ≡ tail (contents ms)
  unfolding process_first
  contents-process_first [] = refl
  contents-process_first (m ∷ ms) = elim (Bool-cases m.processed) [
    | inl done ↦ rw (done, contents-process_first ms) refl
    | inr waits ↦ rw waits refl
  ]

  find-contents :
      (ms : List QueuedMessage)
      → answer_message (find_first is_waiting ms) ≡ message (head (contents ms))
  find-contents [] = refl
  find-contents (m ∷ ms) = elim (Bool-cases m.processed) [
    | inl done ↦ rw (done, find-contents ms) refl
    | inr waits ↦ rw waits refl
  ]

  length-contents : (ms : List QueuedMessage) → length (keep is_waiting ms) ≡ length (contents ms)
  length-contents [] = refl
  length-contents (m ∷ ms) = elim (Bool-cases m.processed) [
    | inl done ↦ rw (done, length-contents ms) refl
    | inr waits ↦ rw (waits, length-contents ms) refl
  ]

  waiting-insert :
      (s : MockMessageQueueProvider) (queue asked : ℕ) (ms : List QueuedMessage) (log : List ℕ)
      (n : ℕ)
      → waiting
          (record {
            queues = insert queue ms s.queues;
            message_log = log;
            live_submission_count = n;
          })
          asked
        ≡ (if queue == asked then contents ms else waiting s asked)
  unfolding get_all_messages
  waiting-insert s queue asked ms log n = elim (Bool-cases (queue == asked)) [
    | inl same ↦ rw (lookup-insert queue asked ms s.queues, same) refl
    | inr other ↦ rw (lookup-insert queue asked ms s.queues, other) refl
  ]

  -- The provider's operation and that of the queues tell the same and lead to states that agree.
  abbrev pub Matches : MockMessageQueueProvider × Answer → Queues × Answer → Type 0
  Matches a b = Agrees a.0 b.0 × (a.1 ≡ b.1)

  get_queue_size-fifo :
      (s : MockMessageQueueProvider) (q : Queues) (queue : ℕ)
      → Agrees s q
      → get_queue_size s queue ≡ length (q queue)
  unfolding get_queue_size
  get_queue_size-fifo s q queue h = length-contents (get_all_messages s queue) ∙ ap length (h queue)

  nothing_left : (ms : List (ℕ × ℕ)) → message none ≡ message (head ms) → ms ≡ []
  nothing_left [] h = refl
  nothing_left (m ∷ ms) h = absurd (ground arith)

  replace-tail :
      (q : Queues) (queue asked : ℕ)
      → q queue ≡ []
      → replace queue (tail (q queue)) q asked ≡ q asked
  replace-tail q queue asked h = elim (Bool-cases (queue == asked)) [
    | inl same ↦
        let e : queue ≡ asked = (==_iff queue asked).0 same in rw (same, h) (sym (rw e at h))
    | inr other ↦ rw other refl
  ]

  publish-fifo :
      (s : MockMessageQueueProvider) (q : Queues) (queue payload id now : ℕ)
      → Agrees s q
      → Matches
          (perform s (publishes queue payload id now))
          (fifo q (publishes queue payload id now))
  unfolding perform publish
  publish-fifo s q queue payload id now h = elim (Bool-cases (is_live queue)) [
    | inl live ↦ rw (perform, publish, live) (h, refl)
    | inr mock ↦
        let m : QueuedMessage = record {
          id = id;
          payload = payload;
          timestamp = now;
          processed = false;
        } in
        let added = contents-append (get_all_messages s queue) m refl in
        rw (perform, publish, mock)
          (
            λ asked.
                waiting-insert s queue asked (get_all_messages s queue ++ m ∷ [])
                  (s.message_log ++ id ∷ []) s.live_submission_count
                ∙ rw (added, h queue, h asked) refl,
            refl,
          )
  ]

  consume-fifo :
      (s : MockMessageQueueProvider) (q : Queues) (queue : ℕ)
      → Agrees s q
      → Matches (perform s (consumes queue)) (fifo q (consumes queue))
  unfolding perform consume
  consume-fifo s q queue h =
      let told = find-contents (get_all_messages s queue) in
      elim (Option-cases (find_first is_waiting (get_all_messages s queue))) [
        | inl nothing ↦
            rw (perform, consume, nothing)
              (
                λ asked.
                    h asked
                    ∙ sym (
                        replace-tail q queue asked
                          (nothing_left (q queue) (rw (nothing, h queue) at told))),
                rw (nothing, h queue) at told,
              )
        | inr (m, found) ↦
            rw (perform, consume, found)
              (
                λ asked.
                    waiting-insert s queue asked (process_first (get_all_messages s queue))
                      s.message_log s.live_submission_count
                    ∙ rw (contents-process_first (get_all_messages s queue), h queue, h asked) refl,
                rw (found, h queue) at told,
              )
      ]

  purge_queue-fifo :
      (s : MockMessageQueueProvider) (q : Queues) (queue : ℕ)
      → Agrees s q
      → Matches (perform s (purges queue)) (fifo q (purges queue))
  unfolding perform purge_queue get_queue_size
  purge_queue-fifo s q queue h = elim (Bool-cases (is_live queue)) [
    | inl live ↦ rw (perform, purge_queue, live) (h, refl)
    | inr mock ↦
        rw (perform, purge_queue, mock)
          (
            λ asked.
                waiting-insert s queue asked [] s.message_log s.live_submission_count
                ∙ rw (h asked) refl,
            ap number (get_queue_size-fifo s q queue h),
          )
  ]

  initialize-empty : (queue : ℕ) → waiting initialize queue ≡ []
  unfolding initialize get_all_messages lookup
  initialize-empty queue = ground arith

  perform-fifo :
      (s : MockMessageQueueProvider) (q : Queues) (op : Operation)
      → Agrees s q
      → Matches (perform s op) (fifo q op)
  unfolding perform reset initialize peek get_all_messages
  perform-fifo s q (publishes queue payload id now) h = publish-fifo s q queue payload id now h
  perform-fifo s q (consumes queue) h = consume-fifo s q queue h
  perform-fifo s q (peeks queue) h = (h, rw (h queue) at (find-contents (get_all_messages s queue)))
  perform-fifo s q (sizes queue) h = (h, ap number (get_queue_size-fifo s q queue h))
  perform-fifo s q (purges queue) h = purge_queue-fifo s q queue h
  perform-fifo s q resets h = (initialize-empty, refl)

  -- What a series of operations tells, by the provider and by the queues.
  unfoldable pub told_by_provider : MockMessageQueueProvider → List Operation → List Answer
  unfolding perform
  told_by_provider s [] = []
  told_by_provider s (op ∷ ops) = let (s', a) = perform s op in a ∷ told_by_provider s' ops

  unfoldable pub told_by_queues : Queues → List Operation → List Answer
  told_by_queues q [] = []
  told_by_queues q (op ∷ ops) = let (q', a) = fifo q op in a ∷ told_by_queues q' ops

  told-fifo :
      (s : MockMessageQueueProvider) (q : Queues) (ops : List Operation)
      → Agrees s q
      → told_by_provider s ops ≡ told_by_queues q ops
  unfolding told_by_provider told_by_queues
  told-fifo s q [] h = refl
  told-fifo s q (op ∷ ops) h =
      let (h', same) = perform-fifo s q op h in
      rw (same, told-fifo (perform s op).0 (fifo q op).0 ops h') refl

  -- A new provider tells its callers what queues by name that are first in, first out would tell, in
  -- every series of publishing, consuming, peeking, asking for sizes, purging and resetting, live queues
  -- refused.
  pub told_by_provider-fifo :
      (ops : List Operation) → told_by_provider initialize ops ≡ told_by_queues (λ queue. []) ops
  told_by_provider-fifo ops = told-fifo initialize (λ queue. []) ops initialize-empty
