-- ===== src/Scenarios/Messages.antt =====
-- src/simulator/mock-message-queue.provider.ts: three messages in two queues, queue 9 is live.
use stell_aiverse_backend.Prelude.{ℕ, ◌≡◌, refl, Bool, List, [], ◌∷◌, some, ◌==◌}
use stell_aiverse_backend.MessageQueue.{initialize}
use stell_aiverse_backend.MessageQueue.Fifo.{
  Operation, publishes, consumes, peeks, sizes, purges, refused, number, message, told_by_provider,
  told_by_queues, told_by_provider-fifo,
}

abbrev nine_is_live : ℕ → Bool
nine_is_live queue = queue == 9

abbrev operations : List Operation
operations =
    publishes 1 70 11 1000
    ∷ publishes 4 71 12 1001
    ∷ publishes 1 72 13 1002
    ∷ publishes 9 73 14 1003
    ∷ consumes 1
    ∷ peeks 1
    ∷ purges 4
    ∷ sizes 1
    ∷ []

operations-answers :
    told_by_queues nine_is_live (λ queue. []) operations
    ≡ number 11
      ∷ number 12
      ∷ number 13
      ∷ refused
      ∷ message (some (11, 70))
      ∷ message (some (13, 72))
      ∷ number 1
      ∷ number 1
      ∷ []
unfolding told_by_queues
operations-answers = refl

told_by_provider-fifo_example :
    told_by_provider nine_is_live initialize operations
    ≡ told_by_queues nine_is_live (λ queue. []) operations
told_by_provider-fifo_example = told_by_provider-fifo nine_is_live operations
