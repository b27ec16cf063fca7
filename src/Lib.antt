-- ===== src/Lib.antt =====
-- The core of the stellAIverse backend: parts of the server that keep state of their own and decide
-- by it. Paths are those of the repository, whose code is under src/.
--
-- Workflows of compute jobs (Dag). A client submits a graph of jobs; DagService checks it with
-- DagValidator, keeps it in memory, hands the jobs that are ready to the queue, and advances the
-- workflow on each event of a job that has ended.
--   Dag.antt            src/compute-job-queue/dag/dag.interfaces.ts: the data they share
--   Dag/Validator.antt  dag.validator.ts: validate (structural_errors, then validate_order),
--                       detectCycles (detect_cycles), topologicalSort (topological_sort)
--   Dag/Requests.antt   DTOs of dag.dto.ts, the state of dag.service.ts, and the nodes and edges that
--                       submitWorkflow builds
--   Dag/Readiness.antt  dag.service.ts: resolveReadyJobs, skipUnreachableNodes, isConditionMet
--   Dag/Service.antt    dag.service.ts: submitWorkflow, validateWorkflow, getWorkflow, cancelWorkflow,
--                       listWorkflows, handleNodeCompletion, handleNodeFailure, advanceWorkflow,
--                       finalizeWorkflow, enqueueNode, under the same names
--   Dag/Service/Events.antt  any sequence of calls and job events (registerEventListeners)
-- The queue is a function from a job to its id or to the text of what addComputeJob throws. An event
-- is handled to its end before the next one: interleavings at the awaits of enqueueNode are not
-- modelled. Error texts are constructors that hold the values that the text prints.
--
-- Circuit breakers of the AI providers (CircuitBreaker), src/compute-bridge/router: one function per
-- method of circuit-breaker.service.ts, with the data of routing.interface.ts. CircuitBreaker/Machine
-- holds the abstract machine of one provider. The router that calls the service is not modelled.
--
-- The in-memory cache (MemoryCache), src/cache/backends/memory.backend.ts: one function per method.
-- The timer of the cleanup, health and disconnect hold no state and are left out; the other backends
-- are I/O.
--
-- Delegation of signing authority (Delegation), src/auth/delegation.service.ts, with the wallet of
-- src/auth/entities/wallet.entity.ts: each method is a function from what its queries give to what it
-- answers and saves. Names, labels and the audit log are left out.
--
-- Nonces against replay (Nonces), src/oracle/services/nonce-management.service.ts: the rows of the
-- database by address and the service's cache; Nonces/Transactions has the calls as steps that may
-- interleave, with the row locks of the database.
--
-- Shards of the chain indexer (Shards), src/indexer/services/shard-manager.service.ts: the layout of
-- block ranges, the distribution of shards among instances, and the totals, for ranges whose end is not
-- below their start. Redis, with its locks and heartbeats, is not modelled.
--
-- Ranges of blocks (BlockCoordinator), src/indexer/services/block-coordinator.service.ts: the ranges
-- and the locks under their Redis keys, acquiring them (BlockCoordinator.antt), releasing, completing,
-- resetting and removing them (BlockCoordinator/Upkeep.antt), with steps for the times to live that
-- end. A method is one step there; BlockCoordinator/Commands has the Redis commands of tryAcquireRange
-- one by one.
--
-- Events (EventScheduler), src/scheduling/event-scheduler.service.ts with its two entities: the check
-- of every minute, the job for recurring events, and what administrators do (Campaigns). The calendar
-- and the reward pipeline are parameters; writes to the database do not fail.
--
-- Proposals behind a timelock (Governance), src/governance/governance.service.ts: each call on the
-- rows of the repository, with nothing in between.
--
-- Batches of jobs (BatchJobs), src/compute-job-queue/queue.service.ts: addBatchJob with its three
-- strategies (processSequentially and processByPriority are process_places, processInParallel is
-- process_in_parallel) and cancelBatchJob. What comes of a job in the Bull queue is a parameter.
--
-- Recovery of sessions (Recovery), src/auth/session-recovery.service.ts: backup codes (Recovery.antt),
-- recovery by email and the token at the end (Recovery/Completion.antt), over the challenges of
-- src/auth/challenge.service.ts (Challenges.antt). Hashes and recovered signers are parameters.
--
-- The simulator's message queue (MessageQueue), src/simulator/mock-message-queue.provider.ts, without
-- its latency.
--
-- Rewards for referrals (ReferralRewards), src/referral/reward.service.ts: handleTrigger as
-- handle_trigger, with what the audit log answers as a parameter.
--
-- Prelude.antt and Prelude/ hold what the components share: Boolean tests, lists, maps as association
-- lists in insertion order, and results that may be exceptions. Scenarios/ runs the operations and
-- applies the theorems on small inputs.
--
-- Numbers are natural numbers. Times are milliseconds and are arguments, as are generated ids and
-- random nonces; identifiers, and values that the code only hands on, are numbers. Two loops of the
-- validator, one of the service, the cutting of a batch into chunks and the test of decimal prefixes
-- take fuel. The depth-first search has one round for each node and
-- each dependency, and gets one more; the sort takes each node off its queue once, and gets one more
-- round than there are nodes; each round of skipUnreachableNodes but the last skips a node, and it too
-- gets one more round than there are nodes. A batch has no more chunks than jobs, and a number no more
-- digits than its value.
--
-- The rest of the repository (HTTP controllers, database records, providers, metrics, floating-point
-- analytics) is not modelled here.
pub mod Prelude
pub mod Dag
pub mod CircuitBreaker
pub mod MemoryCache
pub mod Delegation
pub mod Nonces
pub mod Shards
pub mod BlockCoordinator
pub mod EventScheduler
pub mod Governance
pub mod BatchJobs
pub mod MessageQueue
pub mod Challenges
pub mod Recovery
pub mod ReferralRewards
mod Scenarios
