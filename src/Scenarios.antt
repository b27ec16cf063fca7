-- ===== src/Scenarios.antt =====
-- The operations and the theorems on small inputs, a module for each component.
mod Validation
mod Workflows
mod Breakers
mod Caches
mod Delegations
mod Oracles
mod Indexers
mod Ranges
mod Events
mod Proposals
mod Batches
mod Messages
mod Recoveries
mod Referrals
