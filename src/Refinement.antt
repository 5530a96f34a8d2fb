-- ===== src/Refinement.antt =====
-- The transactions of internal/store/postgres make the moves of the ledger, and no others.
pub mod Capacities
pub mod Oldest
pub mod Grants
pub mod Promote
pub mod Acquire
pub mod Mutate
pub mod Expire
pub mod Handoff
