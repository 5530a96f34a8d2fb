-- ===== src/Outcomes.antt =====
-- What each operation of the lease store answers, and what it does to the tables.
pub mod Acquire
pub mod Stored
pub mod Total
pub mod Full
pub mod Ended
pub mod Authority
pub mod Handoff
pub mod Promote
