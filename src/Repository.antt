-- ===== src/Repository.antt =====
-- internal/repository/postgres.go, over the tables that it queries.
pub mod Tables
pub mod Tx
pub mod Statements
pub mod Queries
pub mod Outcome
pub mod Removal
pub mod Lease
pub mod Order
pub mod Found
pub mod Steps
pub mod Refines
pub mod Unique
pub mod Invariant
pub mod Grows
pub mod History
pub mod Announced
pub mod Topics
pub mod Contract
