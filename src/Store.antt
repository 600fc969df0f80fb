-- ===== src/Store.antt =====
-- gateway/src/db: the database and the two stores over it.
pub mod Db
pub mod Jobs
pub mod Queries
pub mod Pods
pub mod Rows
pub mod Invariant
pub mod Machine
pub mod Kept
pub mod Upkeep
pub mod Lookup
pub mod Queue
pub mod Fencing
pub mod Schema
pub mod Hydrate
pub mod Migrate
