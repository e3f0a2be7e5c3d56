-- ===== src/Server.antt =====
-- The server: the calls that run a command, the storage of a branch, and the gates for sign-ins.
pub mod WorkGate
pub mod LoginQuota
pub mod Repository
pub mod CommandStore
pub mod Aggregates
pub mod Storage
pub mod Rollups
