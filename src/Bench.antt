-- ===== src/Bench.antt =====
-- The benchmark program of bench/embed_vs_sqlite.
pub mod Batching
pub mod Keys
pub mod Payload
pub mod Run
pub mod Phases
pub mod EnginePhases
pub mod Sqlite
pub mod Restart
pub mod Plan
pub mod Runs
pub mod Main
pub mod Rows
pub mod Slices
pub mod Loaded
pub mod Limit
pub mod Profiles
pub mod Phase
pub mod Manifest
pub mod Compare
pub mod Report
pub mod Writer
pub mod Texts
pub mod Repo
pub mod ReadTax
pub mod Machine
mod Tests
mod OpenTests
pub mod RunTests
mod ReadTests
mod MainTests
pub mod RepoTests
