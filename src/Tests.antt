-- ===== src/Tests.antt =====
-- The theorems at concrete inputs, with a small model of `double`.
pub mod Halves
pub mod Small
mod Consolidate
mod Files
mod Databases
mod Caching
mod Fetches
mod Steps
mod Updates
mod Rpns
mod Predictions
