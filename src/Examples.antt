-- ===== src/Examples.antt =====
-- Concrete instances of the interfaces, with which the theorems are applied to small runs.
pub mod Batches
pub mod Codec
pub mod Jobs
pub mod Keys
pub mod Limits
pub mod Runs
pub mod Server
