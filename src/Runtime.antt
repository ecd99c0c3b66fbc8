-- ===== src/Runtime.antt =====
-- The worker that drives a job through its stages (runtime/worker.py).
pub mod Stage
pub mod Worker
pub mod Follows
pub mod Rounds
pub mod Moves
pub mod Success
pub mod Handled
pub mod Ends
pub mod Runs
pub mod Gate
