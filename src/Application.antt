-- ===== src/Application.antt =====
-- The use cases over the job queue: application/submit.py and queue_blockers.py.
pub mod Submit
pub mod Reuse
pub mod Blockers
