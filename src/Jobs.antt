-- ===== src/Jobs.antt =====
-- jobs/states.py and jobs/transitions.py
pub mod States
pub mod Transitions
pub mod Graph
pub mod Facts
