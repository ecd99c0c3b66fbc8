-- ===== src/Transcript.antt =====
-- The text of a transcript: transcript/chunker.py.
pub mod Chunker
pub mod Bounds
