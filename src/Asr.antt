-- ===== src/Asr.antt =====
-- Speech recognition (asr).
pub mod Routing
pub mod Choice
