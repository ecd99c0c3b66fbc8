-- ===== src/Bridge.antt =====
-- The MCP bridge's reading of the engine's list pages (mcp/listing.py).
pub mod Wire
pub mod Pages
pub mod Windows
pub mod Accepting
pub mod Served
