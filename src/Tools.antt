-- ===== src/Tools.antt =====
-- internal/tools: the handlers of the MCP tools.
pub mod Reply
pub mod Cycle
pub mod Threads
pub mod Status
pub mod Request
pub mod Wait
pub mod Auth
pub mod Diagnostics
pub mod Watches
