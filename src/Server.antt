-- ===== src/Server.antt =====
-- cmd/server/main.go and the set-up of the MCP handler in internal/tools.
pub mod Handshake
pub mod Handler
pub mod Config
pub mod Main
