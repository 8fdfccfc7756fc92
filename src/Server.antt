-- ===== src/Server.antt =====
-- src/server.ts
pub mod Sessions
pub mod Json
pub mod Gate
pub mod Route
pub mod Requests
pub mod Admission
pub mod Entitled
pub mod Ownership
pub mod Body
pub mod ToolCall
mod Tests
