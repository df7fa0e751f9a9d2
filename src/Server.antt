-- ===== src/Server.antt =====
-- package server: server/server.go, server/conn.go, server/dispatch.go and server/dir.go.
pub mod Backend
pub mod Conn
pub mod Dispatch
pub mod Schedule
pub mod Dir
pub mod Sample
mod Tests
