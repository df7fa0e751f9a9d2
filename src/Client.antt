-- ===== src/Client.antt =====
-- package client: client/mux.go, and parts of client/file.go.
pub mod Mux
pub mod Link
pub mod Rpc
pub mod Io
pub mod Fid
pub mod ReadDir
pub mod Walk
pub mod Session
mod Tests
