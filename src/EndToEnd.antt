-- ===== src/EndToEnd.antt =====
-- The client's directory reads over the server's dispatch.
pub mod Listing
pub mod Wire
pub mod Session
mod Tests
