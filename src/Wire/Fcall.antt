-- ===== src/Wire/Fcall.antt =====
-- fcall.go: the messages of 9P2000 and the coding of their bodies.
pub mod Types
pub mod Encode
pub mod Decode
pub mod RoundTrip
pub mod Canonical
