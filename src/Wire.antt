-- ===== src/Wire.antt =====
-- The wire encoding of 9P2000: the files of package p9 at the repository's root.
pub mod Types
pub mod Errors
pub mod Encode
mod Tests
pub mod Decode
pub mod Stat
pub mod Forward
pub mod Backward
pub mod Fcall
pub mod Framing
