-- ===== src/Delta.antt =====
-- Package delta: text delta windows, their svndiff encoding, and the delta computation.
pub mod Varint
pub mod Window
pub mod Instructions
pub mod Xdelta
pub mod Svndiff
pub mod Stream
