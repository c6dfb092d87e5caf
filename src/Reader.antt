-- ===== src/Reader.antt =====
-- message.go: `MessageReader`, which cuts the bytes of a connection into segments, and these into
-- messages.
pub mod Defs
pub mod Header
pub mod Messages
pub mod Blocks
pub mod Loop
pub mod Fuel
pub mod Progress
pub mod Batch
pub mod Alias
pub mod Frames
pub mod Whole
pub mod Tests
