-- ===== src/Util.antt =====
-- util.go: the routines that compute: a binary search by a callback, the cutting of a string, the
-- layout of the text of a CBOR value, tags, and the caller that runs an action from time to time.
pub mod Search
pub mod Chunks
pub mod Indent
pub mod Directory
pub mod DirectoryTests
pub mod Periodic
pub mod Ticks
pub mod Tags
pub mod Tests
