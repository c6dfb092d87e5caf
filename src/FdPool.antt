-- ===== src/FdPool.antt =====
-- cmd/rpc/cmd.go: `fdPool`, the pool of file descriptors. Its mutex lets one call run at a time.
pub mod Defs
pub mod Distinct
pub mod Invariant
pub mod Files
pub mod FileLaws
pub mod Arguments
pub mod Command
pub mod Tests
