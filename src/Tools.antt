-- ===== src/Tools.antt =====
-- cmd/addr_build, cmd/addr_decode and cmd/addr_gen: the commands on keys and addresses.
pub mod Trim
pub mod Defs
pub mod Laws
pub mod Tests
