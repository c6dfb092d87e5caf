-- ===== src/Block.antt =====
-- block.go and protocol.go: the outputs of a transaction and points, which have several forms in
-- CBOR, and the maps of auxiliary data.
pub mod Outputs
pub mod Points
pub mod Header
pub mod HeaderTests
pub mod KvSlice
pub mod AuxValue
pub mod AuxData
pub mod AuxSpec
pub mod AuxLaws
pub mod AuxTrip
pub mod Memo
pub mod AuxTests
pub mod Tests
