-- ===== src/Processor.antt =====
-- block_processor.go: the blocks of the points in the database are fetched, checked against each
-- other, and numbered.
pub mod Defs
pub mod Rounds
pub mod ChainLaws
pub mod RoundLaws
pub mod Tests
