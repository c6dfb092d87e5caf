-- ===== src/Db.antt =====
-- db.go and db_sqlite.go: the points of the chain and the transactions, in three tables.
pub mod Tables
pub mod Queries
pub mod Updates
pub mod UpdateLaws
pub mod RollbackLaws
pub mod QueryLaws
pub mod View
pub mod Refinement
pub mod Tests
