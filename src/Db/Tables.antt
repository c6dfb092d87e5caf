-- ===== src/Db/Tables.antt =====
-- The records of db.go and the tables of `initTables`. The list of a table is in the order in which
-- the engine gives its rows back where a query asks for no order; nothing is proved from that order.
use cardano_go.Common.{
  Bool, Bytes, List, Option, Result, [], bytes_eq, err, ltb, none, ok, some, ℕ, ◌&&◌, ◌==◌,
}

pub record PointRef : Type 0 where
  pub slot : ℕ
  pub hash : Bytes
  pub kind : ℕ
  pub height : ℕ

pub record TxRef : Type 0 where
  pub hash : Bytes
  pub block_height : ℕ

-- A row of `point`; a height of -1 is `none`.
pub record PointRow : Type 0 where
  pub slot : ℕ
  pub hash : Bytes
  pub kind : ℕ
  pub height : Option ℕ

-- A row of `point_rollback`.
pub record RollbackRow : Type 0 where
  pub slot : ℕ
  pub hash : Bytes
  pub height : Option ℕ

-- The three tables, and the number of transactions that were neither committed nor rolled back.
pub record Tables : Type 0 where
  pub points : List PointRow
  pub rollbacks : List RollbackRow
  pub txs : List TxRef
  pub left_open : ℕ

abbrev pub no_tables : Tables
no_tables = record { points = []; rollbacks = []; txs = []; left_open = 0 }

-- A transaction that wrote and was left open holds the engine's write lock for good: a transaction
-- on another connection can begin, and its first write fails.
abbrev pub is_locked : Tables → Bool
is_locked t = ltb 0 t.left_open

pub data DbError : Type 0 where
  -- A primary key is there already.
  constraint : DbError
  -- `SQLITE_BUSY`
  busy : DbError
  -- A statement has more parameters than the engine takes.
  too_many_parameters : DbError
  -- `sql.ErrNoRows`
  no_rows : DbError
  -- A height of -1 does not fit the uint64 that it is scanned into.
  bad_scan : DbError
  point_not_found block_not_found tx_not_found no_points : DbError

-- The primary key of `point` and of `point_rollback`.
abbrev pub same_key : ℕ → Bytes → ℕ → Bytes → Bool
same_key s h s' h' = s == s' && bytes_eq h h'

abbrev pub has_key : ℕ → Bytes → PointRow → Bool
has_key s h r = same_key s h r.slot r.hash

-- `rows.Scan(&point.Slot, &point.Hash, &point.Type)`
abbrev pub scan_point : PointRow → PointRef
scan_point r = record { slot = r.slot; hash = r.hash; kind = r.kind; height = 0 }

-- `Scan(&point.Slot, &point.Hash, &point.Type, &point.Height)`
abbrev pub scan_height : PointRow → Result DbError PointRef
scan_height r = elim r.height [
  | none ↦ err bad_scan
  | some h ↦ ok (record { slot = r.slot; hash = r.hash; kind = r.kind; height = h })
]
