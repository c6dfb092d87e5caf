-- ===== src/Db/Updates.antt =====
-- The operations of db_sqlite.go that change the tables, with the tables after the call.
use cardano_go.Common.{
  Bool, Bytes, List, Option, Result, [], any, bytes_eq, drop, err, false, filterb, find,
  if◌then◌else◌, leb, length, ltb, map, none, not, ok, panic, some, suc, take, zero, ℕ, ◌&&◌, ◌++◌,
  ◌==◌, ◌∷◌,
}
use cardano_go.Db.Tables.{
  PointRef, TxRef, PointRow, RollbackRow, Tables, DbError, constraint, busy, is_locked, same_key,
  has_key,
}

-- `INSERT INTO point_rollback ... SELECT slot, hash, height FROM point`
unfoldable pub insert_rollbacks :
    List PointRow → List RollbackRow → Result DbError (List RollbackRow)
insert_rollbacks [] old = ok old
insert_rollbacks (r ∷ rs) old =
    let rest : Result DbError (List RollbackRow) =
      insert_rollbacks rs
        (old ++ record { slot = r.slot; hash = r.hash; height = r.height } ∷ []) in
    if any (λ (o : RollbackRow). same_key r.slot r.hash o.slot o.hash) old
    then err constraint
    else rest

-- `block_number IN (SELECT height FROM point_rollback WHERE slot >= ? AND height >= 0)`
abbrev pub is_rolled_back : ℕ → List RollbackRow → TxRef → Bool
is_rolled_back from_slot rows t =
    any
      (λ (o : RollbackRow).
        leb from_slot o.slot && elim o.height [ some h ↦ t.block_height == h | none ↦ false ])
      rows

-- The statements of `HandleRollback`; an error rolls the transaction back.
unfoldable pub move_points : Tables → ℕ → Tables × Result DbError (Unit {0})
unfolding insert_rollbacks
move_points t from_slot =
    let moved : List PointRow = filterb (λ (r : PointRow). leb from_slot r.slot) t.points in
    elim (insert_rollbacks moved t.rollbacks) [
      | err e ↦ (t, err e)
      | panic ↦ (t, panic)
      | ok rollbacks ↦ (
        record t {
          points = filterb (λ (r : PointRow). not (leb from_slot r.slot)) t.points;
          rollbacks = rollbacks;
          txs = filterb (λ (x : TxRef). not (is_rolled_back from_slot rollbacks x)) t.txs;
        },
        ok tt,
      )
    ]

-- `HandleRollback`
unfoldable pub handle_rollback : Tables → ℕ → Tables × Result DbError (Unit {0})
unfolding move_points
handle_rollback t from_slot = if is_locked t then (t, err busy) else move_points t from_slot

-- `INSERT INTO tx`, a row at a time.
unfoldable pub insert_txs : List TxRef → List TxRef → Result DbError (List TxRef)
insert_txs [] old = ok old
insert_txs (x ∷ xs) old =
    let rest : Result DbError (List TxRef) = insert_txs xs (old ++ x ∷ []) in
    if any (λ (o : TxRef). bytes_eq x.hash o.hash) old then err constraint else rest

abbrev pub chunk_size : ℕ
chunk_size = 499

-- The loop of `AddTxsForBlock` over chunks; a round takes a row at least.
unfoldable pub insert_chunks : ℕ → List TxRef → List TxRef → Result DbError (List TxRef)
unfolding insert_txs
insert_chunks fuel [] old = ok old
insert_chunks zero (x ∷ xs) old = panic
insert_chunks (suc fuel) (x ∷ xs) old = elim (insert_txs (take chunk_size (x ∷ xs)) old) [
  | err e ↦ err e
  | panic ↦ panic
  | ok new ↦ insert_chunks fuel (drop chunk_size (x ∷ xs)) new
]

-- The statements of `AddTxsForBlock`; an error leaves the transaction open.
unfoldable pub insert_refs : Tables → List TxRef → Tables × Result DbError (Unit {0})
unfolding insert_chunks
insert_refs t refs = elim (insert_chunks (length refs) refs t.txs) [
  | err e ↦ (record t { left_open = suc t.left_open }, err e)
  | panic ↦ (t, panic)
  | ok new ↦ (record t { txs = new }, ok tt)
]

-- `AddTxsForBlock`; with no rows it returns before it begins.
unfoldable pub add_txs_for_block : Tables → List TxRef → Tables × Result DbError (Unit {0})
unfolding insert_refs
add_txs_for_block t refs =
    if ltb 0 (length refs) && is_locked t
    then (record t { left_open = suc t.left_open }, err busy)
    else insert_refs t refs

-- `COALESCE((SELECT height FROM point WHERE slot = ? AND hash = ?), -1)`
abbrev pub height_of : List PointRow → ℕ → Bytes → Option ℕ
height_of rows s h = elim (find (has_key s h) rows) [ some r ↦ r.height | none ↦ none ]

-- `INSERT OR REPLACE INTO point`
unfoldable pub upsert : List PointRow → PointRef → List PointRow
upsert rows p =
    filterb (λ (r : PointRow). not (has_key p.slot p.hash r)) rows
    ++ record { slot = p.slot; hash = p.hash; kind = p.kind; height = height_of rows p.slot p.hash }
      ∷ []

unfoldable pub upsert_all : List PointRow → List PointRef → List PointRow
upsert_all rows [] = rows
upsert_all rows (p ∷ ps) = upsert_all (upsert rows p) ps

-- The statements of `AddPoints`.
unfoldable pub store_points : Tables → List PointRef → Tables
unfolding upsert_all upsert
store_points t ps = record t { points = upsert_all t.points ps }

-- `AddPoints`; without points nothing is written.
unfoldable pub add_points : Tables → List PointRef → Tables × Result DbError (Unit {0})
unfolding store_points
add_points t ps =
    if ltb 0 (length ps) && is_locked t then (t, err busy) else (store_points t ps, ok tt)

-- `UPDATE point SET height = ? WHERE hash = ?`
abbrev pub set_height : PointRef → PointRow → PointRow
set_height u r = if bytes_eq u.hash r.hash then record r { height = some u.height } else r

unfoldable pub set_heights : List PointRow → List PointRef → List PointRow
set_heights rows [] = rows
set_heights rows (u ∷ us) = set_heights (map (set_height u) rows) us

-- The statements of `SetPointHeights`.
unfoldable pub store_heights : Tables → List PointRef → Tables
unfolding set_heights
store_heights t us = record t { points = set_heights t.points us }

-- `SetPointHeights`; without points nothing is written.
unfoldable pub set_point_heights : Tables → List PointRef → Tables × Result DbError (Unit {0})
unfolding store_heights
set_point_heights t us =
    if ltb 0 (length us) && is_locked t then (t, err busy) else (store_heights t us, ok tt)
