-- ===== src/Processor/Rounds.antt =====
-- The operations of `BlockProcessor`. Its lock and its flag let one of them run at a time.
use cardano_go.Common.{
  Bool, Bytes, List, Result, [], bytes_eq, err, if◌then◌else◌, leb, length, ltb, ok, panic, suc,
  take, zero, ℕ, ◌&&◌, ◌+◌, ◌-◌, ◌∷◌,
}
use cardano_go.Db.Tables.{PointRef, Tables, DbError, no_rows}
use cardano_go.Db.Updates.{handle_rollback, add_txs_for_block, set_point_heights}
use cardano_go.Db.Queries.{get_points_for_processing, get_highest_point, get_boundary_point_behind}
use cardano_go.Processor.Defs.{
  Block, ProcessError, fetch_failed, no_boundary, no_heights, no_txs, rollback_failed, no_highest,
  no_fuel, Progress, zero_point, next_height, consume,
}

-- The processor and the database that it writes to.
pub record Processor : Type 0 where
  pub tables : Tables
  pub highest : PointRef
  pub reorg_window : ℕ

-- `NewBlockProcessor`
unfoldable pub new_block_processor : Tables → ℕ → Result ProcessError Processor
new_block_processor t window = elim (get_highest_point t) [
  | ok p ↦ ok (record { tables = t; highest = p; reorg_window = window })
  | err no_rows ↦ ok (record { tables = t; highest = zero_point; reorg_window = window })
  | err _ ↦ err no_highest
  | panic ↦ panic
]

-- What `GetBlockRange` and its callbacks bring: the blocks that reach the channel, whether the call
-- fails, and, where it does, whether `select` takes the error and not the end of the blocks.
pub record Fetched : Type 0 where
  pub blocks : List Block
  pub failed : Bool
  pub error_first : Bool

-- A round of the loop of `processBlocks` ends the call, or another round follows.
pub data Round : Type 0 where
  stop : Processor → Result ProcessError (Unit {0}) → Round
  again : Processor → Round

abbrev pub block_batch_size : ℕ
block_batch_size = 10000

abbrev pub start_height : PointRef → ℕ
start_height p = if bytes_eq p.hash [] then p.height else next_height p.height

-- `prevHash` and `prevBoundaryHash` before the first block.
unfoldable pub start_hashes : Tables → PointRef → Result ProcessError (Bytes × Bytes)
start_hashes t p =
    if ltb 0 (start_height p)
    then elim (get_boundary_point_behind t p.hash) [
      | ok b ↦ ok (p.hash, b.hash)
      | err no_rows ↦ ok (p.hash, [])
      | err _ ↦ err no_boundary
      | panic ↦ panic
    ]
    else ok ([], [])

-- The variables before the first block.
abbrev pub start : PointRef → Bytes × Bytes → Progress
start p hashes = record {
  height = start_height p;
  prev_hash = hashes.0;
  prev_boundary = hashes.1;
  point_refs = [];
  tx_refs = [];
  max_point = zero_point;
}

-- The end of a round, when all the blocks were taken.
unfoldable pub store_progress : Processor → Progress → Round
store_progress bp p =
    let set : Tables × Result DbError (Unit {0}) = set_point_heights bp.tables p.point_refs in
    elim set.1 [
      | err _ ↦ stop (record bp { tables = set.0 }) (err no_heights)
      | panic ↦ stop (record bp { tables = set.0 }) panic
      | ok _ ↦
          let res : Tables × Result DbError (Unit {0}) = add_txs_for_block set.0 p.tx_refs in
          elim res.1 [
            | ok _ ↦ again (record bp { tables = res.0; highest = p.max_point })
            | err _ ↦ stop (record bp { tables = res.0 }) (err no_txs)
            | panic ↦ stop (record bp { tables = res.0 }) panic
          ]
    ]

-- The blocks of a round, from the start of the fetch.
unfoldable pub take_blocks : Processor → Fetched → Bytes × Bytes → Round
unfolding store_progress
take_blocks bp got hashes =
    if got.failed && got.error_first
    then stop bp (err fetch_failed)
    else elim (consume got.blocks (start bp.highest hashes)) [
      | err e ↦ stop bp (err e)
      | panic ↦ stop bp panic
      | ok p ↦ store_progress bp p
    ]

-- `points[len(points)-1]`
abbrev pub get_last : PointRef → List PointRef → PointRef
get_last p [] = p
get_last p (q ∷ qs) = get_last q qs

module _ (fetch : PointRef → PointRef → Fetched) where
  -- A round, when there are points to process.
  unfoldable pub process_points : Processor → List PointRef → Round
  unfolding take_blocks
  process_points bp [] = stop bp panic
  process_points bp (first ∷ rest) = elim (start_hashes bp.tables bp.highest) [
    | err e ↦ stop bp (err e)
    | panic ↦ stop bp panic
    | ok hashes ↦ take_blocks bp (fetch first (get_last first rest)) hashes
  ]

  unfoldable pub process_round : Processor → Round
  unfolding process_points
  process_round bp =
      let points : List PointRef =
        get_points_for_processing bp.tables (block_batch_size + bp.reorg_window) in
      if ltb 0 bp.reorg_window && leb (length points) bp.reorg_window
      then stop bp (ok tt)
      else process_points bp (take (length points - bp.reorg_window) points)

  -- `processBlocks`: the code's loop has no bound.
  unfoldable pub process_blocks : ℕ → Processor → Processor × Result ProcessError (Unit {0})
  unfolding process_round
  process_blocks zero bp = (bp, err no_fuel)
  process_blocks (suc fuel) bp = elim (process_round bp) [
    | stop bp' r ↦ (bp', r)
    | again bp' ↦ process_blocks fuel bp'
  ]

-- The part of `BlockProcessor.HandleRollback` below its guard. Where no point is left, the error
-- that is wrapped is not the one at hand but an older one, which is nil.
unfoldable pub roll_back : Processor → ℕ → Processor × Result ProcessError (Unit {0})
roll_back bp slot =
    let res : Tables × Result DbError (Unit {0}) = handle_rollback bp.tables slot in
    let bp' : Processor = record bp { tables = res.0 } in
    elim res.1 [
      | err _ ↦ (bp', err rollback_failed)
      | panic ↦ (bp', panic)
      | ok _ ↦ elim (get_highest_point res.0) [
        | ok p ↦ (record bp' { highest = p }, ok tt)
        | err _ ↦ (bp', ok tt)
        | panic ↦ (bp', panic)
      ]
    ]

-- `BlockProcessor.HandleRollback`
unfoldable pub rollback : Processor → ℕ → Processor × Result ProcessError (Unit {0})
unfolding roll_back
rollback bp slot = elim (get_highest_point bp.tables) [
  | err no_rows ↦ (bp, ok tt)
  | err _ ↦ (bp, err no_highest)
  | panic ↦ (bp, panic)
  | ok p ↦ if ltb slot p.slot then roll_back bp slot else (bp, ok tt)
]
