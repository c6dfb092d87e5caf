-- ===== src/Db/Tests.antt =====
-- Runs of the database.
use cardano_go.Db.View.{Call, add, add_txs, set_heights, roll_back, run, log, lookup, replay}
use cardano_go.Db.Refinement.{run_refines}
use cardano_go.Common.{
  Bool, List, [], bytes_eq, err, false, if◌then◌else◌, length, ltb, map, ok, refl, some, suc, true,
  ◌&&◌, ◌++◌, ◌∷◌, ◌≡◌,
}
use cardano_go.Db.Tables.{PointRef, TxRef, PointRow, Tables, no_tables, constraint, busy, is_locked}
use cardano_go.Db.Updates.{add_txs_for_block, handle_rollback, add_points, set_point_heights}
use cardano_go.Db.Queries.{get_highest_point}
use cardano_go.Db.UpdateLaws.{clashes, add_txs_for_block_lem}

abbrev row : PointRow
row = record { slot = 8; hash = 1 ∷ []; kind = 2; height = some 4 }

abbrev late_row : PointRow
late_row = record { slot = 9; hash = 2 ∷ []; kind = 2; height = some 5 }

abbrev point : PointRef
point = record { slot = 9; hash = 2 ∷ []; kind = 2; height = 5 }

abbrev transaction : TxRef
transaction = record { hash = 7 ∷ []; block_height = 5 }

abbrev tables : Tables
tables = record no_tables { points = row ∷ late_row ∷ []; txs = transaction ∷ [] }

add_txs_for_block_lem_example : add_txs_for_block tables (transaction ∷ []) ≡ (
    if ltb 0 (length (transaction ∷ [])) && is_locked tables
    then (record tables { left_open = suc tables.left_open }, err busy)
    else if clashes (transaction ∷ []) tables.txs
    then (record tables { left_open = suc tables.left_open }, err constraint)
    else (record tables { txs = tables.txs ++ transaction ∷ [] }, ok tt))
add_txs_for_block_lem_example = add_txs_for_block_lem tables (transaction ∷ [])

rolls_back : (handle_rollback tables 9).1 ≡ ok tt
unfolding handle_rollback
rolls_back = refl

highest : get_highest_point tables ≡ ok point
unfolding get_highest_point
highest = refl

abbrev sequence : List Call
sequence =
    add (record { slot = 8; hash = 1 ∷ []; kind = 2; height = 0 } ∷ [])
    ∷ set_heights (record { slot = 8; hash = 1 ∷ []; kind = 2; height = 5 } ∷ [])
    ∷ add_txs (transaction ∷ transaction ∷ [])
    ∷ add (record { slot = 9; hash = 2 ∷ []; kind = 2; height = 0 } ∷ [])
    ∷ roll_back 8
    ∷ []

-- The transaction that is left open makes the calls behind it fail.
outcomes :
    map (λ (x : Call × Bool). x.1) (log sequence no_tables)
    ≡ true ∷ true ∷ false ∷ false ∷ false ∷ []
unfolding log add_points set_point_heights add_txs_for_block handle_rollback bytes_eq
outcomes = refl

run_refines_example :
    lookup (run sequence no_tables).points ≡ replay (log sequence no_tables) (lookup [])
run_refines_example = run_refines sequence no_tables
