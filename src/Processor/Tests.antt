-- ===== src/Processor/Tests.antt =====
-- Runs of the block processor.
use cardano_go.Common.{
  Result, [], arith, bytes_eq, err, false, ok, panic, refl, some, ◌++◌, ◌∷◌, ◌≡◌,
}
use cardano_go.Db.Tables.{PointRef, PointRow, no_tables, no_rows}
use cardano_go.Db.Updates.{handle_rollback}
use cardano_go.Db.Queries.{get_highest_point}
use cardano_go.Processor.Defs.{Block, Progress, zero_point, consume, ProcessError}
use cardano_go.Processor.ChainLaws.{IsWhole, numbered, consume-IsWhole}
use cardano_go.Processor.Rounds.{Processor, Fetched, stop, again, take_blocks, process_round}
use cardano_go.Processor.RoundLaws.{process_round-panic}

abbrev first : Block
first = record { kind = 2; hash = 1 ∷ []; prev_hash = []; slot = 8; txs = (5 ∷ []) ∷ [] }

abbrev second : Block
second = record { kind = 2; hash = 2 ∷ []; prev_hash = 1 ∷ []; slot = 9; txs = [] }

abbrev boundary : Block
boundary = record { kind = 0; hash = 3 ∷ []; prev_hash = 2 ∷ []; slot = 9; txs = [] }

abbrev progress : Progress
progress = record {
  height = 4;
  prev_hash = [];
  prev_boundary = [];
  point_refs = [];
  tx_refs = [];
  max_point = zero_point;
}

abbrev after_first : Progress
after_first = record {
  height = 5;
  prev_hash = 1 ∷ [];
  prev_boundary = [];
  point_refs = record { slot = 8; hash = 1 ∷ []; kind = 2; height = 4 } ∷ [];
  tx_refs = record { hash = 5 ∷ []; block_height = 4 } ∷ [];
  max_point = record { slot = 8; hash = 1 ∷ []; kind = 2; height = 4 };
}

abbrev after_boundary : Progress
after_boundary = record after_first {
  prev_boundary = 3 ∷ [];
  point_refs =
      record { slot = 8; hash = 1 ∷ []; kind = 2; height = 4 }
      ∷ record { slot = 9; hash = 3 ∷ []; kind = 0; height = 5 }
      ∷ [];
  max_point = record { slot = 9; hash = 3 ∷ []; kind = 0; height = 5 };
}

takes_first : consume (first ∷ []) progress ≡ ok after_first
unfolding consume cardano_go.Common.bytes_eq
takes_first = refl

takes_boundary : consume (first ∷ boundary ∷ []) progress ≡ ok after_boundary
unfolding consume cardano_go.Common.bytes_eq
takes_boundary = refl

consume-IsWhole_example :
    IsWhole [] [] (first ∷ []) × (after_first.point_refs ≡ [] ++ numbered 4 (first ∷ []))
consume-IsWhole_example =
    consume-IsWhole (first ∷ []) progress after_first (omega arith) (omega arith) takes_first

abbrev got : Fetched
got = record { blocks = first ∷ []; failed = false; error_first = false }

abbrev row : PointRow
row = record { slot = 7; hash = 1 ∷ []; kind = 2; height = some 4 }

abbrev late_row : PointRow
late_row = record { slot = 9; hash = 2 ∷ []; kind = 2; height = some 5 }

abbrev highest : PointRef
highest = record { slot = 9; hash = 2 ∷ []; kind = 2; height = 5 }

abbrev left : PointRef
left = record { slot = 7; hash = 1 ∷ []; kind = 2; height = 4 }

abbrev processor : Processor
processor = record {
  tables = record no_tables { points = row ∷ late_row ∷ [] };
  highest = highest;
  reorg_window = 0;
}

panics : process_round (λ _ _. got) processor ≡ stop processor panic
panics = process_round-panic (λ _ _. got) processor refl (refl, (refl, tt))

abbrev stopped : Result ProcessError (Unit {0})
stopped = panic

abbrev empty_processor : Processor
empty_processor = record { tables = no_tables; highest = zero_point; reorg_window = 0 }

abbrev filled_processor : Processor
filled_processor = record {
  tables = record no_tables { txs = record { hash = 5 ∷ []; block_height = 0 } ∷ [] };
  highest = record { slot = 8; hash = 1 ∷ []; kind = 2; height = 0 };
  reorg_window = 0;
}

takes_blocks : take_blocks empty_processor got ([], []) ≡ again filled_processor
unfolding take_blocks consume cardano_go.Common.bytes_eq cardano_go.Db.Updates.add_txs_for_block
    cardano_go.Db.Updates.set_point_heights
takes_blocks = refl

is_highest : get_highest_point processor.tables ≡ ok highest
unfolding get_highest_point
is_highest = refl

rolls_back : (handle_rollback processor.tables 8).1 ≡ ok tt
unfolding handle_rollback
rolls_back = refl

is_left : get_highest_point (handle_rollback processor.tables 8).0 ≡ ok left
unfolding handle_rollback get_highest_point
is_left = refl

rolls_all_back : (handle_rollback processor.tables 7).1 ≡ ok tt
unfolding handle_rollback
rolls_all_back = refl

none_left : get_highest_point (handle_rollback processor.tables 7).0 ≡ err no_rows
unfolding handle_rollback get_highest_point
none_left = refl
