-- ===== src/Client/Sync.antt =====
-- client.go: `onRollForwards`, `onRollBackwards` and `followChain`; block_processor.go:
-- `TryProcessBlocks`. The steps that a started client takes.
use cardano_go.Common.{
  Bool, Bytes, List, Result, [], err, if◌then◌else◌, leb, length, ltb, not, ok, panic, true, ℕ,
  ◌++◌, ◌==◌, ◌||◌, ◌∷◌, ◌≡◌,
}
use cardano_go.Db.Tables.{PointRef, Tables, DbError, no_rows}
use cardano_go.Db.Updates.{add_points, store_points}
use cardano_go.Db.View.{succeeds}
use cardano_go.Db.Queries.{get_highest_point}
use cardano_go.Processor.Defs.{ProcessError, zero_point}
use cardano_go.Processor.Rounds.{
  Processor, Fetched, Round, rollback, process_round, block_batch_size,
}
use cardano_go.Processor.Rounds
use cardano_go.Client.Defs.{Client, Phase, idle, waiting, holding, leaving}

-- What chain sync hands over: a block, its header, or a value of neither type.
pub data BlockData : Type 0 where
  block header : (slot : ℕ) (hash : Bytes) → BlockData
  other : BlockData

unfoldable pub point_of_data : ℕ → BlockData → PointRef
point_of_data kind (block slot hash) = record { slot = slot; hash = hash; kind = kind; height = 0 }
point_of_data kind (header slot hash) = record { slot = slot; hash = hash; kind = kind; height = 0 }
point_of_data kind other = zero_point

-- `TryProcessBlocks`: a goroutine is started unless `isProcessing` is set.
abbrev pub try_process_blocks : Phase → Phase
try_process_blocks idle = waiting
try_process_blocks waiting = waiting
try_process_blocks holding = holding
try_process_blocks leaving = leaving

-- The points that were collected go to the database. This is where `AddPoints` succeeds; where it
-- fails, the log's `Fatal` ends the program.
abbrev pub flush : Client → Client
flush c = record c {
  processor = record c.processor { tables = store_points c.processor.tables c.points };
  phase = try_process_blocks c.phase;
  points = [];
}

-- `c.points`, `c.tipReached` and `c.latestEra` before the test.
abbrev pub note_point : Client → ℕ → PointRef → ℕ → Client
note_point c kind p tip_slot = record c {
  latest_era = kind;
  points = c.points ++ p ∷ [];
  tip_reached = c.tip_reached || tip_slot == p.slot;
}

abbrev pub is_due : Client → Bool
is_due c = leb block_batch_size (length c.points) || c.tip_reached

-- Whether the program goes on after `onRollForwards`.
unfoldable pub goes_on : Client → ℕ → BlockData → ℕ → Bool
unfolding point_of_data add_points
goes_on c kind block_data tip_slot =
    let noted : Client = note_point c kind (point_of_data kind block_data) tip_slot in
    not (is_due noted) || succeeds (add_points c.processor.tables noted.points).1

-- `onRollForwards`
unfoldable pub on_roll_forwards : Client → ℕ → BlockData → ℕ → Client
unfolding point_of_data
on_roll_forwards c kind block_data tip_slot =
    let noted : Client = note_point c kind (point_of_data kind block_data) tip_slot in
    if is_due noted then flush noted else noted

-- `onRollBackwards`
unfoldable pub on_roll_backwards : Client → ℕ → Client × Result ProcessError (Unit {0})
on_roll_backwards c slot =
    let res : Processor × Result ProcessError (Unit {0}) = rollback c.processor slot in
    if ltb c.start_point.slot slot then (record c { processor = res.0 }, res.1) else (c, ok tt)

-- `followChain`: the points that `Sync` is called with; the log's `Fatal` is the error.
unfoldable pub follow_chain : Tables → Result DbError (List PointRef)
follow_chain t = elim (get_highest_point t) [
  | ok p ↦ ok (p ∷ [])
  | err no_rows ↦ ok []
  | err e ↦ err e
  | panic ↦ panic
]

-- The handlers run one at a time; a rollback waits while the goroutine holds `processingMutex`.
pub data Step : Client → Client → Type 0 where
  forward :
      {c : Client} (kind : ℕ) (block_data : BlockData) (tip_slot : ℕ)
      → goes_on c kind block_data tip_slot ≡ true
      → Step c (on_roll_forwards c kind block_data tip_slot)
  backward : {c : Client} (slot : ℕ) → ¬ (c.phase ≡ holding) → Step c (on_roll_backwards c slot).0
  lock : {c : Client} → c.phase ≡ waiting → Step c (record c { phase = holding })
  -- A round of `processBlocks` that another follows.
  round :
      {c : Client} {bp : Processor} (fetch : PointRef → PointRef → Fetched)
      → c.phase ≡ holding
      → process_round fetch c.processor ≡ Rounds.again bp
      → Step c (record c { processor = bp })
  -- The last round.
  unlock :
      {c : Client} {bp : Processor} {r : Result ProcessError (Unit {0})}
      (fetch : PointRef → PointRef → Fetched)
      → c.phase ≡ holding
      → process_round fetch c.processor ≡ Rounds.stop bp r
      → Step c (record c { processor = bp; phase = leaving })
  leave : {c : Client} → c.phase ≡ leaving → Step c (record c { phase = idle })

-- What a client can become.
pub data Reached (c : Client) : Client → Type 0 where
  here : Reached c c
  next : {d e : Client} → Reached c d → Step d e → Reached c e
