-- ===== src/Client/Calls.antt =====
-- client.go, block_processor.go: a client writes to its database by calls of the interface of
-- db.go only.
use cardano_go.Client.SyncLaws.{on_roll_forwards-cases}
use cardano_go.Client.Defs.{Client}
use cardano_go.Client.Sync.{
  goes_on, round, on_roll_backwards, Step, BlockData, forward, on_roll_forwards, point_of_data,
  backward, lock, unlock, leave,
}
use cardano_go.Common.{
  Bool-cases, Bytes, List, Result, [], ap, arith, inl, inr, is_err, is_ok, is_panic, leb, length,
  ltb, refl, see, subst, sym, take, true, ℕ, ◌&&◌, ◌++◌, ◌+◌, ◌-◌, ◌∙◌, ◌∷◌, ◌≡◌, ◌⊎◌,
}
use cardano_go.Db.Tables.{PointRef, Tables, is_locked}
use cardano_go.Db.View
use cardano_go.Db.View.{succeeds, Call, add, set_heights, add_txs, call, run, log, lookup, replay}
use cardano_go.Db.Updates.{
  add_points, store_points, handle_rollback, set_point_heights, add_txs_for_block,
}
use cardano_go.Db.Queries.{get_highest_point, get_points_for_processing}
use cardano_go.Processor.Defs.{Progress, consume, ProcessError}
use cardano_go.Processor.Rounds.{
  Processor, Fetched, Round, stop, again, start, store_progress, take_blocks, process_points,
  start_hashes, process_round, roll_back, rollback, block_batch_size, get_last,
}
use cardano_go.Processor.Rounds

-- The tables `u` are what calls make of `t`.
abbrev pub IsRun : Tables → Tables → Type 0
IsRun t u = (cs : List Call) × (u ≡ run cs t)

abbrev tables_of : Round → Tables
tables_of (Rounds.stop bp r) = bp.tables
tables_of (Rounds.again bp) = bp.tables

run-append : (cs ds : List Call) (t : Tables) → run (cs ++ ds) t ≡ run ds (run cs t)
unfolding run
run-append [] ds t = refl
run-append (c ∷ cs) ds t = run-append cs ds (call t c).0

IsRun-refl : (t : Tables) → IsRun t t
unfolding run
IsRun-refl t = ([], refl)

IsRun-trans : (t u v : Tables) → IsRun t u → IsRun u v → IsRun t v
IsRun-trans t u v (cs, e) (ds, f) = (cs ++ ds, f ∙ ap (run ds) e ∙ sym (run-append cs ds t))

store_progress-tables :
    (bp : Processor) (p : Progress)
    → (tables_of (store_progress bp p) ≡ (set_point_heights bp.tables p.point_refs).0)
      ⊎ (tables_of (store_progress bp p)
          ≡ (add_txs_for_block (set_point_heights bp.tables p.point_refs).0 p.tx_refs).0)
unfolding store_progress
store_progress-tables bp p =
    let t1 : Tables = (set_point_heights bp.tables p.point_refs).0 in
    elim (see (set_point_heights bp.tables p.point_refs).1) [
      | is_err y f ↦ inl (rw (store_progress, f) refl)
      | is_panic f ↦ inl (rw (store_progress, f) refl)
      | is_ok v f ↦ elim (see (add_txs_for_block t1 p.tx_refs).1) [
        | is_ok u e ↦ inr (rw (store_progress, f, e) refl)
        | is_err x e ↦ inr (rw (store_progress, f, e) refl)
        | is_panic e ↦ inr (rw (store_progress, f, e) refl)
      ]
    ]

store_progress-IsRun :
    (bp : Processor) (p : Progress) → IsRun bp.tables (tables_of (store_progress bp p))
unfolding run call
store_progress-IsRun bp p = elim (store_progress-tables bp p) [
  | inl e ↦ (set_heights p.point_refs ∷ [], e)
  | inr e ↦ (set_heights p.point_refs ∷ add_txs p.tx_refs ∷ [], e)
]

take_blocks-IsRun :
    (bp : Processor) (got : Fetched) (hashes : Bytes × Bytes)
    → IsRun bp.tables (tables_of (take_blocks bp got hashes))
unfolding take_blocks
take_blocks-IsRun bp got hashes = elim (Bool-cases (got.failed && got.error_first)) [
  | inl f ↦ rw (take_blocks, f) (IsRun-refl bp.tables)
  | inr f ↦ elim (see (consume got.blocks (start bp.highest hashes))) [
    | is_ok p e ↦ rw (take_blocks, f, e) (store_progress-IsRun bp p)
    | is_err x e ↦ rw (take_blocks, f, e) (IsRun-refl bp.tables)
    | is_panic e ↦ rw (take_blocks, f, e) (IsRun-refl bp.tables)
  ]
]

module _ (fetch : PointRef → PointRef → Fetched) where
  process_points-IsRun :
      (bp : Processor) (points : List PointRef)
      → IsRun bp.tables (tables_of (process_points fetch bp points))
  unfolding process_points
  process_points-IsRun bp [] = IsRun-refl bp.tables
  process_points-IsRun bp (first ∷ rest) = elim (see (start_hashes bp.tables bp.highest)) [
    | is_ok hashes e ↦
        rw (process_points, e) (take_blocks-IsRun bp (fetch first (get_last first rest)) hashes)
    | is_err x e ↦ rw (process_points, e) (IsRun-refl bp.tables)
    | is_panic e ↦ rw (process_points, e) (IsRun-refl bp.tables)
  ]

  process_round-IsRun : (bp : Processor) → IsRun bp.tables (tables_of (process_round fetch bp))
  unfolding process_round
  process_round-IsRun bp =
      let points : List PointRef =
        get_points_for_processing bp.tables (block_batch_size + bp.reorg_window) in
      elim (Bool-cases (ltb 0 bp.reorg_window && leb (length points) bp.reorg_window)) [
        | inl e ↦ rw (process_round, e) (IsRun-refl bp.tables)
        | inr e ↦
            rw (process_round, e)
              (process_points-IsRun bp (take (length points - bp.reorg_window) points))
      ]

  again-IsRun :
      (bp bp' : Processor) → process_round fetch bp ≡ again bp' → IsRun bp.tables bp'.tables
  again-IsRun bp bp' e =
      subst (λ (r : Round). IsRun bp.tables (tables_of r)) e (process_round-IsRun bp)

  stop-IsRun :
      (bp bp' : Processor) (r : Result ProcessError (Unit {0}))
      → process_round fetch bp ≡ stop bp' r
      → IsRun bp.tables bp'.tables
  stop-IsRun bp bp' r e =
      subst (λ (x : Round). IsRun bp.tables (tables_of x)) e (process_round-IsRun bp)

roll_back-tables :
    (bp : Processor) (n : ℕ) → (roll_back bp n).0.tables ≡ (handle_rollback bp.tables n).0
unfolding roll_back
roll_back-tables bp n = elim (see (handle_rollback bp.tables n).1) [
  | is_err x e ↦ rw (roll_back, e) refl
  | is_panic e ↦ rw (roll_back, e) refl
  | is_ok u e ↦ elim (see (get_highest_point (handle_rollback bp.tables n).0)) [
    | is_ok p f ↦ rw (roll_back, e, f) refl
    | is_err x f ↦ rw (roll_back, e, f) refl
    | is_panic f ↦ rw (roll_back, e, f) refl
  ]
]

roll_back-IsRun : (bp : Processor) (n : ℕ) → IsRun bp.tables (roll_back bp n).0.tables
unfolding run call
roll_back-IsRun bp n = (View.roll_back n ∷ [], roll_back-tables bp n)

rollback-cases :
    (bp : Processor) (n : ℕ)
    → ((rollback bp n).0.tables ≡ bp.tables) ⊎ (rollback bp n ≡ roll_back bp n)
unfolding rollback
rollback-cases bp n = elim (see (get_highest_point bp.tables)) [
  | is_ok p e ↦ elim (Bool-cases (ltb n p.slot)) [
    | inl f ↦ inr (rw (rollback, e, f) refl)
    | inr f ↦ inl (rw (rollback, e, f) refl)
  ]
  | is_err x e ↦ inl (ground (arith, e))
  | is_panic e ↦ inl (rw (rollback, e) refl)
]

rollback-IsRun : (bp : Processor) (n : ℕ) → IsRun bp.tables (rollback bp n).0.tables
rollback-IsRun bp n = elim (rollback-cases bp n) [
  | inl e ↦ subst (IsRun bp.tables) (sym e) (IsRun-refl bp.tables)
  | inr e ↦
      subst (λ (x : Processor × Result ProcessError (Unit {0})). IsRun bp.tables x.0.tables) (sym e)
        (roll_back-IsRun bp n)
]

store_points-added :
    (t : Tables) (ps : List PointRef)
    → succeeds (add_points t ps).1 ≡ true
    → store_points t ps ≡ (add_points t ps).0
unfolding add_points
store_points-added t ps s = elim (Bool-cases (ltb 0 (length ps) && is_locked t)) [
  | inl e ↦ absurd (ground (arith, e, s))
  | inr e ↦ rw (add_points, e) refl
]

store_points-IsRun :
    (t : Tables) (ps : List PointRef)
    → succeeds (add_points t ps).1 ≡ true
    → IsRun t (store_points t ps)
unfolding run call
store_points-IsRun t ps s = (add ps ∷ [], store_points-added t ps s)

-- A roll forward that the program survives stores the points that wait or leaves the tables alone.
forward-IsRun :
    (c : Client) (kind : ℕ) (block_data : BlockData) (tip : ℕ)
    → goes_on c kind block_data tip ≡ true
    → IsRun c.processor.tables (on_roll_forwards c kind block_data tip).processor.tables
unfolding goes_on
forward-IsRun c kind block_data tip g =
    let p : PointRef = point_of_data kind block_data in
    let t : Tables = c.processor.tables in
    elim (on_roll_forwards-cases c kind block_data tip) [
      | inl (due, e) ↦
          subst (λ (d : Client). IsRun t d.processor.tables) (sym e)
            (store_points-IsRun t (c.points ++ p ∷ []) (ground (arith, g, due)))
      | inr (due, e) ↦ subst (λ (d : Client). IsRun t d.processor.tables) (sym e) (IsRun-refl t)
    ]

backward-IsRun :
    (c : Client) (n : ℕ) → IsRun c.processor.tables (on_roll_backwards c n).0.processor.tables
unfolding on_roll_backwards
backward-IsRun c n = elim (Bool-cases (ltb c.start_point.slot n)) [
  | inl e ↦ rw (on_roll_backwards, e) (rollback-IsRun c.processor n)
  | inr e ↦ rw (on_roll_backwards, e) (IsRun-refl c.processor.tables)
]

pub Step-IsRun : (c d : Client) → Step c d → IsRun c.processor.tables d.processor.tables
Step-IsRun c d (forward kind block_data tip g) = forward-IsRun c kind block_data tip g
Step-IsRun c d (backward n free) = backward-IsRun c n
Step-IsRun c d (lock w) = IsRun-refl c.processor.tables
Step-IsRun c d (round {bp} fetch w e) = again-IsRun fetch c.processor bp e
Step-IsRun c d (unlock {bp} {r} fetch w e) = stop-IsRun fetch c.processor bp r e
Step-IsRun c d (leave w) = IsRun-refl c.processor.tables
