-- ===== src/Processor/RoundLaws.antt =====
-- What a round of `processBlocks` and a rollback leave behind.
use mathlib.Core.List.{Memᴰ}
use cardano_go.Common.{
  All, All-filterb, All-mem, Bool, List, Option-cases, [], arith, err, false, filterb, find,
  find-eq-some, inl, inr, ltb, not, ok, panic, refl, set, subst, suc, zero, ℕ, ◌&&◌, ◌<◌, ◌==◌, ◌∷◌,
  ◌≡◌,
}
use cardano_go.Db.Tables.{PointRef, PointRow, Tables, DbError, scan_height}
use cardano_go.Db.Updates.{handle_rollback}
use cardano_go.Db.Queries.{
  is_unset, has_height, get_highest_point, get_points_for_processing, order_by_slot, max_height,
}
use cardano_go.Db.RollbackLaws.{handle_rollback_lem}
use cardano_go.Processor.Rounds.{
  Processor, Fetched, stop, process_points, process_round, roll_back, rollback,
}

filterb-none :
    (p : PointRow → Bool) (xs : List PointRow)
    → All (λ (r : PointRow). p r ≡ false) xs
    → filterb p xs ≡ []
filterb-none p [] h = refl
filterb-none p (x ∷ xs) h = ground (arith, h.0, filterb-none p xs h.1)

none_unset :
    (t : Tables) (n : ℕ)
    → All (λ (r : PointRow). is_unset r ≡ false) t.points
    → get_points_for_processing t n ≡ []
unfolding get_points_for_processing order_by_slot
none_unset t zero h = refl
none_unset t (suc n) h = rw (filterb-none is_unset t.points h) refl

module _ (fetch : PointRef → PointRef → Fetched) where
  -- Without a reorganisation window, a round panics when every point has its height.
  pub process_round-panic :
      (bp : Processor)
      → bp.reorg_window ≡ 0
      → All (λ (r : PointRow). is_unset r ≡ false) bp.tables.points
      → process_round fetch bp ≡ stop bp panic
  unfolding process_round process_points get_points_for_processing order_by_slot
  process_round-panic bp w set = rw (process_round, w, none_unset bp.tables 10000 set) refl

scan_height-slot : (r : PointRow) (p : PointRef) → scan_height r ≡ ok p → r.slot ≡ p.slot
scan_height-slot r p e = elim (Option-cases r.height) [
  | inl f ↦ absurd (ground (arith, e, f))
  | inr (h, f) ↦ ground (arith, e, f)
]

highest-in :
    (t : Tables) (p : PointRef)
    → get_highest_point t ≡ ok p
    → (r : PointRow) × Memᴰ r t.points × (r.slot ≡ p.slot)
unfolding get_highest_point
highest-in t p e = elim (Option-cases (max_height t.points)) [
  | inl f ↦ absurd (ground (arith, e, f))
  | inr (n, f) ↦
      let fits : PointRow → Bool = λ r. has_height n r && not (r.kind == 0) in
      elim (Option-cases (find fits t.points)) [
        | inl g ↦ absurd (ground (arith, e, f, g))
        | inr (r, g) ↦
            (r, (find-eq-some fits t.points g).0, scan_height-slot r p (ground (arith, e, f, g)))
      ]
]

-- A rollback to a slot below the highest point, which the database carries out: the processor goes
-- on from the highest point that is left, which lies before the slot.
rollback-highest :
    (bp : Processor) (slot : ℕ) (p q : PointRef)
    → get_highest_point bp.tables ≡ ok p
    → slot < p.slot
    → (handle_rollback bp.tables slot).1 ≡ ok tt
    → get_highest_point (handle_rollback bp.tables slot).0 ≡ ok q
    → ((rollback bp slot).1 ≡ ok tt) × ((rollback bp slot).0.highest ≡ q) × (q.slot < slot)
unfolding rollback roll_back
rollback-highest bp slot p q e late done left = (
  ground (arith, e, late, done, left),
  ground (arith, e, late, done, left),
  elim (handle_rollback_lem bp.tables slot) [
    | inl (same, inl failed) ↦ absurd (ground (arith, done, failed))
    | inl (same, inr (failed, locked)) ↦ absurd (ground (arith, done, failed))
    | inr (succeeded, points, there, txs) ↦
        let (r, d, s) = highest-in (handle_rollback bp.tables slot).0 q left in
        let before : r.slot < slot =
          All-mem (λ (x : PointRow). x.slot < slot)
            (All-filterb (λ (x : PointRow). x.slot < slot) (λ (x : PointRow). ltb x.slot slot)
              bp.tables.points (λ x f. ground (arith, f)))
            (subst (Memᴰ r) points d) in
        omega (arith, before, s)
  ],
)

-- A rollback to a slot below the highest point, which the database carries out, and after which
-- `GetHighestPoint` fails: the call succeeds, and the processor keeps the highest point it had.
rollback-kept :
    (bp : Processor) (slot : ℕ) (p : PointRef) (x : DbError)
    → get_highest_point bp.tables ≡ ok p
    → slot < p.slot
    → (handle_rollback bp.tables slot).1 ≡ ok tt
    → get_highest_point (handle_rollback bp.tables slot).0 ≡ err x
    → ((rollback bp slot).1 ≡ ok tt) × ((rollback bp slot).0.highest ≡ bp.highest)
unfolding rollback roll_back
rollback-kept bp slot p x e late done left =
    (ground (arith, e, late, done, left), ground (arith, e, late, done, left))
