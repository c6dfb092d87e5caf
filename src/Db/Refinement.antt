-- ===== src/Db/Refinement.antt =====
-- db_sqlite.go implements what db.go promises of the points.
use cardano_go.Db.RollbackLaws.{handle_rollback_lem}
use cardano_go.Common.{
  Bool, Bool-cases, Bytes, List, [], ap, arith, bytes_eq_refl, filterb, find-append,
  find-filterb-not, find-filterb-other, if◌then◌else◌, inl, inr, length, ltb, map, not, refl, ℕ,
  ◌&&◌, ◌∙◌, ◌∷◌, ◌≡◌,
}
use cardano_go.Db.Tables.{PointRef, PointRow, same_key, has_key, Tables, TxRef, is_locked}
use cardano_go.Db.Updates.{
  upsert, upsert_all, height_of, set_height, add_txs_for_block, handle_rollback, add_points,
  insert_chunks, set_point_heights, store_points, store_heights,
}
use cardano_go.Db.Updates
use cardano_go.Db.UpdateLaws.{same_key-eq, not_same, add_txs_for_block-cases}
use cardano_go.Db.View.{
  succeeds, set_heights, call, add_txs, roll_back, add, lookup, add_one, add_all, set_one, set_all,
  keep_before, call, run, log, Call, replay, add,
}

abbrev new_row : List PointRow → PointRef → PointRow
new_row rows p = record {
  slot = p.slot;
  hash = p.hash;
  kind = p.kind;
  height = height_of rows p.slot p.hash;
}

abbrev others : List PointRow → PointRef → List PointRow
others rows p = filterb (λ (r : PointRow). not (has_key p.slot p.hash r)) rows

lookup-upsert :
    (rows : List PointRow) (p : PointRef) (s : ℕ) (h : Bytes)
    → lookup (upsert rows p) s h ≡ add_one p (lookup rows) s h
unfolding upsert
lookup-upsert rows p s h = elim (Bool-cases (same_key s h p.slot p.hash)) [
  | inl e ↦
      let (a, b) = same_key-eq s p.slot h p.hash e in
      rw (a, b) ground
        (
          arith,
          bytes_eq_refl p.hash,
          find-append (has_key p.slot p.hash) (others rows p) (new_row rows p ∷ []),
          find-filterb-not (has_key p.slot p.hash) rows,
        )
  | inr e ↦ ground (
    arith,
    e,
    find-append (has_key s h) (others rows p) (new_row rows p ∷ []),
    find-filterb-other (has_key s h) (has_key p.slot p.hash) rows
        (λ r. not_same s p.slot h p.hash r e),
  )
]

pub lookup-upsert_all :
    (rows : List PointRow) (ps : List PointRef)
    → lookup (upsert_all rows ps) ≡ add_all ps (lookup rows)
unfolding upsert_all
lookup-upsert_all rows [] = refl
lookup-upsert_all rows (p ∷ ps) =
    lookup-upsert_all (upsert rows p) ps ∙ ap (add_all ps) (λ i s h. lookup-upsert rows p s h i)

has_key-set_height :
    (u : PointRef) (s : ℕ) (h : Bytes) (r : PointRow) → has_key s h (set_height u r) ≡ has_key s h r
has_key-set_height u s h r = ground arith

lookup-set_height :
    (rows : List PointRow) (u : PointRef) (s : ℕ) (h : Bytes)
    → lookup (map (set_height u) rows) s h ≡ set_one u (lookup rows) s h
lookup-set_height [] u s h = ground arith
lookup-set_height (r ∷ rows) u s h = elim (Bool-cases (has_key s h r)) [
  | inl e ↦
      let (a, b) = same_key-eq s r.slot h r.hash e in
      rw (b) ground (arith, e, has_key-set_height u s h r, bytes_eq_refl r.hash)
  | inr e ↦ ground (arith, e, has_key-set_height u s h r, lookup-set_height rows u s h)
]

pub lookup-set_heights :
    (rows : List PointRow) (us : List PointRef)
    → lookup (Updates.set_heights rows us) ≡ set_all us (lookup rows)
unfolding Updates.set_heights
lookup-set_heights rows [] = refl
lookup-set_heights rows (u ∷ us) =
    lookup-set_heights (map (set_height u) rows) us
    ∙ ap (set_all us) (λ i s h. lookup-set_height rows u s h i)

pub lookup-before :
    (rows : List PointRow) (n s : ℕ) (h : Bytes)
    → lookup (filterb (λ (r : PointRow). ltb r.slot n) rows) s h ≡ keep_before n (lookup rows) s h
lookup-before [] n s h = ground arith
lookup-before (r ∷ rows) n s h = elim (Bool-cases (has_key s h r)) [
  | inl e ↦
      let (a, b) = same_key-eq s r.slot h r.hash e in ground (arith, e, a, lookup-before rows n s h)
  | inr e ↦ ground (arith, e, lookup-before rows n s h)
]

add_txs-points : (t : Tables) (xs : List TxRef) → (add_txs_for_block t xs).0.points ≡ t.points
add_txs-points t xs = elim (add_txs_for_block-cases t xs) [
  | inl e ↦ rw (e) refl
  | inr e ↦ rw (e) refl
]

lookup-roll_back :
    (t : Tables) (n : ℕ)
    → lookup (handle_rollback t n).0.points ≡ (
        if succeeds (handle_rollback t n).1
        then keep_before n (lookup t.points)
        else lookup t.points)
lookup-roll_back t n = elim (handle_rollback_lem t n) [
  | inl (same, inl failed) ↦ rw (same, failed) refl
  | inl (same, inr (failed, locked)) ↦ rw (same, failed) refl
  | inr (done, points, there, txs) ↦ rw (done, points) (λ i s h. lookup-before t.points n s h i)
]

lookup-add_points :
    (t : Tables) (ps : List PointRef)
    → lookup (add_points t ps).0.points
      ≡ (if succeeds (add_points t ps).1 then add_all ps (lookup t.points) else lookup t.points)
unfolding add_points store_points
lookup-add_points t ps = elim (Bool-cases (ltb 0 (length ps) && is_locked t)) [
  | inl e ↦ rw (add_points, e) refl
  | inr e ↦ rw (add_points, e) (lookup-upsert_all t.points ps)
]

lookup-set_point_heights :
    (t : Tables) (us : List PointRef)
    → lookup (set_point_heights t us).0.points ≡ (
        if succeeds (set_point_heights t us).1
        then set_all us (lookup t.points)
        else lookup t.points)
unfolding set_point_heights store_heights
lookup-set_point_heights t us = elim (Bool-cases (ltb 0 (length us) && is_locked t)) [
  | inl e ↦ rw (set_point_heights, e) refl
  | inr e ↦ rw (set_point_heights, e) (lookup-set_heights t.points us)
]

lookup-call :
    (c : Call) (cs : List (Call × Bool)) (t : Tables)
    → replay cs (lookup (call t c).0.points) ≡ replay ((c, (call t c).1) ∷ cs) (lookup t.points)
unfolding call
lookup-call (add ps) cs t = ap (replay cs) (lookup-add_points t ps)
lookup-call (set_heights us) cs t = ap (replay cs) (lookup-set_point_heights t us)
lookup-call (add_txs xs) cs t =
    ap (λ (rows : List PointRow). replay cs (lookup rows)) (add_txs-points t xs)
lookup-call (roll_back n) cs t = ap (replay cs) (lookup-roll_back t n)

-- After any sequence of calls that write, the points in the tables and their heights are what the
-- same calls, with the same outcomes, make of the view of the tables at the start: `AddPoints`
-- adds points without a height and changes no other, `SetPointHeights` sets the heights of the
-- points with the given hashes, `AddTxsForBlock` touches none, and `HandleRollback` takes away
-- those from the slot on; a call that fails changes none of them.
pub run_refines :
    (cs : List Call) (t : Tables) → lookup (run cs t).points ≡ replay (log cs t) (lookup t.points)
unfolding run log
run_refines [] t = refl
run_refines (c ∷ cs) t = run_refines cs (call t c).0 ∙ lookup-call c (log cs (call t c).0) t
