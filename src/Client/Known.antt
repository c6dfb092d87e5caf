-- ===== src/Client/Known.antt =====
-- client.go: no announced point is lost, and a point that was rolled back can come back.
use cardano_go.Client.Calls.{IsRun}
use cardano_go.Db.UpdateLaws.{add_txs_for_block-cases, same_key-eq}
use cardano_go.Db.RollbackLaws.{
  handle_rollback-locked, handle_rollback-free, insert_rollbacks-cases, rolled, move_points-err,
  insert_rollbacks-old, move_points-ok, rollback_row, insert_rollbacks-new,
}
use cardano_go.Db.Refinement.{lookup-set_heights, lookup-upsert_all, lookup-before}
use cardano_go.Db.Updates.{
  store_heights, add_txs_for_block, insert_rollbacks, store_points, handle_rollback, add_points,
  set_point_heights,
}
use cardano_go.Common.{
  Bool-cases, Bytes, List, Option, Option-cases, [], ap, arith, bytes_eq, bytes_eq_refl, filterb,
  filterb-ext, find, find-eq-some, inl, inr, leb, length, ltb, mem-filterb, none, not, ok, refl,
  some, subst, suc, sym, ℕ, ◌&&◌, ◌++◌, ◌∙◌, ◌∷◌, ◌≡◌,
}
use mathlib.Core.List.{Memᴰ}
use cardano_go.Db.Tables.{
  PointRef, Tables, TxRef, RollbackRow, PointRow, constraint, has_key, is_locked,
}
use cardano_go.Db.View
use cardano_go.Db.View.{
  View, add_one, add_all, set_one, set_all, lookup, call, run, keep_before, Call, add, set_heights,
  add_txs,
}

-- The view has the point.
abbrev pub Has : View → ℕ → Bytes → Type 0
Has f s h = (o : Option ℕ) × (f s h ≡ some o)

add_one-Has : (p : PointRef) (f : View) (s : ℕ) (h : Bytes) → Has f s h → Has (add_one p f) s h
add_one-Has p f s h (o, e) = (o, ground (arith, e))

add_one-new : (p : PointRef) (f : View) → Has (add_one p f) p.slot p.hash
add_one-new p f = elim (Option-cases (f p.slot p.hash)) [
  | inl e ↦ (none, ground (arith, e, bytes_eq_refl p.hash))
  | inr (o, e) ↦ (o, ground (arith, e, bytes_eq_refl p.hash))
]

add_all-Has :
    (ps : List PointRef) (f : View) (s : ℕ) (h : Bytes) → Has f s h → Has (add_all ps f) s h
add_all-Has [] f s h k = k
add_all-Has (p ∷ ps) f s h k = add_all-Has ps (add_one p f) s h (add_one-Has p f s h k)

add_all-new :
    (ps : List PointRef) (f : View) (p : PointRef) → Memᴰ p ps → Has (add_all ps f) p.slot p.hash
add_all-new [] f p m = elim m [ ]
add_all-new (q ∷ ps) f p (Memᴰ.head e) =
    rw (e) (add_all-Has ps (add_one q f) q.slot q.hash (add_one-new q f))
add_all-new (q ∷ ps) f p (Memᴰ.tail m) = add_all-new ps (add_one q f) p m

set_one-Has : (u : PointRef) (f : View) (s : ℕ) (h : Bytes) → Has f s h → Has (set_one u f) s h
set_one-Has u f s h (o, e) = elim (Bool-cases (bytes_eq u.hash h)) [
  | inl b ↦ (some u.height, ground (arith, b, e))
  | inr b ↦ (o, ground (arith, b, e))
]

set_all-Has :
    (us : List PointRef) (f : View) (s : ℕ) (h : Bytes) → Has f s h → Has (set_all us f) s h
set_all-Has [] f s h k = k
set_all-Has (u ∷ us) f s h k = set_all-Has us (set_one u f) s h (set_one-Has u f s h k)

-- The tables have the point, or it was rolled back.
pub data IsStored (t : Tables) (s : ℕ) (h : Bytes) : Type 0 where
  in_points : Has (lookup t.points) s h → IsStored t s h
  in_rollbacks : (o : RollbackRow) → Memᴰ o t.rollbacks → o.slot ≡ s → o.hash ≡ h → IsStored t s h

store_points-IsStored :
    (t : Tables) (ps : List PointRef) (s : ℕ) (h : Bytes)
    → IsStored t s h
    → IsStored (store_points t ps) s h
unfolding store_points
store_points-IsStored t ps s h (in_points k) = in_points (
    subst (λ (f : View). Has f s h) (sym (lookup-upsert_all t.points ps))
      (add_all-Has ps (lookup t.points) s h k))
store_points-IsStored t ps s h (in_rollbacks o m a b) = in_rollbacks o m a b

pub store_points-new :
    (t : Tables) (ps : List PointRef) (p : PointRef)
    → Memᴰ p ps
    → Has (lookup (store_points t ps).points) p.slot p.hash
unfolding store_points
store_points-new t ps p m =
    subst (λ (f : View). Has f p.slot p.hash) (sym (lookup-upsert_all t.points ps))
      (add_all-new ps (lookup t.points) p m)

store_heights-IsStored :
    (t : Tables) (us : List PointRef) (s : ℕ) (h : Bytes)
    → IsStored t s h
    → IsStored (store_heights t us) s h
unfolding store_heights
store_heights-IsStored t us s h (in_points k) = in_points (
    subst (λ (f : View). Has f s h) (sym (lookup-set_heights t.points us))
      (set_all-Has us (lookup t.points) s h k))
store_heights-IsStored t us s h (in_rollbacks o m a b) = in_rollbacks o m a b

add_txs-IsStored :
    (t : Tables) (xs : List TxRef) (s : ℕ) (h : Bytes)
    → IsStored t s h
    → IsStored (add_txs_for_block t xs).0 s h
add_txs-IsStored t xs s h k = elim (add_txs_for_block-cases t xs) [
  | inl e ↦ rw (e) (same_tables t (record t { left_open = suc t.left_open }) refl refl k)
  | inr e ↦ rw (e) (same_tables t (record t { txs = t.txs ++ xs }) refl refl k)
]
  where
    same_tables :
        (t u : Tables)
        → u.points ≡ t.points
        → u.rollbacks ≡ t.rollbacks
        → IsStored t s h
        → IsStored u s h
    same_tables t u e f (in_points k) =
        in_points (subst (λ (rows : List PointRow). Has (lookup rows) s h) (sym e) k)
    same_tables t u e f (in_rollbacks o m a b) = in_rollbacks o (subst (Memᴰ o) (sym f) m) a b

lookup-rolled :
    (t : Tables) (n : ℕ) (new : List RollbackRow) (s : ℕ) (h : Bytes)
    → lookup (rolled t n new).points s h ≡ keep_before n (lookup t.points) s h
lookup-rolled t n new s h =
    ap (λ (rows : List PointRow). lookup rows s h)
      (filterb-ext (λ (r : PointRow). not (leb n r.slot)) (λ (r : PointRow). ltb r.slot n) t.points
        (λ r. ground arith))
    ∙ lookup-before t.points n s h

rolled-IsStored :
    (t : Tables) (n : ℕ) (new : List RollbackRow) (s : ℕ) (h : Bytes)
    → insert_rollbacks (filterb (λ (r : PointRow). leb n r.slot) t.points) t.rollbacks ≡ ok new
    → IsStored t s h
    → IsStored (rolled t n new) s h
rolled-IsStored t n new s h e (in_rollbacks o m a b) =
    in_rollbacks o
      (insert_rollbacks-old (filterb (λ (r : PointRow). leb n r.slot) t.points) t.rollbacks new e o
        m)
      a b
rolled-IsStored t n new s h e (in_points (o, k)) = elim (Bool-cases (ltb s n)) [
  | inl early ↦ in_points (o, lookup-rolled t n new s h ∙ ground (arith, early, k))
  | inr late ↦ elim (Option-cases (find (has_key s h) t.points)) [
    | inl f ↦ absurd (ground (arith, f, k))
    | inr (r, f) ↦
        let (m, hit) = find-eq-some (has_key s h) t.points f in
        let (a, b) = same_key-eq s r.slot h r.hash hit in
        let inside : Memᴰ r (filterb (λ (x : PointRow). leb n x.slot) t.points) =
          mem-filterb (λ (x : PointRow). leb n x.slot) m (ground (arith, late, a)) in
        in_rollbacks (rollback_row r) (insert_rollbacks-new _ t.rollbacks new e r inside) (sym a)
          (sym b)
  ]
]

roll_back-IsStored :
    (t : Tables) (n : ℕ) (s : ℕ) (h : Bytes) → IsStored t s h → IsStored (handle_rollback t n).0 s h
roll_back-IsStored t n s h k = elim (Bool-cases (is_locked t)) [
  | inl l ↦ rw (handle_rollback-locked t n l) k
  | inr l ↦
      rw (handle_rollback-free t n l)
        elim (insert_rollbacks-cases (filterb (λ (r : PointRow). leb n r.slot) t.points)
          t.rollbacks) [
            | inl e ↦ rw (move_points-err t n constraint e) k
            | inr (new, e) ↦ rw (move_points-ok t n new e) (rolled-IsStored t n new s h e k)
          ]
]

add_points-IsStored :
    (t : Tables) (ps : List PointRef) (s : ℕ) (h : Bytes)
    → IsStored t s h
    → IsStored (add_points t ps).0 s h
unfolding add_points
add_points-IsStored t ps s h k = elim (Bool-cases (ltb 0 (length ps) && is_locked t)) [
  | inl e ↦ rw (add_points, e) k
  | inr e ↦ rw (add_points, e) (store_points-IsStored t ps s h k)
]

set_point_heights-IsStored :
    (t : Tables) (us : List PointRef) (s : ℕ) (h : Bytes)
    → IsStored t s h
    → IsStored (set_point_heights t us).0 s h
unfolding set_point_heights
set_point_heights-IsStored t us s h k = elim (Bool-cases (ltb 0 (length us) && is_locked t)) [
  | inl e ↦ rw (set_point_heights, e) k
  | inr e ↦ rw (set_point_heights, e) (store_heights-IsStored t us s h k)
]

call-IsStored :
    (c : Call) (t : Tables) (s : ℕ) (h : Bytes) → IsStored t s h → IsStored (call t c).0 s h
unfolding call
call-IsStored (add ps) t s h k = add_points-IsStored t ps s h k
call-IsStored (set_heights us) t s h k = set_point_heights-IsStored t us s h k
call-IsStored (add_txs xs) t s h k = add_txs-IsStored t xs s h k
call-IsStored (View.roll_back n) t s h k = roll_back-IsStored t n s h k

run-IsStored :
    (cs : List Call) (t : Tables) (s : ℕ) (h : Bytes) → IsStored t s h → IsStored (run cs t) s h
unfolding run
run-IsStored [] t s h k = k
run-IsStored (c ∷ cs) t s h k = run-IsStored cs (call t c).0 s h (call-IsStored c t s h k)

pub IsRun-IsStored :
    (t u : Tables) (s : ℕ) (h : Bytes) → IsRun t u → IsStored t s h → IsStored u s h
IsRun-IsStored t u s h (cs, e) k =
    subst (λ (x : Tables). IsStored x s h) (sym e) (run-IsStored cs t s h k)
