-- ===== src/Db/RollbackLaws.antt =====
-- `HandleRollback` of db_sqlite.go.
use mathlib.Core.List.{Memᴰ}
use cardano_go.Common.{
  All, All-filterb, Bool, Bool-cases, List, [], any, any-mem, ap, arith, bytes_eq_refl, err, false,
  filterb, filterb-ext, inl, inr, leb, ltb, mem-append-left, mem-append-right, mem-filterb, none,
  not, ok, refl, some, subst, true, ℕ, ◌&&◌, ◌++◌, ◌==◌, ◌∷◌, ◌≡◌, ◌≤◌, ◌⊎◌,
}
use cardano_go.Db.Tables.{
  PointRef, TxRef, PointRow, RollbackRow, Tables, DbError, constraint, same_key, has_key, is_locked,
  busy,
}
use cardano_go.Db.Updates.{
  insert_rollbacks, is_rolled_back, move_points, handle_rollback, store_points, upsert, upsert_all,
  height_of,
}

abbrev pub rollback_row : PointRow → RollbackRow
rollback_row r = record { slot = r.slot; hash = r.hash; height = r.height }

abbrev holds : PointRow → RollbackRow → Bool
holds r o = same_key r.slot r.hash o.slot o.hash

insert_rollbacks-cons :
    (r : PointRow) (rs : List PointRow) (old new : List RollbackRow)
    → insert_rollbacks (r ∷ rs) old ≡ ok new
    → insert_rollbacks rs (old ++ rollback_row r ∷ []) ≡ ok new
unfolding insert_rollbacks
insert_rollbacks-cons r rs old new e = ground (arith, e)

pub insert_rollbacks-old :
    (rs : List PointRow) (old new : List RollbackRow)
    → insert_rollbacks rs old ≡ ok new
    → (o : RollbackRow) → Memᴰ o old
    → Memᴰ o new
unfolding insert_rollbacks
insert_rollbacks-old [] old new e o d = let f : old ≡ new = ground (arith, e) in subst (Memᴰ o) f d
insert_rollbacks-old (r ∷ rs) old new e o d =
    insert_rollbacks-old rs (old ++ rollback_row r ∷ []) new (insert_rollbacks-cons r rs old new e)
      o (mem-append-left (rollback_row r ∷ []) d)

pub insert_rollbacks-new :
    (rs : List PointRow) (old new : List RollbackRow)
    → insert_rollbacks rs old ≡ ok new
    → (r : PointRow) → Memᴰ r rs
    → Memᴰ (rollback_row r) new
insert_rollbacks-new (x ∷ rs) old new e r (Memᴰ.head s) =
    insert_rollbacks-old rs (old ++ rollback_row x ∷ []) new (insert_rollbacks-cons x rs old new e)
      (rollback_row r) (mem-append-right old (Memᴰ.head (ap rollback_row s)))
insert_rollbacks-new (x ∷ rs) old new e r (Memᴰ.tail d) =
    insert_rollbacks-new rs (old ++ rollback_row x ∷ []) new (insert_rollbacks-cons x rs old new e)
      r d
insert_rollbacks-new [] old new e r d = elim d [ ]

pub insert_rollbacks-cases :
    (rs : List PointRow) (old : List RollbackRow)
    → (insert_rollbacks rs old ≡ err constraint)
      ⊎ ((new : List RollbackRow) × (insert_rollbacks rs old ≡ ok new))
unfolding insert_rollbacks
insert_rollbacks-cases [] old = inr (old, refl)
insert_rollbacks-cases (r ∷ rs) old = elim (Bool-cases (any (holds r) old)) [
  | inl e ↦ inl (ground (arith, e))
  | inr e ↦ elim (insert_rollbacks-cases rs (old ++ rollback_row r ∷ [])) [
    | inl f ↦ inl (ground (arith, e, f))
    | inr (new, f) ↦ inr (new, ground (arith, e, f))
  ]
]

insert_rollbacks-clash :
    (rs : List PointRow) (old : List RollbackRow) (r : PointRow) (o : RollbackRow)
    → Memᴰ r rs
    → Memᴰ o old
    → holds r o ≡ true
    → insert_rollbacks rs old ≡ err constraint
unfolding insert_rollbacks
insert_rollbacks-clash (x ∷ rs) old r o (Memᴰ.head s) d h =
    let f : any (holds x) old ≡ true =
      any-mem (holds x) d (subst (λ (y : PointRow). holds y o ≡ true) s h) in
    rw (f) refl
insert_rollbacks-clash (x ∷ rs) old r o (Memᴰ.tail m) d h =
    let f : insert_rollbacks rs (old ++ rollback_row x ∷ []) ≡ err constraint =
      insert_rollbacks-clash rs (old ++ rollback_row x ∷ []) r o m
        (mem-append-left (rollback_row x ∷ []) d) h in
    ground (arith, f)
insert_rollbacks-clash [] old r o m d h = elim m [ ]

txs_gone :
    (n : ℕ) (new : List RollbackRow) (txs : List TxRef) (r : PointRow) (h : ℕ)
    → r.height ≡ some h
    → n ≤ r.slot
    → Memᴰ (rollback_row r) new
    → All
        (λ (x : TxRef). ¬ (x.block_height ≡ h))
        (filterb (λ (x : TxRef). not (is_rolled_back n new x)) txs)
txs_gone n new txs r h s le d =
    All-filterb (λ (x : TxRef). ¬ (x.block_height ≡ h))
      (λ (x : TxRef). not (is_rolled_back n new x)) txs
      (λ x keep same.
        let hit : is_rolled_back n new x ≡ true =
          any-mem
            (λ (o : RollbackRow).
              leb n o.slot && elim o.height [ some k ↦ x.block_height == k | none ↦ false ])
            d (ground (arith, s, le, same)) in
        ground (arith, keep, hit))

pub move_points-err :
    (t : Tables) (n : ℕ) (e : DbError)
    → insert_rollbacks (filterb (λ (r : PointRow). leb n r.slot) t.points) t.rollbacks ≡ err e
    → move_points t n ≡ (t, err e)
unfolding move_points
move_points-err t n e h = rw (move_points, h) refl

abbrev pub rolled : Tables → ℕ → List RollbackRow → Tables
rolled t n new = record t {
  points = filterb (λ (r : PointRow). not (leb n r.slot)) t.points;
  rollbacks = new;
  txs = filterb (λ (x : TxRef). not (is_rolled_back n new x)) t.txs;
}

pub move_points-ok :
    (t : Tables) (n : ℕ) (new : List RollbackRow)
    → insert_rollbacks (filterb (λ (r : PointRow). leb n r.slot) t.points) t.rollbacks ≡ ok new
    → move_points t n ≡ (rolled t n new, ok tt)
unfolding move_points
move_points-ok t n new h = rw (move_points, h) refl

-- The two outcomes of the statements of `HandleRollback`.
move_points_lem :
    (t : Tables) (n : ℕ)
    → (((move_points t n).0 ≡ t) × ((move_points t n).1 ≡ err constraint))
      ⊎ (((move_points t n).1 ≡ ok tt)
          × ((move_points t n).0.points ≡ filterb (λ (r : PointRow). ltb r.slot n) t.points)
          × ((r : PointRow)
              → Memᴰ r t.points
              → n ≤ r.slot
              → Memᴰ (rollback_row r) (move_points t n).0.rollbacks)
          × ((r : PointRow) (h : ℕ)
              → Memᴰ r t.points
              → n ≤ r.slot
              → r.height ≡ some h
              → All (λ (x : TxRef). ¬ (x.block_height ≡ h)) (move_points t n).0.txs))
move_points_lem t n =
    let moved : List PointRow = filterb (λ (r : PointRow). leb n r.slot) t.points in
    elim (insert_rollbacks-cases moved t.rollbacks) [
      | inl e ↦
          let f : move_points t n ≡ (t, err constraint) = move_points-err t n constraint e in
          inl (rw (f) refl, rw (f) refl)
      | inr (new, e) ↦
          let there : (r : PointRow) → Memᴰ r t.points → n ≤ r.slot → Memᴰ (rollback_row r) new =
            λ r d le.
              insert_rollbacks-new moved t.rollbacks new e r
                (mem-filterb (λ (x : PointRow). leb n x.slot) d (ground (arith, le))) in
          let f : move_points t n ≡ (rolled t n new, ok tt) = move_points-ok t n new e in
          inr (
            rw (f) refl,
            rw (f) (
                filterb-ext (λ (r : PointRow). not (leb n r.slot)) (λ (r : PointRow). ltb r.slot n)
                  t.points (λ r. ground arith)),
            rw (f) there,
            λ r h d le s. rw (f) (txs_gone n new t.txs r h s le (there r d le)),
          )
    ]

pub handle_rollback-free :
    (t : Tables) (n : ℕ) → is_locked t ≡ false → handle_rollback t n ≡ move_points t n
unfolding handle_rollback
handle_rollback-free t n e = rw (handle_rollback, e) refl

pub handle_rollback-locked :
    (t : Tables) (n : ℕ) → is_locked t ≡ true → handle_rollback t n ≡ (t, err busy)
unfolding handle_rollback
handle_rollback-locked t n e = rw (handle_rollback, e) refl

pub handle_rollback_lem :
    (t : Tables) (n : ℕ)
    → (((handle_rollback t n).0 ≡ t)
        × (((handle_rollback t n).1 ≡ err constraint)
            ⊎ (((handle_rollback t n).1 ≡ err busy) × (is_locked t ≡ true))))
      ⊎ (((handle_rollback t n).1 ≡ ok tt)
          × ((handle_rollback t n).0.points ≡ filterb (λ (r : PointRow). ltb r.slot n) t.points)
          × ((r : PointRow)
              → Memᴰ r t.points
              → n ≤ r.slot
              → Memᴰ (rollback_row r) (handle_rollback t n).0.rollbacks)
          × ((r : PointRow) (h : ℕ)
              → Memᴰ r t.points
              → n ≤ r.slot
              → r.height ≡ some h
              → All (λ (x : TxRef). ¬ (x.block_height ≡ h)) (handle_rollback t n).0.txs))
handle_rollback_lem t n = elim (Bool-cases (is_locked t)) [
  | inl e ↦
      let f : handle_rollback t n ≡ (t, err busy) = handle_rollback-locked t n e in
      inl (rw (f) refl, inr (rw (f) refl, e))
  | inr e ↦ rw (handle_rollback-free t n e) elim (move_points_lem t n) [
    | inl (same, failed) ↦ inl (same, inl failed)
    | inr done ↦ inr done
  ]
]

added :
    (rows : List PointRow) (p : PointRef) (r : PointRow)
    → p.slot ≡ r.slot
    → p.hash ≡ r.hash
    → (q : PointRow) × Memᴰ q (upsert_all rows (p ∷ []))
      × (q.slot ≡ r.slot)
      × (holds q (rollback_row r) ≡ true)
unfolding upsert_all upsert
added rows p r s h = (
  record { slot = p.slot; hash = p.hash; kind = p.kind; height = height_of rows p.slot p.hash },
  mem-append-right (filterb (λ (x : PointRow). not (has_key p.slot p.hash x)) rows)
      (Memᴰ.head refl),
  s,
  rw (s, h) (ground (arith, bytes_eq_refl r.hash)),
)

-- A point that was rolled back once, and is added again, cannot be rolled back a second time: the
-- table of rolled back points holds it already.
move_points-again :
    (t : Tables) (n : ℕ) (r : PointRow) (p : PointRef)
    → Memᴰ r t.points
    → n ≤ r.slot
    → (move_points t n).1 ≡ ok tt
    → p.slot ≡ r.slot
    → p.hash ≡ r.hash
    → (move_points (store_points (move_points t n).0 (p ∷ [])) n).1 ≡ err constraint
unfolding store_points
move_points-again t n r p d from done s h = elim (move_points_lem t n) [
  | inl (same, failed) ↦ absurd (ground (arith, done, failed))
  | inr (succeeded, points, there, txs) ↦
      let t1 : Tables = (move_points t n).0 in
      let (q, inside, late, fits) = added t1.points p r s h in
      let clash : insert_rollbacks
            (filterb (λ (x : PointRow). leb n x.slot) (upsert_all t1.points (p ∷ []))) t1.rollbacks
          ≡ err constraint =
        insert_rollbacks-clash _ t1.rollbacks q (rollback_row r)
          (mem-filterb (λ (x : PointRow). leb n x.slot) inside (ground (arith, late, from)))
          (there r d from) fits in
      rw (move_points-err (store_points t1 (p ∷ [])) n constraint clash) refl
]
