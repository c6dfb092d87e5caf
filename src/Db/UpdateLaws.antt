-- ===== src/Db/UpdateLaws.antt =====
-- What `AddTxsForBlock` and `AddPoints` of db_sqlite.go leave in the tables.
use cardano_go.Common.{
  Bool, Bool-cases, Bytes, List, Result, [], any, ap, append-nil, append_assoc, arith, bytes_eq,
  bytes_eq_refl, drop, eq_of_bytes_eq, err, false, filterb, find-append, find-filterb-not,
  find-filterb-other, if◌then◌else◌, inl, inr, length, length-drop, ltb, not, ok, panic, refl, suc,
  sym, take, take-append-drop, true, zero, ℕ, ◌&&◌, ◌++◌, ◌>>=◌, ◌||◌, ◌∙◌, ◌∷◌, ◌≡◌, ◌≤◌, ◌⊎◌,
}
use cardano_go.Db.Tables.{
  PointRef, TxRef, PointRow, Tables, DbError, constraint, same_key, has_key, is_locked, busy,
}
use cardano_go.Db.Updates.{
  insert_txs, insert_chunks, chunk_size, add_txs_for_block, height_of, upsert, upsert_all,
  store_points, insert_refs,
}

insert_txs-append :
    (xs ys old : List TxRef) → insert_txs (xs ++ ys) old ≡ (insert_txs xs old >>= insert_txs ys)
unfolding insert_txs
insert_txs-append [] ys old = refl
insert_txs-append (x ∷ xs) ys old = ground (arith, insert_txs-append xs ys (old ++ x ∷ []))

first_chunk :
    (fuel : ℕ) (x : TxRef) (xs old : List TxRef)
    → ((new : List TxRef)
        → insert_chunks fuel (drop chunk_size (x ∷ xs)) new
          ≡ insert_txs (drop chunk_size (x ∷ xs)) new)
    → insert_chunks (suc fuel) (x ∷ xs) old ≡ insert_txs (x ∷ xs) old
unfolding insert_chunks
first_chunk fuel x xs old rest =
    by_case (insert_txs (take chunk_size (x ∷ xs)) old)
    ∙ sym (insert_txs-append (take chunk_size (x ∷ xs)) (drop chunk_size (x ∷ xs)) old)
    ∙ ap (λ (l : List TxRef). insert_txs l old) (take-append-drop chunk_size (x ∷ xs))
  where
    by_case :
        (r : Result DbError (List TxRef))
        → elim r [
          | err e ↦ err e
          | panic ↦ panic
          | ok new ↦ insert_chunks fuel (drop chunk_size (x ∷ xs)) new
        ]
          ≡ (r >>= insert_txs (drop chunk_size (x ∷ xs)))
    by_case (ok new) = rest new
    by_case (err f) = refl
    by_case panic = refl

insert_chunks-eq :
    (fuel : ℕ) (xs old : List TxRef)
    → length xs ≤ fuel
    → insert_chunks fuel xs old ≡ insert_txs xs old
unfolding insert_chunks
insert_chunks-eq fuel [] old h = refl
insert_chunks-eq zero (x ∷ xs) old h = absurd (omega arith)
insert_chunks-eq (suc fuel) (x ∷ xs) old h =
    let rest : List TxRef = drop chunk_size (x ∷ xs) in
    let less : length rest ≤ fuel = omega (arith, length-drop chunk_size (x ∷ xs), h) in
    first_chunk fuel x xs old (λ new. insert_chunks-eq fuel rest new less)

-- A hash occurs twice, among the new transactions and those of the table.
abbrev pub clashes : List TxRef → List TxRef → Bool
clashes [] old = false
clashes (x ∷ xs) old = any (λ (o : TxRef). bytes_eq x.hash o.hash) old || clashes xs (old ++ x ∷ [])

insert_txs-clashes :
    (xs old : List TxRef)
    → insert_txs xs old ≡ (if clashes xs old then err constraint else ok (old ++ xs))
unfolding insert_txs
insert_txs-clashes [] old = rw (append-nil old) refl
insert_txs-clashes (x ∷ xs) old =
    ground (arith, insert_txs-clashes xs (old ++ x ∷ []), append_assoc old (x ∷ []) xs)

insert_refs-clashes :
    (t : Tables) (refs : List TxRef)
    → insert_refs t refs ≡ (
        if clashes refs t.txs
        then (record t { left_open = suc t.left_open }, err constraint)
        else (record t { txs = t.txs ++ refs }, ok tt))
unfolding insert_refs
insert_refs-clashes t refs =
    ground (arith, insert_chunks-eq (length refs) refs t.txs, insert_txs-clashes refs t.txs)

-- `AddTxsForBlock`, for whatever number of transactions and so of chunks: all of them are
-- inserted, in their order, where no hash occurs twice; otherwise none is, and the transaction is
-- left open. Where one was left open before, nothing is inserted, and one more is left open.
pub add_txs_for_block_lem :
    (t : Tables) (refs : List TxRef)
    → add_txs_for_block t refs ≡ (
        if ltb 0 (length refs) && is_locked t
        then (record t { left_open = suc t.left_open }, err busy)
        else if clashes refs t.txs
        then (record t { left_open = suc t.left_open }, err constraint)
        else (record t { txs = t.txs ++ refs }, ok tt))
unfolding add_txs_for_block
add_txs_for_block_lem t refs = rw (add_txs_for_block, insert_refs-clashes t refs) refl

-- The tables after it: points and rollbacks are as they were.
pub add_txs_for_block-cases :
    (t : Tables) (refs : List TxRef)
    → ((add_txs_for_block t refs).0 ≡ record t { left_open = suc t.left_open })
      ⊎ ((add_txs_for_block t refs).0 ≡ record t { txs = t.txs ++ refs })
add_txs_for_block-cases t refs = elim (Bool-cases (ltb 0 (length refs) && is_locked t)) [
  | inl e ↦ inl (rw (add_txs_for_block_lem t refs, e) refl)
  | inr e ↦ elim (Bool-cases (clashes refs t.txs)) [
    | inl f ↦ inl (rw (add_txs_for_block_lem t refs, e, f) refl)
    | inr f ↦ inr (rw (add_txs_for_block_lem t refs, e, f) refl)
  ]
]

pub same_key-eq : (s s' : ℕ) (h h' : Bytes) → same_key s h s' h' ≡ true → (s ≡ s') × (h ≡ h')
same_key-eq s s' h h' e = (ground (arith, e), eq_of_bytes_eq h h' (ground (arith, e)))

pub not_same :
    (s s' : ℕ) (h h' : Bytes) (r : PointRow)
    → same_key s h s' h' ≡ false
    → has_key s h r ≡ true
    → has_key s' h' r ≡ false
not_same s s' h h' r differ here = elim (Bool-cases (has_key s' h' r)) [
  | inr e ↦ e
  | inl e ↦
      let (a, b) = same_key-eq s r.slot h r.hash here in
      let (c, d) = same_key-eq s' r.slot h' r.hash e in
      let same : same_key s h s' h' ≡ true = rw (a, b, c, d) ground (arith, bytes_eq_refl r.hash) in
      cc
]

height_of-upsert :
    (rows : List PointRow) (p : PointRef) (s : ℕ) (h : Bytes)
    → height_of (upsert rows p) s h ≡ height_of rows s h
unfolding upsert
height_of-upsert rows p s h = elim (Bool-cases (same_key s h p.slot p.hash)) [
  | inl e ↦
      let (a, b) = same_key-eq s p.slot h p.hash e in
      rw (a, b) ground
        (
          arith,
          bytes_eq_refl p.hash,
          find-append (has_key p.slot p.hash)
              (filterb (λ (r : PointRow). not (has_key p.slot p.hash r)) rows)
              (record {
                slot = p.slot;
                hash = p.hash;
                kind = p.kind;
                height = height_of rows p.slot p.hash;
              }
                ∷ []),
          find-filterb-not (has_key p.slot p.hash) rows,
        )
  | inr e ↦ ground (
    arith,
    e,
    find-append (has_key s h) (filterb (λ (r : PointRow). not (has_key p.slot p.hash r)) rows) (
        record {
          slot = p.slot;
          hash = p.hash;
          kind = p.kind;
          height = height_of rows p.slot p.hash;
        }
        ∷ []),
    find-filterb-other (has_key s h) (has_key p.slot p.hash) rows
        (λ r. not_same s p.slot h p.hash r e),
  )
]

height_of-upsert_all :
    (rows : List PointRow) (ps : List PointRef) (s : ℕ) (h : Bytes)
    → height_of (upsert_all rows ps) s h ≡ height_of rows s h
unfolding upsert_all
height_of-upsert_all rows [] s h = refl
height_of-upsert_all rows (p ∷ ps) s h =
    height_of-upsert_all (upsert rows p) ps s h ∙ height_of-upsert rows p s h

-- `AddPoints` changes the height of no point: one that is there keeps its height, and one that is
-- new has none.
height_of-store_points :
    (t : Tables) (ps : List PointRef) (s : ℕ) (h : Bytes)
    → height_of (store_points t ps).points s h ≡ height_of t.points s h
unfolding store_points
height_of-store_points t ps s h = height_of-upsert_all t.points ps s h
