-- ===== src/Client/QueryLaws.antt =====
-- client.go: what the queries give.
use mathlib.Core.List.{Memᴰ}
use cardano_go.Common.{
  Bool, Bool-cases, Bytes, List, Option, Option-cases, Result, [], any, ap, arith, bind-ok,
  bytes_eq, bytes_eq_refl, eq_of_bytes_eq, err, false, filterb, find, if◌then◌else◌, inl, inr,
  length, ltb, none, ok, panic, refl, some, subst, sym, true, ℕ, ◌>>=◌, ◌∙◌, ◌∷◌, ◌≡◌, ◌⊎◌,
}
use cardano_go.Db.Tables.{PointRef, TxRef, Tables, DbError}
use cardano_go.Db.Tables.{too_many_parameters}
use cardano_go.Db.Queries.{get_block_num_for_tx, get_point_by_height}
use cardano_go.Client.Queries.{
  db_error, LedgerTx, LedgerBlock, QueryError, last_tx, get_transaction, get_block_by_height,
  NodeUtxo, UtxoWithHeight, distinct_hashes, recorded, with_height, join_heights,
  get_utxo_for_address, of_db, find_tx,
}

-- `txhash` is the primary key of `tx`.
abbrev pub IsKeyed : List TxRef → Type 0
IsKeyed [] = Unit
IsKeyed (x ∷ xs) = (any (λ (y : TxRef). bytes_eq y.hash x.hash) xs ≡ false) × IsKeyed xs

-- The utxos of the node whose transactions the database has, with the heights that it gives.
abbrev pub known_utxos : Tables → List NodeUtxo → List UtxoWithHeight
known_utxos t [] = []
known_utxos t (u ∷ us) = elim (get_block_num_for_tx t u.tx_hash) [
  | ok n ↦ with_height u n ∷ known_utxos t us
  | err e ↦ known_utxos t us
  | panic ↦ known_utxos t us
]

recorded-filterb :
    (h : Bytes) (keep : TxRef → Bool) (found : Option TxRef) (xs : List TxRef)
    → ((x : TxRef) → bytes_eq x.hash h ≡ true → keep x ≡ true)
    → recorded h found (filterb keep xs) ≡ recorded h found xs
recorded-filterb h keep found [] k = refl
recorded-filterb h keep found (x ∷ xs) k = elim (Bool-cases (bytes_eq x.hash h)) [
  | inl e ↦ ground (arith, e, k x e, recorded-filterb h keep (some x) xs k)
  | inr e ↦ elim (Bool-cases (keep x)) [
    | inl f ↦ ground (arith, e, f, recorded-filterb h keep found xs k)
    | inr f ↦ ground (arith, e, f, recorded-filterb h keep found xs k)
  ]
]

recorded-absent :
    (h : Bytes) (found : Option TxRef) (xs : List TxRef)
    → any (λ (y : TxRef). bytes_eq y.hash h) xs ≡ false
    → recorded h found xs ≡ found
recorded-absent h found [] e = refl
recorded-absent h found (x ∷ xs) e = elim (Bool-cases (bytes_eq x.hash h)) [
  | inl f ↦ absurd (ground (arith, e, f))
  | inr f ↦ ground (arith, e, f, recorded-absent h found xs)
]

recorded-find :
    (h : Bytes) (xs : List TxRef)
    → IsKeyed xs
    → recorded h none xs ≡ find (λ (y : TxRef). bytes_eq y.hash h) xs
recorded-find h [] k = refl
recorded-find h (x ∷ xs) k = elim (Bool-cases (bytes_eq x.hash h)) [
  | inl f ↦
      let same : x.hash ≡ h = eq_of_bytes_eq x.hash h f in
      let gone : any (λ (y : TxRef). bytes_eq y.hash h) xs ≡ false =
        subst (λ (b : Bytes). any (λ (y : TxRef). bytes_eq y.hash b) xs ≡ false) same k.0 in
      ground (arith, f, recorded-absent h (some x) xs gone)
  | inr f ↦ ground (arith, f, recorded-find h xs k.1)
]

-- `any` on the hashes of the request.
abbrev has_hash : Bytes → List Bytes → Bool
has_hash h hs = any (bytes_eq h) hs

distinct_hashes-has :
    (us : List NodeUtxo) (u : NodeUtxo) → Memᴰ u us → has_hash u.tx_hash (distinct_hashes us) ≡ true
distinct_hashes-has [] u m = elim m [ ]
distinct_hashes-has (x ∷ us) u (Memᴰ.head e) = rw (e) ground (arith, bytes_eq_refl x.tx_hash)
distinct_hashes-has (x ∷ us) u (Memᴰ.tail m) = ground (arith, distinct_hashes-has us u m)

-- The rows of the given hashes.
abbrev rows_of : Tables → List Bytes → List TxRef
rows_of t hs = filterb (λ (x : TxRef). any (bytes_eq x.hash) hs) t.txs

recorded-rows_of :
    (t : Tables) (hs : List Bytes) (h : Bytes)
    → IsKeyed t.txs
    → has_hash h hs ≡ true
    → recorded h none (rows_of t hs) ≡ find (λ (y : TxRef). bytes_eq y.hash h) t.txs
recorded-rows_of t hs h k inside =
    recorded-filterb h (λ (x : TxRef). any (bytes_eq x.hash) hs) none t.txs
      (λ x e. subst (λ (b : Bytes). has_hash b hs ≡ true) (sym (eq_of_bytes_eq x.hash h e)) inside)
    ∙ recorded-find h t.txs k

join_heights-known :
    (t : Tables) (hs : List Bytes) (us : List NodeUtxo)
    → IsKeyed t.txs
    → ((u : NodeUtxo) → Memᴰ u us → has_hash u.tx_hash hs ≡ true)
    → join_heights (rows_of t hs) us ≡ known_utxos t us
unfolding join_heights get_block_num_for_tx
join_heights-known t hs [] k inside = refl
join_heights-known t hs (u ∷ us) k inside = ground (
  arith,
  recorded-rows_of t hs u.tx_hash k (inside u (Memᴰ.head refl)),
  join_heights-known t hs us k (λ v m. inside v (Memᴰ.tail m)),
)

-- Where the node answers, and with no more different transactions than the engine takes parameters,
-- `GetUtxoForAddress` gives the node's utxos in its order, without those whose transactions the
-- database does not have, each with the height that `GetBlockNumForTx` gives for its transaction;
-- with more transactions it fails. The hashes of the table of transactions are distinct, as its key
-- demands.
pub get_utxo_for_address_lem :
    {Addr : Type 0} (new_address : Bytes → Result QueryError Addr)
    (get_utxos : Addr → Result QueryError (List NodeUtxo)) (max_parameters : ℕ) (t : Tables)
    (address : Bytes) (a : Addr) (us : List NodeUtxo)
    → IsKeyed t.txs
    → new_address address ≡ ok a
    → get_utxos a ≡ ok us
    → get_utxo_for_address (ok tt) new_address get_utxos max_parameters t address ≡ (
        if ltb max_parameters (length (distinct_hashes us))
        then err (db_error too_many_parameters)
        else ok (known_utxos t us))
unfolding get_utxo_for_address
get_utxo_for_address_lem new_address get_utxos max_parameters t address a us k e f =
    elim (Bool-cases (ltb max_parameters (length (distinct_hashes us)))) [
      | inl g ↦ rw (get_utxo_for_address, e, f, g) refl
      | inr g ↦
          rw (get_utxo_for_address, e, f, g)
            (ap ok (join_heights-known t (distinct_hashes us) us k (distinct_hashes-has us)))
    ]

last_tx-hash :
    (h : Bytes) (found : Option LedgerTx) (xs : List LedgerTx) (x : LedgerTx)
    → last_tx h found xs ≡ some x
    → (Memᴰ x xs × (x.hash ≡ h)) ⊎ (found ≡ some x)
last_tx-hash h found [] x e = inr e
last_tx-hash h found (y ∷ xs) x e = elim (Bool-cases (bytes_eq y.hash h)) [
  | inl f ↦
      let g : last_tx h (some y) xs ≡ some x = ground (arith, e, f) in
      elim (last_tx-hash h (some y) xs x g) [
        | inl (m, k) ↦ inl (Memᴰ.tail m, k)
        | inr k ↦ let same : x ≡ y = cc in inl (Memᴰ.head same, rw same (eq_of_bytes_eq y.hash h f))
      ]
  | inr f ↦
      let g : last_tx h found xs ≡ some x = ground (arith, e, f) in
      elim (last_tx-hash h found xs x g) [ inl (m, k) ↦ inl (Memᴰ.tail m, k) | inr k ↦ inr k ]
]

pub of_db-ok : {A : Type 0} (r : Result DbError A) (a : A) → of_db r ≡ ok a → r ≡ ok a
of_db-ok (ok b) a e = cc
of_db-ok (err x) a e = cc
of_db-ok panic a e = cc

find_tx-ok :
    (h : Bytes) (c : LedgerBlock) (x : LedgerTx) (b : LedgerBlock)
    → find_tx h c ≡ ok (x, b)
    → (c ≡ b) × Memᴰ x c.transactions × (x.hash ≡ h)
unfolding find_tx
find_tx-ok h c x b e = elim (Option-cases (last_tx h none c.transactions)) [
  | inl f ↦ absurd (ground (arith, e, f))
  | inr (y, f) ↦
      let same_tx : y ≡ x = ground (arith, e, f) in
      let same_block : c ≡ b = ground (arith, e, f) in
      elim (last_tx-hash h none c.transactions x (f ∙ ap some same_tx)) [
        | inl (m, k) ↦ (same_block, m, k)
        | inr k ↦ absurd cc
      ]
]

-- `GetTransaction` gives only a transaction of the given hash, out of the block that the node
-- gives for the point of the height that the database has for that hash.
get_transaction-ok :
    (get_block : PointRef → Result QueryError LedgerBlock) (t : Tables) (h : Bytes) (x : LedgerTx)
    (b : LedgerBlock)
    → get_transaction get_block t h ≡ ok (x, b)
    → (x.hash ≡ h)
      × Memᴰ x b.transactions
      × ((n : ℕ) × (p : PointRef) × (get_block_num_for_tx t h ≡ ok n)
          × (get_point_by_height t n ≡ ok p)
          × (get_block p ≡ ok b))
unfolding get_transaction
get_transaction-ok get_block t h x b e =
    let found : Result QueryError ℕ = of_db (get_block_num_for_tx t h) in
    let (c, e1, f1) =
      bind-ok (found >>= (λ n. get_block_by_height get_block t n)) (find_tx h) (x, b) e in
    let (n, e2, f2) = bind-ok found (λ n. get_block_by_height get_block t n) c e1 in
    let (p, e3, f3) = bind-ok (of_db (get_point_by_height t n)) get_block c f2 in
    let (same, m, k) = find_tx-ok h c x b f1 in
    (
      k,
      subst (λ (d : LedgerBlock). Memᴰ x d.transactions) same m,
      (
        n,
        p,
        of_db-ok (get_block_num_for_tx t h) n e2,
        of_db-ok (get_point_by_height t n) p e3,
        f3 ∙ ap ok same,
      ),
    )
