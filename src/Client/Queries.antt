-- ===== src/Client/Queries.antt =====
-- client.go: the queries over the database and the node. What a call of the node brings is an
-- argument; a record has what is asked of a third-party value.
use cardano_go.Common.{
  Bytes, List, Option, Result, [], any, bytes_eq, err, if◌then◌else◌, none, ok, panic, some, ℕ,
  ◌>>=◌, ◌∷◌,
}
use cardano_go.Block.AuxValue.{Decoded}
use cardano_go.Db.Tables.{PointRef, TxRef, Tables, DbError, no_rows}
use cardano_go.Db.Queries.{get_txs, get_block_num_for_tx, get_highest_point, get_point_by_height}
use cardano_go.Processor.Defs.{zero_point}

-- What is asked of a `ledger.Transaction`: `metadata` is what the CBOR package decodes its metadata
-- to, where it has any, and `some none` where it cannot.
pub record LedgerTx : Type 0 where
  pub hash : Bytes
  pub inputs : List (Bytes × ℕ)
  pub outputs : List (ℕ × Bytes)
  pub metadata : Option (Option Decoded)
  pub fee : ℕ

-- What is asked of a `ledger.Block`.
pub record LedgerBlock : Type 0 where
  pub number : ℕ
  pub slot : ℕ
  pub hash : Bytes
  pub kind : ℕ
  pub transactions : List LedgerTx

pub data QueryError : Type 0 where
  db_error : DbError → QueryError
  -- An error of the node, or of the connection to it.
  node_error : Bytes → QueryError
  point_not_found tx_not_found : QueryError

abbrev pub of_db {ℓ} : {A : Type ℓ} → Result DbError A → Result QueryError A
of_db (ok a) = ok a
of_db (err e) = err (db_error e)
of_db panic = panic

-- `GetTip`
unfoldable pub get_tip : Tables → Result QueryError PointRef
get_tip t = elim (get_highest_point t) [
  | ok p ↦ ok p
  | err no_rows ↦ ok zero_point
  | err e ↦ err (db_error e)
  | panic ↦ panic
]

-- `GetHeight`, on `c.processor.highestPoint`.
unfoldable pub get_height : PointRef → Result QueryError PointRef
get_height highest = if bytes_eq highest.hash [] then err point_not_found else ok highest

-- The last transaction of the hash.
abbrev pub last_tx : Bytes → Option LedgerTx → List LedgerTx → Option LedgerTx
last_tx h found [] = found
last_tx h found (x ∷ xs) = last_tx h (if bytes_eq x.hash h then some x else found) xs

-- The end of `GetTransaction`, over the block's transactions.
unfoldable pub find_tx : Bytes → LedgerBlock → Result QueryError (LedgerTx × LedgerBlock)
find_tx h b = elim (last_tx h none b.transactions) [ some x ↦ ok (x, b) | none ↦ err tx_not_found ]

-- `get_block` is the block-fetch client's.
module _ (get_block : PointRef → Result QueryError LedgerBlock) where
  -- `FetchLatestBlock`
  unfoldable pub fetch_latest_block : Tables → Result QueryError LedgerBlock
  fetch_latest_block t = of_db (get_highest_point t) >>= get_block

  -- `GetBlockByPoint`
  abbrev pub get_block_by_point : PointRef → Result QueryError LedgerBlock
  get_block_by_point p = get_block p

  -- `GetBlockByHeight`
  unfoldable pub get_block_by_height : Tables → ℕ → Result QueryError LedgerBlock
  get_block_by_height t n = of_db (get_point_by_height t n) >>= get_block

  -- `GetTransaction`
  unfoldable pub get_transaction : Tables → Bytes → Result QueryError (LedgerTx × LedgerBlock)
  unfolding get_block_by_height find_tx
  get_transaction t h =
      of_db (get_block_num_for_tx t h) >>= (λ n. get_block_by_height t n) >>= find_tx h

-- An entry of what `GetUTxOByAddress` brings.
pub record NodeUtxo : Type 0 where
  pub tx_hash : Bytes
  pub idx : ℕ
  pub address : Bytes
  pub amount : ℕ

pub record UtxoWithHeight : Type 0 where
  pub tx_hash : Bytes
  pub address : Bytes
  pub amount : ℕ
  pub index : ℕ
  pub height : ℕ

-- The keys of `txHashesMap`.
abbrev pub distinct_hashes : List NodeUtxo → List Bytes
distinct_hashes [] = []
distinct_hashes (u ∷ us) =
    let rest : List Bytes = distinct_hashes us in
    if any (bytes_eq u.tx_hash) rest then rest else u.tx_hash ∷ rest

-- `recordedTxsMap`, looked up: a later row of a hash replaces an earlier one.
abbrev pub recorded : Bytes → Option TxRef → List TxRef → Option TxRef
recorded h found [] = found
recorded h found (x ∷ xs) = recorded h (if bytes_eq x.hash h then some x else found) xs

abbrev pub with_height : NodeUtxo → ℕ → UtxoWithHeight
with_height u n = record {
  tx_hash = u.tx_hash;
  address = u.address;
  amount = u.amount;
  index = u.idx;
  height = n;
}

-- The last loop of `GetUtxoForAddress`.
unfoldable pub join_heights : List TxRef → List NodeUtxo → List UtxoWithHeight
join_heights txs [] = []
join_heights txs (u ∷ us) = elim (recorded u.tx_hash none txs) [
  | some x ↦ with_height u x.block_height ∷ join_heights txs us
  | none ↦ join_heights txs us
]

-- `ntc` opens the connection, `new_address` reads the address, `get_utxos` asks the node. The engine
-- takes as many parameters in a statement as `max_parameters` says.
module _ {Addr : Type 0} (ntc : Result QueryError (Unit {0}))
    (new_address : Bytes → Result QueryError Addr)
    (get_utxos : Addr → Result QueryError (List NodeUtxo)) (max_parameters : ℕ) where
  -- `GetUtxoForAddress`
  unfoldable pub get_utxo_for_address : Tables → Bytes → Result QueryError (List UtxoWithHeight)
  unfolding join_heights
  get_utxo_for_address t address = ntc >>= (λ _. new_address address) >>= get_utxos >>= (λ us.
      of_db (get_txs max_parameters t (distinct_hashes us)) >>= (λ txs. ok (join_heights txs us)))
