-- ===== src/Http/Blocks.antt =====
-- cmd/rpc/http.go: the handlers of blocks, transactions, utxos, heights and addresses.
use cardano_go.Common.{
  Bytes, List, Option, Result, [], bytes_eq, err, if◌then◌else◌, length, map, none, not, ok, panic,
  some, ℕ, ◌==◌, ◌>>=◌, ◌∷◌,
}
use cardano_go.Network
use cardano_go.Network.{Network}
use cardano_go.Address.Types.{AddressFormat, address_type_payment}
use cardano_go.Address.Codec.{Bech32, CodecError, Address, encode_address, bech32_string}
use cardano_go.Block.AuxValue.{Kept}
use cardano_go.Block.Memo.{tx_memo}
use cardano_go.Db.Tables.{PointRef, Tables}
use cardano_go.Db.Queries.{
  get_highest_point, get_point_by_hash, get_point_by_height, get_block_num_for_tx,
}
use cardano_go.Client.Queries
use cardano_go.Client.Queries.{
  QueryError, LedgerTx, LedgerBlock, UtxoWithHeight, of_db, get_block_by_height, get_height,
}
use cardano_go.Http.Text.{parse_uint}
use cardano_go.Http.Errors.{
  ApiError, Fields, Reply, rpc, text, of_query, error_response, err_transaction_not_found,
  err_block_processor_starting, err_network_invalid, err_invalid_public_key,
}
use cardano_go.Http.Commands.{Request, unmarshal_json}

pub record TxResponse : Type 0 where
  pub hash : Bytes
  pub inputs : List (Bytes × ℕ)
  pub outputs : List (ℕ × Bytes)
  pub memo : Bytes
  pub fee : ℕ

pub record BlockResponse : Type 0 where
  pub height : ℕ
  pub slot : ℕ
  pub hash : Bytes
  pub kind : ℕ
  pub transactions : List TxResponse

-- `txResponse`, with gjson's text of an array or an object.
unfoldable pub tx_response : (Kept → Bytes) → LedgerTx → TxResponse
unfolding tx_memo
tx_response raw_json x = record {
  hash = x.hash;
  inputs = x.inputs;
  outputs = x.outputs;
  memo = tx_memo raw_json x.metadata;
  fee = x.fee;
}

-- `blockResponse`: a block that does not know its number gets the point's.
unfoldable pub block_response : (Kept → Bytes) → LedgerBlock → PointRef → BlockResponse
unfolding tx_response
block_response raw_json b p = record {
  height = if b.number == 0 then p.height else b.number;
  slot = b.slot;
  hash = b.hash;
  kind = b.kind;
  transactions = map (tx_response raw_json) b.transactions;
}

-- What a handler of a GET request answers.
pub data Found : Type 0 where
  failure : Fields → Found
  block : BlockResponse → Found
  tx : TxResponse → Found
  point : PointRef → Found
  utxos : List UtxoWithHeight → Found
  address : Bytes → Found
  -- The panic's text, which `recover` gives to fiber's own handler.
  unhandled : Found

abbrev pub panicked : Reply Found
panicked = record { status = 500; body = unhandled }

module _ (describe : ApiError → Bytes × Bytes) where
  abbrev pub fail : ApiError → Reply Found
  fail e = record {
    status = (error_response describe e).status;
    body = failure (error_response describe e).body;
  }

  -- A result of the client's or the database's, and what is made of it.
  abbrev pub reply_with {ℓ} : {A : Type ℓ} → Result QueryError A → (A → Reply Found) → Reply Found
  reply_with (ok a) f = f a
  reply_with (err e) f = fail (of_query e)
  reply_with panic f = panicked

  -- gjson's text of an array or an object is `raw_json`.
  module _ (raw_json : Kept → Bytes) (get_block : PointRef → Result QueryError LedgerBlock)
      (t : Tables) where
    -- `getBlockByPoint`
    unfoldable pub get_block_by_point : PointRef → Reply Found
    unfolding block_response
    get_block_by_point p =
        reply_with (get_block p)
          (λ b. record { status = 200; body = block (block_response raw_json b p) })

    -- `getLatestBlock`
    unfoldable pub get_latest_block : Reply Found
    unfolding get_block_by_point
    get_latest_block = reply_with (of_db (get_highest_point t)) get_block_by_point

    -- `getBlockByHash`
    unfoldable pub get_block_by_hash : Bytes → Reply Found
    unfolding get_block_by_point
    get_block_by_hash h = reply_with (of_db (get_point_by_hash t h)) get_block_by_point

    -- `getBlockByHeight`
    unfoldable pub get_block_by_number : ℕ → Reply Found
    unfolding get_block_by_point
    get_block_by_number n = reply_with (of_db (get_point_by_height t n)) get_block_by_point

    -- `getBlock`, on the parameter of the path; `describe` has the text of the parser's error.
    unfoldable pub get_block_at : Bytes → Reply Found
    unfolding get_block_by_hash get_block_by_number
    get_block_at param =
        let by_hash : Reply Found = get_block_by_hash param in
        if length param == 64
        then by_hash
        else elim (parse_uint param) [ some n ↦ get_block_by_number n | none ↦ fail (text param) ]

    -- The loop of `getTransaction`.
    unfoldable pub first_tx : Bytes → List LedgerTx → Reply Found
    unfolding tx_response
    first_tx h [] = fail (rpc err_transaction_not_found)
    first_tx h (x ∷ xs) =
        let rest : Reply Found = first_tx h xs in
        if bytes_eq x.hash h
        then record { status = 200; body = tx (tx_response raw_json x) }
        else rest

    -- `getTransaction`
    unfoldable pub get_transaction : Bytes → Reply Found
    unfolding first_tx
    get_transaction h =
        reply_with (of_db (get_block_num_for_tx t h) >>= get_block_by_height get_block t)
          (λ b. first_tx h b.transactions)

    -- `getTransactionBlock`: the point is looked up twice.
    unfoldable pub get_transaction_block : Bytes → Reply Found
    unfolding block_response
    get_transaction_block h = reply_with (of_db (get_block_num_for_tx t h)) (λ n.
        reply_with (of_db (get_point_by_height t n)) (λ p.
          reply_with (get_block_by_height get_block t n)
            (λ b. record { status = 200; body = block (block_response raw_json b p) })))

  -- `getHeight`
  unfoldable pub get_height_reply : PointRef → Reply Found
  get_height_reply highest = elim (get_height highest) [
    | ok p ↦ record { status = 200; body = point p }
    | err Queries.point_not_found ↦ fail (rpc err_block_processor_starting)
    | err e ↦ fail (of_query e)
    | panic ↦ panicked
  ]

  -- `getUtxoForAddress`, where the address is read for the configured network and the client is
  -- asked for the utxos.
  unfoldable pub get_utxo_reply :
      Result CodecError Address → Result QueryError (List UtxoWithHeight) → Reply Found
  get_utxo_reply parsed found = elim parsed [
    | ok a ↦ reply_with found (λ us. record { status = 200; body = utxos us })
    | err e ↦ fail (text [])
    | panic ↦ panicked
  ]

  -- `postPubkeyToAddress`, on the network and the key in hexadecimal; the error of `Bech32String` is
  -- not looked at, and its text is empty then.
  unfoldable pub post_pubkey_to_address :
      Bech32 → List AddressFormat → (Bytes → Option Bytes) → Request (Network × Bytes) → Reply Found
  unfolding unmarshal_json
  post_pubkey_to_address lib order decode_hex r = elim (unmarshal_json ([], []) r) [
    | none ↦ fail (text [])
    | some (status, req) ↦
        if not (Network.valid req.0)
        then fail (rpc err_network_invalid)
        else elim (decode_hex req.1) [
          | none ↦ fail (rpc err_invalid_public_key)
          | some key ↦ elim (encode_address lib order key req.0 address_type_payment) [
            | err e ↦ fail (text [])
            | panic ↦ panicked
            | ok a ↦ elim (bech32_string lib a req.0) [
              | ok s ↦ record { status = status; body = address s }
              | err e ↦ record { status = status; body = address [] }
              | panic ↦ panicked
            ]
          ]
        ]
  ]
