-- ===== src/Http/Status.antt =====
-- cmd/rpc/http.go: `getStatus`.
use cardano_go.Common.{Option, Result, codes, err, none, ok, panic, some, ℕ, ◌%◌, ◌*◌, ◌^◌}
use cardano_go.Db.Tables.{PointRef}
use cardano_go.Processor.Defs.{zero_point}
use cardano_go.Client.Defs.{ℤ}
use cardano_go.Client.Queries.{QueryError, point_not_found, get_height}
use cardano_go.Http.Errors.{ApiError, RpcError, rpc, of_query, rpc_error}

-- What is asked of the node's protocol parameters.
pub record ProtocolParams : Type 0 where
  pub coins_per_utxo_byte : ℕ
  pub max_tx_size : ℕ
  pub min_fee_coefficient : ℕ
  pub min_fee_constant : ℕ

pub record ProtocolOut : Type 0 where
  pub coins_per_utxo_byte : ℕ
  pub max_tx_size : ℕ
  pub min_fee_coefficient : ℕ
  pub min_fee_constant : ℕ
  pub min_utxo_threshold : ℕ

-- What `GetProtocolParams` fails with: the node is in era 0, the connection ends, or else.
pub data ProtocolError : Type 0 where
  era_zero end_of_file : ProtocolError
  other : QueryError → ProtocolError

pub record GetStatusOut : Type 0 where
  pub tip : PointRef
  pub protocol : Option ProtocolOut
  pub reorg_window : ℤ

abbrev pub err_node_unavailable : RpcError
err_node_unavailable = rpc_error (codes "node unavailable") 500

abbrev pub min_utxo_bytes : ℕ
min_utxo_bytes = 197

-- The product is one of uint64.
abbrev pub protocol_out : ProtocolParams → ProtocolOut
protocol_out p = record {
  coins_per_utxo_byte = p.coins_per_utxo_byte;
  max_tx_size = p.max_tx_size;
  min_fee_coefficient = p.min_fee_coefficient;
  min_fee_constant = p.min_fee_constant;
  min_utxo_threshold = min_utxo_bytes * p.coins_per_utxo_byte % 2 ^ 64;
}

-- The rest of `getStatus`, with the tip that it has and the window of the client's options.
abbrev pub with_protocol :
    ℤ → PointRef → Result ProtocolError ProtocolParams → Result ApiError GetStatusOut
with_protocol w tip (ok p) =
    ok (record { tip = tip; protocol = some (protocol_out p); reorg_window = w })
with_protocol w tip (err era_zero) = ok (record { tip = tip; protocol = none; reorg_window = w })
with_protocol w tip (err end_of_file) = err (rpc err_node_unavailable)
with_protocol w tip (err (other e)) = err (of_query e)
with_protocol w tip panic = panic

-- The answer, or the error that `errorResponse` is called with.
unfoldable pub get_status :
    ℤ → PointRef → Result ProtocolError ProtocolParams → Result ApiError GetStatusOut
get_status w highest params = elim (get_height highest) [
  | panic ↦ panic
  | err point_not_found ↦ with_protocol w zero_point params
  | err e ↦ err (of_query e)
  | ok p ↦ with_protocol w p params
]
