-- ===== src/Http/Estimate.antt =====
-- cmd/rpc/http.go: `postTransactionEstimateFee`.
use cardano_go.Common.{
  Bytes, List, Option, [], bytes_eq, if◌then◌else◌, length, map, none, replicate, some, ℕ, ◌*◌, ◌+◌,
}
use cardano_go.Util.Chunks.{chunk_string}
use cardano_go.Http.Errors.{ApiError, Reply, text}
use cardano_go.Http.Commands.{
  Answer, Request, unmarshal_json, estimated, unhandled, answer, fail, max_aux_data_string_size,
  Runes,
}

pub record TransactionEstimateFeeIn : Type 0 where
  pub inputs : ℕ
  pub output_amounts : List ℕ
  pub memo : Runes

-- What `postTransactionEstimateFee` fills into the transaction that it measures: the rest is of
-- fixed size.
pub record Measured : Type 0 where
  pub inputs : List (Bytes × ℕ)
  pub outputs : List (Bytes × ℕ)
  pub fee : ℕ
  pub aux_data : Option (List Runes)

unfoldable pub measured : TransactionEstimateFeeIn → Measured
measured i = record {
  inputs = replicate i.inputs (replicate 32 0, 1);
  outputs = map (λ (n : ℕ). (replicate 29 0, n)) i.output_amounts;
  fee = 200000;
  aux_data =
      if bytes_eq i.memo [] then none else some (chunk_string i.memo max_aux_data_string_size);
}

-- `155381 + ((estimatedSize + 100) * 44)`
abbrev pub estimated_fee : ℕ → ℕ
estimated_fee size = 155381 + (size + 100) * 44

-- `postTransactionEstimateFee`; `marshal` is the CBOR package on the transaction.
unfoldable pub post_transaction_estimate_fee :
    (ApiError → Bytes × Bytes)
    → (Measured → Option Bytes)
    → Request TransactionEstimateFeeIn
    → Reply Answer
unfolding unmarshal_json measured
post_transaction_estimate_fee describe marshal r =
    elim (unmarshal_json (record { inputs = 0; output_amounts = []; memo = [] }) r) [
      | none ↦ answer 500 unhandled
      | some (status, i) ↦ elim (marshal (measured i)) [
        | none ↦ fail describe (text [])
        | some bytes ↦ answer status (estimated (length bytes) (estimated_fee (length bytes)))
      ]
    ]
