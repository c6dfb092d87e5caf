-- ===== src/Http/BlockLaws.antt =====
-- cmd/rpc/http.go and rpcclient/rpcclient.go: what the server's answers tell its client.
use cardano_go.Common.{
  Bytes, Result, [], arith, bytes_eq, err, false, length, refl, suc, zero, ℕ, ◌%◌, ◌+◌, ◌/◌, ◌<◌,
  ◌==◌, ◌^◌, ◌∷◌, ◌≡◌, ◌≤◌,
}
use cardano_go.Block.AuxValue.{Kept}
use cardano_go.Db.Tables.{PointRef, Tables}
use cardano_go.Client.Queries.{QueryError, LedgerBlock}
use cardano_go.Http.Text.{show, show_from}
use cardano_go.Http.Errors
use cardano_go.Http.Errors.{is_success, ApiError, RpcError, of_query, error_response, req_result}
use cardano_go.Http.Fees.{parse_uint-show}
use cardano_go.Http.Blocks.{get_block_at, get_block_by_number}

length-show_from : (f n : ℕ) (s : Bytes) → length (show_from f n s) ≤ f + length s
unfolding show_from
length-show_from zero n s = omega arith
length-show_from (suc f) n s = ground (arith, length-show_from f (n / 10) ((n % 10 + 48) ∷ s))

-- The path that `GetBlockByHeight` of the RPC client asks for is answered by height, for every
-- height: no decimal number is as long as a hash, and the server reads back what `%d` printed.
pub get_block_at-show :
    (describe : ApiError → Bytes × Bytes) (raw_json : Kept → Bytes)
    (get_block : PointRef → Result QueryError LedgerBlock) (t : Tables) (n : ℕ)
    → n < 2 ^ 64
    → get_block_at describe raw_json get_block t (show n)
      ≡ get_block_by_number describe raw_json get_block t n
unfolding get_block_at
get_block_at-show describe raw_json get_block t n b =
    let short : (length (show n) == 64) ≡ false = ground (arith, length-show_from 20 n []) in
    rw (get_block_at, short, parse_uint-show n b) refl

-- What the caller of the RPC client is told of an error.
abbrev pub details_of : (ApiError → Bytes × Bytes) → ApiError → Bytes
details_of describe (Errors.rpc e) = []
details_of describe (Errors.query q) = (describe (Errors.query q)).1
details_of describe (Errors.text m) = (describe (Errors.text m)).1

-- An error that the server answers with under a status that is no success reaches the caller of
-- the RPC client without its message and its code, since the field of the answer is named `error`
-- and `RpcError` has `Msg`. Of an `RpcError` nothing is left; of any other error what `%+v` makes of
-- it arrives as the details.
pub req_result-error_response :
    (describe : ApiError → Bytes × Bytes) (e : ApiError)
    → is_success (error_response describe e).status ≡ false
    → req_result (error_response describe e)
      ≡ err (record { msg = []; details = details_of describe e; code = 0 })
unfolding req_result error_response bytes_eq
req_result-error_response describe (Errors.rpc e) s = rw (req_result, s) refl
req_result-error_response describe (Errors.query q) s = refl
req_result-error_response describe (Errors.text m) s = refl
