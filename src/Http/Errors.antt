-- ===== src/Http/Errors.antt =====
-- error.go: `RpcError`; cmd/rpc/http.go: `errorResponse`; rpcclient/rpcclient.go: what `req` makes
-- of a response.
use cardano_go.Common.{
  Bool, Bytes, List, Option, Result, [], any, bytes_eq, codes, err, if◌then◌else◌, leb, map, none,
  ok, some, ℕ, ◌&&◌, ◌+◌, ◌/◌, ◌==◌, ◌∷◌,
}
use cardano_go.Db.Tables
use cardano_go.Client.Queries
use cardano_go.Client.Queries.{QueryError, db_error, node_error}

pub record RpcError : Type 0 where
  pub msg : Bytes
  pub details : Bytes
  pub code : ℕ

abbrev pub rpc_error : Bytes → ℕ → RpcError
rpc_error m c = record { msg = m; details = []; code = c }

abbrev pub err_block_processor_starting : RpcError
err_block_processor_starting = rpc_error (codes "block processor starting") 404

abbrev pub err_point_not_found : RpcError
err_point_not_found = rpc_error (codes "point not found") 404

abbrev pub err_block_not_found : RpcError
err_block_not_found = rpc_error (codes "block not found") 404

abbrev pub err_transaction_not_found : RpcError
err_transaction_not_found = rpc_error (codes "transaction not found") 404

abbrev pub err_invalid_private_key : RpcError
err_invalid_private_key = rpc_error (codes "invalid private key") 400

abbrev pub err_invalid_public_key : RpcError
err_invalid_public_key = rpc_error (codes "invalid public key") 400

abbrev pub err_invalid_cli_response : RpcError
err_invalid_cli_response = rpc_error (codes "invalid cardano-cli response") 400

abbrev pub err_node_command_failed : RpcError
err_node_command_failed = rpc_error (codes "node command failed") 400

abbrev pub err_network_invalid : RpcError
err_network_invalid = rpc_error (codes "network invalid") 400

-- An error of a handler: an `RpcError`, wrapped or not, an error of the client's or of the
-- database that is none, or the text of an error of a package.
pub data ApiError : Type 0 where
  rpc : RpcError → ApiError
  query : QueryError → ApiError
  text : Bytes → ApiError

-- The `RpcError` that the database and the client wrap, where they do.
abbrev pub of_query : QueryError → ApiError
of_query Queries.point_not_found = rpc err_point_not_found
of_query Queries.tx_not_found = rpc err_transaction_not_found
of_query (db_error Tables.point_not_found) = rpc err_point_not_found
of_query (db_error Tables.block_not_found) = rpc err_block_not_found
of_query (db_error Tables.tx_not_found) = rpc err_transaction_not_found
of_query (db_error Tables.no_rows) = query (db_error Tables.no_rows)
of_query (db_error Tables.bad_scan) = query (db_error Tables.bad_scan)
of_query (db_error Tables.constraint) = query (db_error Tables.constraint)
of_query (db_error Tables.busy) = query (db_error Tables.busy)
of_query (db_error Tables.too_many_parameters) = query (db_error Tables.too_many_parameters)
of_query (db_error Tables.no_points) = query (db_error Tables.no_points)
of_query (node_error e) = query (node_error e)

-- A JSON object of strings.
abbrev pub Fields : Type 0
Fields = List (Bytes × Bytes)

-- A response, by its status and its body.
pub record Reply {ℓ} (A : Type ℓ) : Type ℓ where
  pub status : ℕ
  pub body : A

-- What `err.Error()` and `%+v` make of an error that is no `RpcError`.
module _ (describe : ApiError → Bytes × Bytes) where
  -- `errorResponse`
  unfoldable pub error_response : ApiError → Reply Fields
  error_response (rpc e) = record { status = e.code; body = (codes "error", e.msg) ∷ [] }
  error_response (query e) = record {
    status = 500;
    body = (codes "error", (describe (query e)).0) ∷ (codes "details", (describe (query e)).1) ∷ [];
  }
  error_response (text m) = record {
    status = 500;
    body = (codes "error", (describe (text m)).0) ∷ (codes "details", (describe (text m)).1) ∷ [];
  }

-- A letter without its case.
abbrev pub fold_case : ℕ → ℕ
fold_case c = if leb 65 c && leb c 90 then c + 32 else c

-- The last field of a name: `json.Unmarshal` does not heed the case of a name.
abbrev pub field : Bytes → Bytes → Fields → Bytes
field name found [] = found
field name found (f ∷ fs) = field name (if bytes_eq (map fold_case f.0) name then f.1 else found) fs

abbrev pub err_rpc_failed : RpcError
err_rpc_failed = rpc_error (codes "rpc failed") 0

-- `json.Unmarshal` of an object of strings into `RpcError`; a string is no number, so that a field
-- named `Code` makes it fail.
abbrev pub unmarshal_rpc_error : Fields → Option RpcError
unmarshal_rpc_error fs =
    if any (λ (f : Bytes × Bytes). bytes_eq (map fold_case f.0) (codes "code")) fs
    then none
    else some (record {
      msg = field (codes "msg") [] fs;
      details = field (codes "details") [] fs;
      code = 0;
    })

-- The error of `req`, without what `Wrapf` puts in front of it.
abbrev pub error_of_body : Fields → RpcError
error_of_body fs = elim (unmarshal_rpc_error fs) [ some e ↦ e | none ↦ err_rpc_failed ]

-- `rsp.Status[0]`, the first digit of a status of three.
abbrev pub is_success : ℕ → Bool
is_success status = status / 100 == 2

-- The end of `req`, on a reply whose body is an object of strings.
unfoldable pub req_result : Reply Fields → Result RpcError Fields
req_result r = if is_success r.status then ok r.body else err (error_of_body r.body)
