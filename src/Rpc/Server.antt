-- ===== src/Rpc/Server.antt =====
-- cmd/rpc/http.go and rpcclient/rpcclient.go: a call of the client, through the routes and the
-- handlers of the server, to the client's result.
use cardano_go.Common.{Bytes, List, Result, err, if◌then◌else◌, none, ok, some, true}
use cardano_go.Network.{Network, NetworkParams}
use cardano_go.Address.Types.{AddressFormat}
use cardano_go.Address.Codec.{Bech32, decode_address}
use cardano_go.Block.AuxValue.{Kept}
use cardano_go.Db.Tables.{PointRef, Tables}
use cardano_go.Client.Queries.{QueryError, LedgerBlock, UtxoWithHeight}
use cardano_go.Http.Errors.{ApiError, RpcError, Reply, is_success, unmarshal_rpc_error, Fields}
use cardano_go.Http.Blocks
use cardano_go.Http.Blocks.{Found, get_utxo_reply, get_block_at, get_height_reply}
use cardano_go.Http.Commands
use cardano_go.Http.Commands.{Answer, Command, Output, Request, TransactionBuildIn}
use cardano_go.Rpc.Routes
use cardano_go.Rpc.Routes.{Method, Handler, dispatch}
use cardano_go.Rpc.Client.{Call, Payload, request, tx_in, build_in, payload}

-- The body of a response: of a handler that finds something, of one that runs cardano-cli, or text.
pub data Body : Type 0 where
  found : Found → Body
  posted : Answer → Body
  plain_text : Body

-- What a server stands on: the tables, the node, cardano-cli and the third-party packages.
pub record Server : Type 0 where
  pub describe : ApiError → Bytes × Bytes
  pub raw_json : Kept → Bytes
  pub tables : Tables
  pub highest : PointRef
  pub get_block : PointRef → Result QueryError LedgerBlock
  pub get_utxos : Bytes → Result QueryError (List UtxoWithHeight)
  pub lib : Bech32
  pub order : List AddressFormat
  pub network : Network
  pub cli : NetworkParams → Command → Output
  pub raw_of : Bytes → Bytes
  pub cbor_hex : Bytes → Bytes
  -- The answers of the handlers that are left out here.
  pub others : Handler → Reply Body

abbrev pub of_found : Reply Found → Reply Body
of_found r = record { status = r.status; body = found r.body }

abbrev pub of_answer : Reply Answer → Reply Body
of_answer r = record { status = r.status; body = posted r.body }

-- The client sends JSON; `none` is a body that the parser refuses.
abbrev pub tx_request : Payload → Request Bytes
tx_request (tx_in t) = record { is_json = true; body = some t }
tx_request _ = record { is_json = true; body = none }

abbrev pub build_request : Payload → Request TransactionBuildIn
build_request (build_in i) = record { is_json = true; body = some i }
build_request _ = record { is_json = true; body = none }

-- A handler's answer.
unfoldable pub serve : Server → Handler → Payload → Reply Body
serve s (Routes.get_utxo_for_address a) p =
    of_found (get_utxo_reply s.describe (decode_address s.lib s.order a s.network) (s.get_utxos a))
serve s Routes.get_latest_block p =
    of_found (Blocks.get_latest_block s.describe s.raw_json s.get_block s.tables)
serve s (Routes.get_block a) p =
    of_found (get_block_at s.describe s.raw_json s.get_block s.tables a)
serve s (Routes.get_transaction h) p =
    of_found (Blocks.get_transaction s.describe s.raw_json s.get_block s.tables h)
serve s (Routes.get_transaction_block h) p =
    of_found (Blocks.get_transaction_block s.describe s.raw_json s.get_block s.tables h)
serve s Routes.get_height p = of_found (get_height_reply s.describe s.highest)
serve s Routes.post_transaction_build p =
    of_answer
      (Commands.post_transaction_build s.network s.cli s.describe s.raw_of s.cbor_hex
        (build_request p)).0
serve s Routes.post_transaction_broadcast p =
    of_answer (Commands.post_transaction_broadcast s.network s.cli (tx_request p)).0
serve s h p = s.others h

-- The error of a call: what the body of the response decodes to, or `ErrRpcFailed`.
pub data ClientError : Type 0 where
  rpc_error : RpcError → ClientError
  rpc_failed : ClientError

abbrev of_fields : Fields → ClientError
of_fields fs = elim (unmarshal_rpc_error fs) [ some e ↦ rpc_error e | none ↦ rpc_failed ]

abbrev pub error_of : Body → ClientError
error_of (found (Blocks.failure fs)) = of_fields fs
error_of (posted (Commands.failure fs)) = of_fields fs
error_of _ = rpc_failed

-- `req`, on a response.
unfoldable pub req : Reply Body → Result ClientError Body
req r = if is_success r.status then ok r.body else err (error_of r.body)

-- fiber's answer where no route fits.
abbrev pub no_route : Reply Body
no_route = record { status = 404; body = plain_text }

-- `get` and `post`, to the body that is decoded into the result of the call.
unfoldable pub perform : Server → Call → Result ClientError Body
unfolding serve req dispatch request
perform s c = elim (dispatch (request c).0 (request c).1) [
  | none ↦ req no_route
  | some h ↦ req (serve s h (payload c))
]
