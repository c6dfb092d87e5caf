-- ===== src/Rpc/Client.antt =====
-- rpcclient/rpcclient.go: the calls of `HttpRpcClient`, by the requests that they make.
use cardano_go.Common.{Bytes, Result, codes, ok, ℕ, ◌++◌, ◌>>=◌}
use cardano_go.Network.{Network}
use cardano_go.Address.Codec.{Address, Bech32, CodecError, bech32_string}
use cardano_go.Http.Text.{show}
use cardano_go.Http.Commands.{TransactionBuildIn}
use cardano_go.Rpc.Routes.{Method, get, post}

-- A method of `RpcClient` with its argument; an address is that of `GetUtxosForAddressIn` in text.
pub data Call : Type 0 where
  height : Call
  transaction : (hash : Bytes) → Call
  broadcast_tx : (tx : Bytes) → Call
  utxos_for_address : (text : Bytes) → Call
  status : Call
  build_tx : TransactionBuildIn → Call
  block_by_hash : (hash : Bytes) → Call
  block_by_height : (number : ℕ) → Call

-- The body of a request, as the server's handler parses it.
pub data Payload : Type 0 where
  no_payload : Payload
  tx_in : (tx : Bytes) → Payload
  build_in : TransactionBuildIn → Payload

abbrev pub payload : Call → Payload
payload (broadcast_tx t) = tx_in t
payload (build_tx i) = build_in i
payload _ = no_payload

-- The paths of the methods.
abbrev pub height_path : Bytes
height_path = codes "/height"

abbrev pub transaction_path : Bytes → Bytes
transaction_path hash = codes "/tx/" ++ hash

abbrev pub broadcast_path : Bytes
broadcast_path = codes "/tx/broadcast"

abbrev pub utxos_path : Bytes → Bytes
utxos_path addr = codes "/utxo/" ++ addr

abbrev pub status_path : Bytes
status_path = codes "/status"

abbrev pub build_path : Bytes
build_path = codes "/tx/build"

abbrev pub block_by_hash_path : Bytes → Bytes
block_by_hash_path hash = codes "/block/" ++ hash

abbrev pub block_by_height_path : ℕ → Bytes
block_by_height_path number = codes "/block/" ++ show number

-- The method and the path that a call gives `req`.
unfoldable pub request : Call → Method × Bytes
request height = (get, height_path)
request (transaction h) = (get, transaction_path h)
request (broadcast_tx t) = (post, broadcast_path)
request (utxos_for_address a) = (get, utxos_path a)
request status = (get, status_path)
request (build_tx i) = (post, build_path)
request (block_by_hash h) = (get, block_by_hash_path h)
request (block_by_height n) = (get, block_by_height_path n)

-- `GetUtxosForAddress`, up to its request: the address in the text of the client's network.
unfoldable pub get_utxos_for_address : Bech32 → Network → Address → Result CodecError Call
get_utxos_for_address lib network a = bech32_string lib a network >>= λ s. ok (utxos_for_address s)
