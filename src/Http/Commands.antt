-- ===== src/Http/Commands.antt =====
-- cmd/rpc/http.go: the handlers that run cardano-cli.
use cardano_go.Common.{
  Bool, Bytes, List, Option, [], bytes_eq, codes, err, if◌then◌else◌, length, ltb, map, none, not,
  ok, panic, some, true, ℕ, ◌++◌, ◌||◌, ◌∷◌,
}
use cardano_go.Network
use cardano_go.Network.{Network, NetworkParams}
use cardano_go.Util.Chunks.{chunk_string}
use cardano_go.Http.Text.{
  trim_space, split_lines, join_with, newline, init, last_line, parse_uint, show, find_fee,
}
use cardano_go.Http.Errors.{
  ApiError, Fields, Reply, rpc, error_response, err_node_command_failed, err_invalid_cli_response,
}

-- A string by its runes, which `ChunkString` counts.
abbrev pub Runes : Type 0
Runes = List ℕ

-- What a virtual file holds: the JSON of a transaction or of a key, by its type and its CBOR in
-- hexadecimal, that of a memo, or text.
pub data Content : Type 0 where
  tx_json key_json : (kind : Bytes) (cbor_hex : Bytes) → Content
  metadata : List Runes → Content
  raw : Bytes → Content

-- `VirtualFile`
pub record VirtualFile : Type 0 where
  pub name : Bytes
  pub content : Content

-- A command that was run, with its files.
abbrev pub Command : Type 0
Command = Bytes × List VirtualFile

-- The output of cardano-cli, and whether it fails.
abbrev pub Output : Type 0
Output = Bytes × Bool

-- A request: whether its content type is JSON, and what its body is, where it can be parsed.
pub record Request {ℓ} (A : Type ℓ) : Type ℓ where
  pub is_json : Bool
  pub body : Option A

-- `unmarshalJson`, with the status of the response after it. `SendStatus` gives no error: on
-- another content type the handler goes on, with the zero value. `none` is the body's error.
unfoldable pub unmarshal_json {ℓ} : {A : Type ℓ} → A → Request A → Option (ℕ × A)
unmarshal_json zero_value r =
    if not r.is_json
    then some (400, zero_value)
    else elim r.body [ some a ↦ some (200, a) | none ↦ none ]

pub record TransactionBuildIn : Type 0 where
  pub inputs : List (Bytes × ℕ)
  pub outputs : List (Bytes × ℕ)
  pub change_address : Bytes
  pub memo : Runes

abbrev pub zero_build : TransactionBuildIn
zero_build = record { inputs = []; outputs = []; change_address = []; memo = [] }

-- The tables of rpcclient's bodies.
pub data Answer : Type 0 where
  failure : Fields → Answer
  -- The error that fiber's own handler puts into words.
  unhandled : Answer
  built : (fee : ℕ) (raw_hex : Bytes) (hash : Bytes) → Answer
  signed : (tx : Bytes) → Answer
  sent : (hash : Bytes) → Answer
  estimated : (size fee : ℕ) → Answer

abbrev pub answer : ℕ → Answer → Reply Answer
answer status a = record { status = status; body = a }

abbrev pub failed_command : Bytes → Reply Answer
failed_command out =
    answer 500
      (failure ((codes "details", out) ∷ (codes "error", err_node_command_failed.msg) ∷ []))

-- `errorResponse`
abbrev pub fail : (ApiError → Bytes × Bytes) → ApiError → Reply Answer
fail describe e =
    answer (error_response describe e).status (failure (error_response describe e).body)

abbrev pub tx_in : Bytes × ℕ → Bytes
tx_in i = codes "--tx-in " ++ i.0 ++ codes "#" ++ show i.1

abbrev pub tx_out : Bytes × ℕ → Bytes
tx_out o = codes "--tx-out " ++ o.0 ++ codes "+" ++ show o.1

abbrev pub max_aux_data_string_size : ℕ
max_aux_data_string_size = 64

-- `args` of `postTransactionBuild`, and its files.
unfoldable pub build_args : TransactionBuildIn → List Bytes
build_args i =
    (codes "conway transaction build"
      ∷ codes "--cardano-mode"
      ∷ (codes "--change-address " ++ i.change_address)
      ∷ codes "--out-file /dev/stdout"
      ∷ [])
    ++ map tx_in i.inputs
    ++ map tx_out i.outputs
    ++ (if bytes_eq i.memo [] then [] else codes "--metadata-json-file file://metadata" ∷ [])

unfoldable pub build_files : TransactionBuildIn → List VirtualFile
build_files i =
    if bytes_eq i.memo []
    then []
    else record {
      name = codes "metadata";
      content = metadata (chunk_string i.memo max_aux_data_string_size);
    }
      ∷ []

abbrev pub tx_file : Content → List VirtualFile
tx_file c = record { name = codes "tx"; content = c } ∷ []

abbrev pub txid_command : Bytes
txid_command = codes "conway transaction txid --tx-file file://tx"

-- The fee in the last line of the output of the build.
unfoldable pub read_fee : Bytes → Option ℕ
read_fee line = elim (find_fee line) [ some ds ↦ parse_uint ds | none ↦ none ]

abbrev pub submit_command : Bytes
submit_command = codes "conway transaction submit --cardano-mode --tx-file file://tx"

abbrev pub submitted : Bytes
submitted = codes "Transaction successfully submitted."

abbrev pub broadcast_files : Bytes → List VirtualFile
broadcast_files tx = tx_file (tx_json (codes "Witnessed Tx ConwayEra") tx)

-- `postTransactionBroadcast`, on what the two commands bring; the second one is run only where the
-- first one succeeds.
unfoldable pub finish_broadcast :
    Output × List Command → Output × List Command → Reply Answer × List Command
finish_broadcast res hashed =
    if res.0.1 || not (bytes_eq (trim_space res.0.0) submitted)
    then (failed_command res.0.0, res.1)
    else if hashed.0.1
    then (failed_command hashed.0.0, res.1 ++ hashed.1)
    else (answer 200 (sent (trim_space hashed.0.0)), res.1 ++ hashed.1)

module _ (network : Network) (cli : NetworkParams → Command → Output) where
  -- `runCardanoBinaryWithFiles`, with the commands that were run. `Params` gives no nil pointer.
  unfoldable pub run_cardano_binary : Command → Output × List Command
  run_cardano_binary c = elim (Network.params network) [
    | ok (some p) ↦ (cli p c, c ∷ [])
    | ok none ↦ (([], true), [])
    | err e ↦ (([], true), [])
    | panic ↦ (([], true), [])
  ]

  -- `postTransactionBroadcast`, on the hexadecimal text of the transaction.
  unfoldable pub broadcast : Bytes → Reply Answer × List Command
  unfolding run_cardano_binary finish_broadcast
  broadcast tx =
      finish_broadcast (run_cardano_binary (submit_command, broadcast_files tx))
        (run_cardano_binary (txid_command, broadcast_files tx))

  -- `postTransactionBroadcast`; it sets its status anew.
  unfoldable pub post_transaction_broadcast : Request Bytes → Reply Answer × List Command
  unfolding unmarshal_json broadcast
  post_transaction_broadcast r = elim (unmarshal_json [] r) [
    | none ↦ (answer 500 unhandled, [])
    | some (status, tx) ↦ broadcast tx
  ]

  -- gjson: the raw object of a text, and its field `cborHex`.
  module _ (describe : ApiError → Bytes × Bytes) (raw_of cbor_hex : Bytes → Bytes) where
    -- `postTransactionBuild`, from the output of the build on.
    unfoldable pub finish_build : ℕ → Bytes → Reply Answer × List Command
    unfolding run_cardano_binary read_fee
    finish_build status out =
        let lines : List Bytes = split_lines (trim_space out) in
        let json : Bytes = join_with (newline ∷ []) (init lines) in
        let hashed : Output × List Command =
          run_cardano_binary (txid_command, tx_file (raw (raw_of json))) in
        if ltb (length lines) 2
        then (fail describe (rpc err_invalid_cli_response), [])
        else if hashed.0.1
        then (failed_command hashed.0.0, hashed.1)
        else elim (read_fee (last_line lines)) [
          | none ↦ (fail describe (rpc err_invalid_cli_response), hashed.1)
          | some fee ↦ (answer status (built fee (cbor_hex json) (trim_space hashed.0.0)), hashed.1)
        ]

    -- `postTransactionBuild`
    unfoldable pub post_transaction_build : Request TransactionBuildIn → Reply Answer × List Command
    unfolding unmarshal_json build_args build_files finish_build
    post_transaction_build r = elim (unmarshal_json zero_build r) [
      | none ↦ (answer 500 unhandled, [])
      | some (status, i) ↦
          let res : Output × List Command =
            run_cardano_binary (join_with (codes " ") (build_args i), build_files i) in
          let rest : Reply Answer × List Command = finish_build status res.0.0 in
          if res.0.1 then (failed_command res.0.0, res.1) else (rest.0, res.1 ++ rest.1)
    ]
