-- ===== src/Rpc/Tests.antt =====
-- Runs of calls against a server.
use cardano_go.Http.Errors.{error_of_body}
use cardano_go.Http.Text.{trim_space}
use cardano_go.Db.Queries.{get_point_by_height, get_block_num_for_tx}
use cardano_go.Http.Blocks.{block_response, tx_response}
use cardano_go.Address.Types.{address_type_map}
use mathlib.Core.List.{Memᴰ}
use cardano_go.Common.{
  Bytes, [], arith, bytes_eq, codes, err, false, if◌then◌else◌, none, ok, refl, some, ℕ, ◌↔◌, ◌∷◌,
  ◌≡◌,
}
use cardano_go.Network.{NetworkParams, network_main_net}
use cardano_go.Address.Toy.{toy}
use cardano_go.Db.Tables.{PointRef, Tables, no_tables}
use cardano_go.Client.Queries.{LedgerBlock, LedgerTx}
use cardano_go.Http.Blocks
use cardano_go.Http.Commands.{
  Command, Output, sent, submit_command, submitted, broadcast_files, txid_command,
}
use cardano_go.Rpc.Routes
use cardano_go.Rpc.Routes.{Method, get, post, Handler, get_block, dispatch}
use cardano_go.Rpc.Client.{request, block_by_hash, broadcast_tx, block_by_height, transaction}
use cardano_go.Rpc.Server.{Server, Body, perform, plain_text, found, posted, rpc_error}
use cardano_go.Rpc.RouteLaws.{dispatch-request}
use cardano_go.Rpc.Answers.{block_by_height-ok, transaction-ok}
use cardano_go.Rpc.Broadcast.{broadcast_tx-ok}

dispatch-request_example : dispatch get (codes "/block/ab") ≡ some (get_block (codes "ab"))
unfolding request bytes_eq
dispatch-request_example = dispatch-request (block_by_hash (codes "ab")) (refl, (refl, tt))

latest_in_any_case : dispatch get (codes "/block/Latest") ≡ some Routes.get_latest_block
unfolding dispatch
latest_in_any_case = refl

no_handler : dispatch post (codes "/tx/ab") ≡ none
unfolding dispatch
no_handler = refl

abbrev ledger_tx : LedgerTx
ledger_tx = record { hash = codes "ab"; inputs = []; outputs = []; metadata = none; fee = 170000 }

abbrev ledger_block : LedgerBlock
ledger_block = record {
  number = 42;
  slot = 8;
  hash = 1 ∷ [];
  kind = 1;
  transactions = ledger_tx ∷ [];
}

abbrev tables : Tables
tables = record no_tables {
  points = record { slot = 8; hash = 1 ∷ []; kind = 1; height = some 42 } ∷ [];
  txs = record { hash = codes "ab"; block_height = 42 } ∷ [];
}

-- A node that takes every transaction.
abbrev cli : NetworkParams → Command → Output
cli p c = if bytes_eq c.0 submit_command then (submitted, false) else (codes "cd", false)

abbrev server : Server
server = record {
  describe = λ e. ([], []);
  raw_json = λ v. [];
  tables = tables;
  highest = record { slot = 8; hash = 1 ∷ []; kind = 1; height = 42 };
  get_block = λ p. ok ledger_block;
  get_utxos = λ a. ok [];
  lib = toy;
  order = address_type_map;
  network = network_main_net;
  cli = cli;
  raw_of = λ s. s;
  cbor_hex = λ s. s;
  others = λ h. record { status = 501; body = plain_text };
}

abbrev answer_42 : Body
answer_42 = found (Blocks.block (block_response server.raw_json ledger_block server.highest))

block_by_height-ok_example : (perform server (block_by_height 42) ≡ ok answer_42) ↔ (
    (p : PointRef) × (lb : LedgerBlock) × (get_point_by_height tables 42 ≡ ok p)
    × (server.get_block p ≡ ok lb)
    × (answer_42 ≡ found (Blocks.block (block_response server.raw_json lb p))))
block_by_height-ok_example = block_by_height-ok server 42 answer_42 (omega arith)

answers_42 : perform server (block_by_height 42) ≡ ok answer_42
unfolding perform cardano_go.Http.Text.show_from Blocks.get_block_at cardano_go.Http.Text.parse_uint
    get_point_by_height
answers_42 = refl

answers_41 : perform server (block_by_height 41) ≡ err (rpc_error (error_of_body []))
unfolding perform cardano_go.Http.Text.show_from Blocks.get_block_at cardano_go.Http.Text.parse_uint
    get_point_by_height cardano_go.Http.Errors.error_response
answers_41 = refl

abbrev answer_ab : Body
answer_ab = found (Blocks.tx (tx_response server.raw_json ledger_tx))

answers_ab : perform server (transaction (codes "ab")) ≡ ok answer_ab
unfolding perform Blocks.get_transaction get_block_num_for_tx
    cardano_go.Client.Queries.get_block_by_height get_point_by_height
answers_ab = refl

transaction-ok_example :
    (x : LedgerTx) × (lb : LedgerBlock) × (n : ℕ) × (p : PointRef) × (answer_ab
      ≡ found (Blocks.tx (tx_response server.raw_json x)))
    × (x.hash ≡ codes "ab")
    × Memᴰ x lb.transactions
    × (get_block_num_for_tx tables (codes "ab") ≡ ok n)
    × (get_point_by_height tables n ≡ ok p)
    × (server.get_block p ≡ ok lb)
transaction-ok_example = transaction-ok server (codes "ab") answer_ab (refl, (refl, tt)) answers_ab

answers_tx : perform server (broadcast_tx (codes "ff")) ≡ ok (posted (sent (codes "cd")))
unfolding perform cardano_go.Http.Commands.post_transaction_broadcast cardano_go.Network.params
answers_tx = refl

broadcast_tx-ok_example :
    (h : Bytes) × (p : NetworkParams) × (posted (sent (codes "cd")) ≡ posted (sent h))
    × ((cli p (submit_command, broadcast_files (codes "ff"))).1 ≡ false)
    × (trim_space (cli p (submit_command, broadcast_files (codes "ff"))).0 ≡ submitted)
    × (h ≡ trim_space (cli p (txid_command, broadcast_files (codes "ff"))).0)
broadcast_tx-ok_example =
    broadcast_tx-ok server (codes "ff") (posted (sent (codes "cd"))) answers_tx
