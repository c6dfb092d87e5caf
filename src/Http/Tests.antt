-- ===== src/Http/Tests.antt =====
-- Runs of the HTTP handlers.
use cardano_go.Common.{
  Bytes, Result, [], arith, bytes_eq, codes, err, false, if◌then◌else◌, none, ok, refl, some, ◌++◌,
  ◌∷◌, ◌≡◌,
}
use cardano_go.Network.{NetworkParams}
use cardano_go.Db.Tables
use cardano_go.Db.Tables.{PointRef, Tables, no_tables}
use cardano_go.Client.Queries.{QueryError, LedgerBlock, db_error}
use cardano_go.Block.AuxValue.{Kept}
use cardano_go.Http.Text.{show, parse_uint, trim_space}
use cardano_go.Http.Errors.{ApiError, of_query, error_response, req_result}
use cardano_go.Http.Fees.{read_fee-line}
use cardano_go.Http.BlockLaws.{req_result-error_response}
use cardano_go.Http.Commands.{Command, Output, sent, read_fee, broadcast, txid_command}

abbrev describe : ApiError → Bytes × Bytes
describe e = (codes "failed", codes "at")

abbrev raw_json : Kept → Bytes
raw_json v = []

read_fee-line_example :
    read_fee (codes "Estimated transaction fee: " ++ show 170429 ++ codes " Lovelace") ≡ some 170429
read_fee-line_example = read_fee-line 170429 (omega arith)

reads_fee : read_fee (codes "Estimated transaction fee: 170429 Lovelace") ≡ some 170429
unfolding read_fee cardano_go.Http.Text.find_fee parse_uint
reads_fee = refl

no_fee : read_fee (codes "Fee: 170429") ≡ none
unfolding read_fee cardano_go.Http.Text.find_fee
no_fee = refl

too_large : parse_uint (codes "18446744073709551616") ≡ none
unfolding parse_uint
too_large = refl

abbrev ledger_block : LedgerBlock
ledger_block = record { number = 0; slot = 8; hash = 1 ∷ []; kind = 1; transactions = [] }

abbrev get_block : PointRef → Result QueryError LedgerBlock
get_block p = ok ledger_block

abbrev tables : Tables
tables = record no_tables {
  points = record { slot = 8; hash = 1 ∷ []; kind = 1; height = some 42 } ∷ [];
}

req_result-error_response_example :
    req_result (error_response describe (of_query (db_error Tables.bad_scan)))
    ≡ err (record {
      msg = [];
      details = (describe (of_query (db_error Tables.bad_scan))).1;
      code = 0;
    })
unfolding error_response
req_result-error_response_example =
    req_result-error_response describe (of_query (db_error Tables.bad_scan)) refl

-- A node that takes every transaction.
abbrev cli : NetworkParams → Command → Output
cli p c =
    if bytes_eq c.0 txid_command
    then (codes "ab\n", false)
    else (codes "Transaction successfully submitted.\n", false)

sends : (broadcast (codes "mainnet") cli (codes "84")).0.body ≡ sent (codes "ab")
unfolding broadcast cardano_go.Network.params bytes_eq
sends = refl
