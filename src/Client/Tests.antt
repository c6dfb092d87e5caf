-- ===== src/Client/Tests.antt =====
-- Runs of the client.
use cardano_go.Db.Queries.{get_block_num_for_tx, get_point_by_height}
use cardano_go.Common.{
  Bool, Bytes, List, Result, [], ap, bytes_eq, codes, err, false, if◌then◌else◌, length, none, ok,
  refl, some, sym, true, ℕ, ◌-◌, ◌<◌, ◌==◌, ◌∙◌, ◌∷◌, ◌≡◌, ◌≤◌, ◌⊎◌,
}
use cardano_go.Network.{NetworkParams, main_net_params}
use cardano_go.Db.Tables.{PointRef, Tables, no_tables}
use cardano_go.Processor.Defs.{zero_point}
use cardano_go.Client.Defs.{
  ClientOptions, NewClient, Client, pos, negsuc, zero_options, new_client, start, connect,
  dial_failed, open_failed, idle, holding,
}
use cardano_go.Client.Connect.{AllFail, connect_lem}
use cardano_go.Client.Sync.{
  goes_on, header, on_roll_forwards, on_roll_backwards, point_of_data, Reached, forward, backward,
  here, next,
}
use cardano_go.Client.SyncLaws.{Reached-IsFlushed}
use cardano_go.Client.Announced.{IsKnown, announced-IsKnown}
use cardano_go.Client.Queries.{
  LedgerTx, LedgerBlock, QueryError, NodeUtxo, get_transaction, get_utxo_for_address, with_height,
}
use cardano_go.Client.QueryLaws.{get_utxo_for_address_lem, known_utxos}

abbrev options : ClientOptions
options = record zero_options { database = some no_tables; reorg_window = negsuc 2 }

abbrev created : NewClient
created = record {
  options = record {
    ntn_host_port = codes "localhost:3000";
    ntc_host_port = codes "localhost:3001";
    network = codes "mainnet";
    database = some no_tables;
    start_point = zero_point;
    reorg_window = pos 6;
  };
  params = some main_net_params;
  db = no_tables;
}

creates : new_client (some options) ≡ ok created
unfolding new_client cardano_go.Common.bytes_eq cardano_go.Network.params
creates = refl

abbrev third : ℕ → Bool
third n = n == 3

connects : connect third third ≡ (2, ok tt)
unfolding connect
connects = refl

connect_lem_example :
    ((j : ℕ) × (1 ≤ j)
      × (j ≤ 10)
      × AllFail third 1 j
      × (third j ≡ true)
      × (connect third third ≡ (j - 1, if third j then ok tt else err open_failed)))
    ⊎ (AllFail third 1 11 × (connect third third ≡ (9, err dial_failed)))
connect_lem_example = connect_lem third third

abbrev started : Client
started = record {
  options = created.options;
  params = created.params;
  shutdown = false;
  latest_era = 0;
  processor = record { tables = no_tables; highest = zero_point; reorg_window = 6 };
  phase = idle;
  start_point = zero_point;
  points = [];
  tip_reached = false;
}

starts : start third third created ≡ ok started
unfolding start cardano_go.Db.Queries.get_highest_point
    cardano_go.Processor.Rounds.new_block_processor connect
starts = refl

abbrev one_waits : Client
one_waits = record started {
  latest_era = 6;
  points = record { slot = 8; hash = 1 ∷ []; kind = 6; height = 0 } ∷ [];
}

notes : on_roll_forwards started 6 (header 8 (1 ∷ [])) 90 ≡ one_waits
unfolding on_roll_forwards
notes = refl

not_holding : ¬ (idle ≡ holding)
not_holding e = cc

rolled_forward : Reached started (on_roll_forwards started 6 (header 8 (1 ∷ [])) 90)
unfolding goes_on
rolled_forward = next here (forward 6 (header 8 (1 ∷ [])) 90 refl)

Reached-IsFlushed_example :
    (length (on_roll_forwards started 6 (header 8 (1 ∷ [])) 90).points < 10000)
    × ((on_roll_forwards started 6 (header 8 (1 ∷ [])) 90).tip_reached ≡ true
        → (on_roll_forwards started 6 (header 8 (1 ∷ [])) 90).points ≡ [])
Reached-IsFlushed_example =
    Reached-IsFlushed third third created started
      (on_roll_forwards started 6 (header 8 (1 ∷ [])) 90) starts rolled_forward

announced-IsKnown_example :
    IsKnown
      (on_roll_backwards (on_roll_forwards started 6 (header 8 (1 ∷ [])) 90) 4).0
      (point_of_data 6 (header 8 (1 ∷ [])))
announced-IsKnown_example =
    announced-IsKnown started
      (on_roll_backwards (on_roll_forwards started 6 (header 8 (1 ∷ [])) 90) 4).0 6
      (header 8 (1 ∷ [])) 90
      (next here (backward 4 (λ e. not_holding (sym (ap (λ (c : Client). c.phase) notes) ∙ e))))

abbrev tables : Tables
tables = record no_tables {
  points = record { slot = 8; hash = 1 ∷ []; kind = 6; height = some 4 } ∷ [];
  txs = record { hash = 5 ∷ []; block_height = 4 } ∷ [];
}

abbrev tx : LedgerTx
tx = record { hash = 5 ∷ []; inputs = []; outputs = []; metadata = none; fee = 170000 }

abbrev ledger_block : LedgerBlock
ledger_block = record { number = 4; slot = 8; hash = 1 ∷ []; kind = 6; transactions = tx ∷ [] }

abbrev get_block : PointRef → Result QueryError LedgerBlock
get_block p = ok ledger_block

finds : get_transaction get_block tables (5 ∷ []) ≡ ok (tx, ledger_block)
unfolding get_transaction cardano_go.Common.bytes_eq get_block_num_for_tx get_point_by_height
finds = refl

abbrev utxo : NodeUtxo
utxo = record { tx_hash = 5 ∷ []; idx = 1; address = 7 ∷ []; amount = 20 }

abbrev unseen : NodeUtxo
unseen = record { tx_hash = 6 ∷ []; idx = 0; address = 7 ∷ []; amount = 30 }

abbrev get_utxos : Bytes → Result QueryError (List NodeUtxo)
get_utxos a = ok (utxo ∷ unseen ∷ [])

get_utxo_for_address_lem_example :
    get_utxo_for_address (ok tt) (λ (a : Bytes). ok a) get_utxos 999 tables (7 ∷ [])
    ≡ ok (known_utxos tables (utxo ∷ unseen ∷ []))
unfolding bytes_eq
get_utxo_for_address_lem_example =
    get_utxo_for_address_lem (λ (a : Bytes). ok a) get_utxos 999 tables (7 ∷ []) (7 ∷ [])
      (utxo ∷ unseen ∷ []) (refl, tt) refl refl

keeps_one : known_utxos tables (utxo ∷ unseen ∷ []) ≡ with_height utxo 4 ∷ []
unfolding get_block_num_for_tx cardano_go.Common.bytes_eq
keeps_one = refl
