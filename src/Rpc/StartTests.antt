-- ===== src/Rpc/StartTests.antt =====
-- Runs of `main`.
use cardano_go.Common.{
  Bool, Bytes, Option, [], bytes_eq, codes, false, if◌then◌else◌, none, panic, refl, some, ℕ, ◌≡◌,
  ◌⊎◌,
}
use cardano_go.Network.{NetworkParams, network_main_net, valid, params, validate}
use cardano_go.Db.Tables.{Tables, no_tables}
use cardano_go.Client.Defs.{NewClient, or_default, set_defaults, create, new_client}
use cardano_go.Rpc.Start.{Flags, Config, load, log_level_name, main, main_lem, start_client}

abbrev parse_level : Bytes → Option Bytes
parse_level s = if bytes_eq s (codes "info") then some s else none

abbrev open_database : Bytes → Option Tables
open_database path = some no_tables

abbrev never : ℕ → Bool
never n = false

abbrev no_flags : Flags
no_flags = record {
  database_path = none;
  ntn_host_port = none;
  ntc_host_port = none;
  network = none;
  rpc_host_port = none;
  socket_path = none;
  log_level = none;
  reorg_window = none;
}

-- A network that there is not.
abbrev test_net : Flags
test_net = record no_flags { network = some (codes "testnet") }

panics : main parse_level open_database never never [] test_net ≡ panic
unfolding main new_client set_defaults create params validate valid bytes_eq
panics = refl

abbrev test_net_config : Config
test_net_config = record (load test_net) { log_level = log_level_name [] (load test_net) }

main_lem_example :
    ((n : NewClient) × ((p : NetworkParams) × (n.params ≡ some p)
        × (p.name ≡ or_default (codes "testnet") network_main_net))
      × (main parse_level open_database never never [] test_net
          ≡ start_client parse_level open_database never never test_net_config no_tables (some n)))
    ⊎ ((valid (or_default (codes "testnet") network_main_net) ≡ false)
        × (main parse_level open_database never never [] test_net ≡ panic))
unfolding bytes_eq
main_lem_example =
    main_lem parse_level open_database never never [] test_net (codes "info") no_tables refl refl
      refl refl
