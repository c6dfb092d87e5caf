-- ===== src/Rpc/Start.antt =====
-- cmd/rpc/main.go: how the program starts. `flag`, the environment, `zerolog.ParseLevel` and the
-- opening of the database are arguments, and so is what the network does.
use cardano_go.Common.{
  Bool, Bytes, Option, Result, [], bytes_eq, codes, err, false, if◌then◌else◌, inl, inr, none, not,
  ok, panic, refl, some, ℕ, ◌&&◌, ◌≡◌, ◌⊎◌,
}
use cardano_go.Network.{Network, NetworkParams, network_main_net, valid, params_total}
use cardano_go.Db.Tables.{Tables}
use cardano_go.Client.Defs.{
  or_default, ℤ, negsuc, ClientOptions, ClientError, NewClient, Client, new_client, set_defaults,
  create, start, stop,
}

-- What the flags say, where they are given.
pub record Flags : Type 0 where
  pub database_path : Option Bytes
  pub ntn_host_port : Option Bytes
  pub ntc_host_port : Option Bytes
  pub network : Option Bytes
  pub rpc_host_port : Option Bytes
  pub socket_path : Option Bytes
  pub log_level : Option Bytes
  pub reorg_window : Option ℤ

-- `_config`
pub record Config : Type 0 where
  pub database_path : Bytes
  pub ntn_host_port : Bytes
  pub ntc_host_port : Bytes
  pub network : Network
  pub rpc_host_port : Bytes
  pub socket_path : Bytes
  pub log_level : Bytes
  pub reorg_window : ℤ

abbrev pub given_or {ℓ} : {A : Type ℓ} → A → Option A → A
given_or d none = d
given_or d (some a) = a

-- `_config.Load`
abbrev pub load : Flags → Config
load f = record {
  database_path = given_or (codes "cardano-rpc.db") f.database_path;
  ntn_host_port = given_or (codes "localhost:3000") f.ntn_host_port;
  ntc_host_port = given_or (codes "localhost:3001") f.ntc_host_port;
  network = given_or [] f.network;
  rpc_host_port = given_or (codes "localhost:3002") f.rpc_host_port;
  socket_path = given_or (codes "/opt/cardano/ipc/socket") f.socket_path;
  log_level = given_or [] f.log_level;
  reorg_window = given_or (negsuc 0) f.reorg_window;
}

-- The level of the configuration, that of the environment, or info.
abbrev pub log_level_name : Bytes → Config → Bytes
log_level_name env c =
    if bytes_eq c.log_level [] then if bytes_eq env [] then codes "info" else env else c.log_level

pub data MainError : Type 0 where
  bad_log_level no_database no_ntn_port no_ntc_port : MainError
  client_failed : ClientError → MainError

-- The program with its client started.
pub record Running : Type 0 where
  pub config : Config
  pub db : Tables
  pub client : Client

abbrev pub client_options : Config → Tables → ClientOptions
client_options c db = record {
  ntn_host_port = c.ntn_host_port;
  ntc_host_port = c.ntc_host_port;
  network = c.network;
  database = some db;
  start_point = record { slot = 0; hash = []; kind = 0; height = 0 };
  reorg_window = c.reorg_window;
}

-- `NewClient`'s client, nil where it fails.
abbrev pub client_or_nil : Result ClientError NewClient → Option NewClient
client_or_nil (ok c) = some c
client_or_nil (err e) = none
client_or_nil panic = none

module _ {Level : Type 0} (parse_level : Bytes → Option Level)
    (open_database : Bytes → Option Tables) (dial opens : ℕ → Bool) where
  -- The goroutine that starts the client; a nil pointer has no log.
  abbrev pub start_client : Config → Tables → Option NewClient → Result MainError Running
  start_client c db none = panic
  start_client c db (some n) = elim (start dial opens n) [
    | ok client ↦ ok (record { config = c; db = db; client = client })
    | err e ↦ err (client_failed e)
    | panic ↦ panic
  ]

  -- `main` up to the waiting for a signal, with a value for the environment variable. The error of
  -- `NewClient` is not looked at before that of `NewHttpRpcServer`, which is nil, takes its place.
  unfoldable pub main : Bytes → Flags → Result MainError Running
  main env f =
      let c : Config = record (load f) { log_level = log_level_name env (load f) } in
      elim (parse_level c.log_level) [
        | none ↦ err bad_log_level
        | some level ↦ elim (open_database c.database_path) [
          | none ↦ err no_database
          | some db ↦
              let n : Option NewClient = client_or_nil (new_client (some (client_options c db))) in
              if bytes_eq c.ntn_host_port []
              then err no_ntn_port
              else if bytes_eq c.ntc_host_port []
              then err no_ntc_port
              else start_client c db n
        ]
      ]

  -- The options have a database, so that only the network can be refused.
  new_client-options :
      (c : Config) (db : Tables)
      → ((n : NewClient) × ((p : NetworkParams) × (n.params ≡ some p)
            × (p.name ≡ or_default c.network network_main_net))
          × (new_client (some (client_options c db)) ≡ ok n))
        ⊎ ((valid (or_default c.network network_main_net) ≡ false)
            × (client_or_nil (new_client (some (client_options c db))) ≡ none))
  unfolding new_client set_defaults create
  new_client-options c db = elim (params_total (or_default c.network network_main_net)) [
    | inl (v, (p, e, same)) ↦ inl (
      record { options = set_defaults (client_options c db); params = some p; db = db },
      (p, refl, same),
      rw (new_client, set_defaults, create, e) refl,
    )
    | inr (v, e) ↦ inr (v, rw (new_client, set_defaults, create, e) refl)
  ]

  -- A log level that parses, a database that opens and ports that are not empty: with a network
  -- that is valid, or none, which stands for the main net, `main` starts a client with the
  -- parameters of that network. With any other network it panics: the error of `NewClient` is lost,
  -- and `Start` is called on a nil client.
  pub main_lem :
      (env : Bytes) (f : Flags) (level : Level) (db : Tables)
      → parse_level (log_level_name env (load f)) ≡ some level
      → open_database (load f).database_path ≡ some db
      → bytes_eq (load f).ntn_host_port [] ≡ false
      → bytes_eq (load f).ntc_host_port [] ≡ false
      → ((n : NewClient) × ((p : NetworkParams) × (n.params ≡ some p)
            × (p.name ≡ or_default (load f).network network_main_net))
          × (main env f
              ≡ start_client
                  (record (load f) { log_level = log_level_name env (load f) })
                  db
                  (some n)))
        ⊎ ((valid (or_default (load f).network network_main_net) ≡ false) × (main env f ≡ panic))
  unfolding main
  main_lem env f level db l d ntn ntc =
      let c : Config = record (load f) { log_level = log_level_name env (load f) } in
      elim (new_client-options c db) [
        | inl (n, p, e) ↦ inl (n, p, rw (main, l, d, e, ntn, ntc) refl)
        | inr (v, e) ↦ inr (v, rw (main, l, d, e, ntn, ntc) refl)
      ]

pub data StopError : Type 0 where
  client_not_closed server_not_stopped : StopError

-- The rest of `main`, once a signal comes, by whether the connection closes and the server stops
-- without an error.
unfoldable pub shut_down : Bool → Bool → Running → Running × Result StopError (Unit {0})
unfolding stop
shut_down closes stops r =
    let (client, closing) = stop r.client in
    let r' : Running = record r { client = client } in
    if closing && not closes
    then (r', err client_not_closed)
    else if stops
    then (r', ok tt)
    else (r', err server_not_stopped)
