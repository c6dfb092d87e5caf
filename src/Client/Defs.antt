-- ===== src/Client/Defs.antt =====
-- client.go: `ClientOptions`, `NewClient`, `connect`, `Start` and `Stop`.
use cardano_go.Common.{
  Bool, Bytes, List, Option, Result, [], bytes_eq, codes, err, false, if◌then◌else◌, none, ok,
  panic, some, suc, true, zero, ℕ, ◌==◌,
}
use cardano_go.Network
use cardano_go.Network.{Network, NetworkParams, network_main_net}
use cardano_go.Db.Tables.{PointRef, Tables}
use cardano_go.Processor.Defs.{ProcessError, zero_point}
use cardano_go.Processor.Rounds.{Processor, new_block_processor}

-- A Go int.
pub data ℤ : Type 0 where
  pos : ℕ → ℤ
  -- `negsuc n` is -n - 1.
  negsuc : ℕ → ℤ

pub record ClientOptions : Type 0 where
  pub ntn_host_port : Bytes
  pub ntc_host_port : Bytes
  pub network : Network
  -- The database that the interface holds, where it is not nil.
  pub database : Option Tables
  pub start_point : PointRef
  pub reorg_window : ℤ

-- `defaultClientOptions`
abbrev pub default_client_options : ClientOptions
default_client_options = record {
  ntn_host_port = codes "localhost:3000";
  ntc_host_port = codes "localhost:3001";
  network = network_main_net;
  database = none;
  start_point = zero_point;
  reorg_window = pos 6;
}

-- `&ClientOptions{}`
abbrev pub zero_options : ClientOptions
zero_options = record {
  ntn_host_port = [];
  ntc_host_port = [];
  network = [];
  database = none;
  start_point = zero_point;
  reorg_window = pos 0;
}

abbrev pub or_default : Bytes → Bytes → Bytes
or_default s d = if bytes_eq s [] then d else s

-- A negative window.
abbrev pub or_window : ℤ → ℤ
or_window (pos n) = pos n
or_window (negsuc n) = default_client_options.reorg_window

-- `setDefaults`
unfoldable pub set_defaults : ClientOptions → ClientOptions
set_defaults o = record {
  ntn_host_port = or_default o.ntn_host_port default_client_options.ntn_host_port;
  ntc_host_port = or_default o.ntc_host_port default_client_options.ntc_host_port;
  network = or_default o.network default_client_options.network;
  database = o.database;
  start_point = if bytes_eq o.start_point.hash [] then zero_point else o.start_point;
  reorg_window = or_window o.reorg_window;
}

pub data ClientError : Type 0 where
  database_required : ClientError
  bad_network : Network.NetworkError → ClientError
  no_processor : ProcessError → ClientError
  dial_failed open_failed not_connected : ClientError

-- What `NewClient` builds: a client without a processor.
pub record NewClient : Type 0 where
  pub options : ClientOptions
  pub params : Option NetworkParams
  pub db : Tables

-- `NewClient`, once the defaults are set.
unfoldable pub create : ClientOptions → Result ClientError NewClient
create o = elim o.database [
  | none ↦ err database_required
  | some db ↦ elim (Network.params o.network) [
    | err e ↦ err (bad_network e)
    | panic ↦ panic
    | ok p ↦ ok (record { options = o; params = p; db = db })
  ]
]

-- `NewClient`; `none` stands for nil options.
unfoldable pub new_client : Option ClientOptions → Result ClientError NewClient
unfolding set_defaults create
new_client none = create (set_defaults zero_options)
new_client (some o) = create (set_defaults o)

abbrev pub max_attempts : ℕ
max_attempts = 10

-- Whether `net.Dial` succeeds in an attempt, and whether `ouroboros.New` does over its connection.
module _ (dial opens : ℕ → Bool) where
  -- The loop of `connect`, from an attempt on, with the number of delays that it makes.
  unfoldable pub connect_from : ℕ → ℕ → ℕ × Result ClientError (Unit {0})
  connect_from zero attempt = (0, err not_connected)
  connect_from (suc left) attempt =
      let later : ℕ × Result ClientError (Unit {0}) = connect_from left (suc attempt) in
      if dial attempt
      then (0, if opens attempt then ok tt else err open_failed)
      else if attempt == max_attempts
      then (0, err dial_failed)
      else (suc later.0, later.1)

  -- `connect`
  unfoldable pub connect : ℕ × Result ClientError (Unit {0})
  unfolding connect_from
  connect = connect_from max_attempts 1

-- Where the goroutine that `TryProcessBlocks` starts stands: there is none, it waits for
-- `processingMutex`, it holds it, or it has released it and `isProcessing` is still set.
pub data Phase : Type 0 where
  idle waiting holding leaving : Phase

-- A client that was started. The tables of its processor are those of its database.
pub record Client : Type 0 where
  pub options : ClientOptions
  pub params : Option NetworkParams
  pub shutdown : Bool
  pub latest_era : ℕ
  pub processor : Processor
  pub phase : Phase
  pub start_point : PointRef
  pub points : List PointRef
  pub tip_reached : Bool

-- `NewBlockProcessor` takes the window as `setDefaults` leaves it.
abbrev pub window : ℤ → ℕ
window (pos n) = n
window (negsuc n) = 0

-- `Start`; `followChain` is started next to it.
unfoldable pub start : (ℕ → Bool) → (ℕ → Bool) → NewClient → Result ClientError Client
start dial opens c = elim (new_block_processor c.db (window c.options.reorg_window)) [
  | err e ↦ err (no_processor e)
  | panic ↦ panic
  | ok bp ↦ elim (connect dial opens).1 [
    | err e ↦ err e
    | panic ↦ panic
    | ok _ ↦ ok (record {
      options = c.options;
      params = c.params;
      shutdown = false;
      latest_era = 0;
      processor = bp;
      phase = idle;
      start_point = zero_point;
      points = [];
      tip_reached = false;
    })
  ]
]

-- `Stop`, with whether it closes the connection.
unfoldable pub stop : Client → Client × Bool
stop c = if c.shutdown then (c, false) else (record c { shutdown = true }, true)
