-- ===== src/Protocol.antt =====
-- protocol.go: the mini-protocols, their messages, and the two directions of the tables between
-- a message and its protocol and subprotocol numbers.
pub mod Laws
pub mod Handshake
pub mod Optional
use cardano_go.Common.{
  List, Option, Result, [], err, get_elem?, if◌then◌else◌, none, ok, or_fail, some, ℕ, ◌==◌, ◌∷◌,
  ◌>>=◌,
}

-- The Go types of messages, a constructor for each.
pub data MessageKind : Type 0 where
  propose_versions accept_version_ntn accept_version_ntc refuse query_reply : MessageKind
  request_next await_reply roll_forward roll_backward : MessageKind
  find_intersect intersect_found intersect_not_found chain_sync_done : MessageKind
  request_range client_done start_batch no_blocks block batch_done : MessageKind
  keep_alive_response keep_alive : MessageKind
  local_state_acquire local_state_acquired local_state_failure local_state_query : MessageKind
  local_state_result local_state_release local_state_reacquire local_state_done : MessageKind
  local_state_acquire_volatile_tip local_state_reacquire_volatile_tip : MessageKind
  local_state_acquire_immutable_tip local_state_reacquire_immutable_tip : MessageKind

-- `Protocol` and `Subprotocol` are uint16.
abbrev pub Protocol : Type 0
Protocol = ℕ

abbrev pub Subprotocol : Type 0
Subprotocol = ℕ

abbrev pub protocol_handshake : Protocol
protocol_handshake = 0

abbrev pub protocol_chain_sync : Protocol
protocol_chain_sync = 2

abbrev pub protocol_block_fetch : Protocol
protocol_block_fetch = 3

abbrev pub protocol_local_tx : Protocol
protocol_local_tx = 6

abbrev pub protocol_local_state : Protocol
protocol_local_state = 7

abbrev pub protocol_keep_alive : Protocol
protocol_keep_alive = 8

abbrev handshake_messages : List MessageKind
handshake_messages = propose_versions ∷ accept_version_ntc ∷ refuse ∷ query_reply ∷ []

abbrev chain_sync_messages : List MessageKind
chain_sync_messages =
    request_next ∷ await_reply ∷ roll_forward ∷ roll_backward ∷ find_intersect ∷ intersect_found
    ∷ intersect_not_found ∷ chain_sync_done ∷ []

abbrev block_fetch_messages : List MessageKind
block_fetch_messages =
    request_range ∷ client_done ∷ start_batch ∷ no_blocks ∷ block ∷ batch_done ∷ []

abbrev keep_alive_messages : List MessageKind
keep_alive_messages = keep_alive_response ∷ keep_alive ∷ []

abbrev local_state_messages : List MessageKind
local_state_messages =
    local_state_acquire ∷ local_state_acquired ∷ local_state_failure ∷ local_state_query
    ∷ local_state_result ∷ local_state_release ∷ local_state_reacquire ∷ local_state_done
    ∷ local_state_acquire_volatile_tip ∷ local_state_reacquire_volatile_tip
    ∷ local_state_acquire_immutable_tip ∷ local_state_reacquire_immutable_tip ∷ []

-- `ProtocolMessageMap`: the subprotocols of each protocol are numbered from 0.
unfoldable pub protocol_message_map : Protocol → Option (List MessageKind)
protocol_message_map p =
    if p == protocol_handshake
    then some handshake_messages
    else if p == protocol_chain_sync
    then some chain_sync_messages
    else if p == protocol_block_fetch
    then some block_fetch_messages
    else if p == protocol_keep_alive
    then some keep_alive_messages
    else if p == protocol_local_state
    then some local_state_messages
    else if p == protocol_local_tx
    then some []
    else none

pub data ProtocolError : Type 0 where
  unknown_protocol : Protocol → ProtocolError
  unknown_subprotocol : Protocol → ProtocolError
  no_protocol_for_message no_subprotocol_for_message : MessageKind → ProtocolError

-- `ProtocolToMessage`; Go gives a pointer to the one object of that kind in the table.
unfoldable pub protocol_to_message : Protocol → Subprotocol → Result ProtocolError MessageKind
unfolding protocol_message_map
protocol_to_message p s = elim (protocol_message_map p) [
  | none ↦ err (unknown_protocol p)
  | some kinds ↦ or_fail (get_elem? kinds s) (unknown_subprotocol p)
]

-- `MessageProtocolMap`
unfoldable pub message_protocol_map : MessageKind → Option Protocol
message_protocol_map propose_versions = some protocol_handshake
message_protocol_map refuse = some protocol_handshake
message_protocol_map query_reply = some protocol_handshake
message_protocol_map accept_version_ntn = some protocol_handshake
message_protocol_map request_next = some protocol_chain_sync
message_protocol_map await_reply = some protocol_chain_sync
message_protocol_map roll_forward = some protocol_chain_sync
message_protocol_map roll_backward = some protocol_chain_sync
message_protocol_map find_intersect = some protocol_chain_sync
message_protocol_map intersect_found = some protocol_chain_sync
message_protocol_map intersect_not_found = some protocol_chain_sync
message_protocol_map chain_sync_done = some protocol_chain_sync
message_protocol_map request_range = some protocol_block_fetch
message_protocol_map client_done = some protocol_block_fetch
message_protocol_map start_batch = some protocol_block_fetch
message_protocol_map no_blocks = some protocol_block_fetch
message_protocol_map block = some protocol_block_fetch
message_protocol_map batch_done = some protocol_block_fetch
message_protocol_map keep_alive_response = some protocol_keep_alive
message_protocol_map keep_alive = some protocol_keep_alive
message_protocol_map _ = none

-- `MessageSubprotocolMap`
unfoldable pub message_subprotocol_map : MessageKind → Option Subprotocol
message_subprotocol_map propose_versions = some 0
message_subprotocol_map refuse = some 2
message_subprotocol_map query_reply = some 3
message_subprotocol_map accept_version_ntn = some 1
message_subprotocol_map request_next = some 0
message_subprotocol_map await_reply = some 1
message_subprotocol_map roll_forward = some 2
message_subprotocol_map roll_backward = some 3
message_subprotocol_map find_intersect = some 4
message_subprotocol_map intersect_found = some 5
message_subprotocol_map intersect_not_found = some 6
message_subprotocol_map chain_sync_done = some 7
message_subprotocol_map request_range = some 0
message_subprotocol_map client_done = some 1
message_subprotocol_map start_batch = some 2
message_subprotocol_map no_blocks = some 3
message_subprotocol_map block = some 4
message_subprotocol_map batch_done = some 5
message_subprotocol_map keep_alive_response = some 0
message_subprotocol_map keep_alive = some 1
message_subprotocol_map _ = none

-- `MessageToProtocol`
unfoldable pub message_to_protocol : MessageKind → Result ProtocolError (Protocol × Subprotocol)
unfolding message_protocol_map message_subprotocol_map
message_to_protocol m = do
  p ← or_fail (message_protocol_map m) (no_protocol_for_message m)
  s ← or_fail (message_subprotocol_map m) (no_subprotocol_for_message m)
  ok (p, s)
