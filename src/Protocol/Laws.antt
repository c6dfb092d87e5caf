-- ===== src/Protocol/Laws.antt =====
-- The two directions of the tables against each other.
use cardano_go.Common.{arith, err, ok, ◌≡◌, ◌≢◌, ◌⊎◌}
use cardano_go.Protocol.{
  MessageKind, Protocol, Subprotocol, protocol_to_message, message_to_protocol,
  protocol_local_state, accept_version_ntn, accept_version_ntc, no_protocol_for_message,
}

-- A message that has numbers is found again under them, but for the node-to-node acceptance of a
-- version, in whose place the node-to-client one is found.
protocol_to_message-message_to_protocol :
    (m : MessageKind) (p : Protocol) (s : Subprotocol)
    → message_to_protocol m ≡ ok (p, s)
    → ((m ≢ accept_version_ntn) × (protocol_to_message p s ≡ ok m))
      ⊎ ((m ≡ accept_version_ntn) × (protocol_to_message p s ≡ ok accept_version_ntc))
unfolding message_to_protocol protocol_to_message
protocol_to_message-message_to_protocol MessageKind.propose_versions p s h = ground arith
protocol_to_message-message_to_protocol _ p s h = ground arith

-- Every message that the reader can decode has just the numbers it was decoded under, or it is a
-- local-state message or the node-to-client acceptance, and has none.
message_to_protocol-protocol_to_message :
    (m : MessageKind) (p : Protocol) (s : Subprotocol)
    → protocol_to_message p s ≡ ok m
    → (message_to_protocol m ≡ ok (p, s))
      ⊎ ((message_to_protocol m ≡ err (no_protocol_for_message m))
          × ((p ≡ protocol_local_state) ⊎ (m ≡ accept_version_ntc)))
unfolding message_to_protocol protocol_to_message
message_to_protocol-protocol_to_message m p s h = ground arith
