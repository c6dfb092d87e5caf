-- ===== src/BasicTests.antt =====
-- Runs of the networks, the eras and the tables of messages.
use cardano_go.Common.{Bytes, [], ok, refl, ◌∷◌, ◌≡◌}
use cardano_go.Protocol.{request_next, protocol_to_message, message_to_protocol}

abbrev tagged : Bytes
tagged = 0x82 ∷ 5 ∷ 0 ∷ []

is_request_next : message_to_protocol request_next ≡ ok (2, 0)
unfolding message_to_protocol
is_request_next = refl

was_request_next : protocol_to_message 2 0 ≡ ok request_next
unfolding protocol_to_message
was_request_next = refl
