-- ===== src/Segment/Tests.antt =====
-- Runs of the frames.
use cardano_go.Common.{
  Bytes, Option, [], arith, if◌then◌else◌, none, ok, refl, some, true, ℕ, ◌==◌, ◌||◌, ◌∷◌, ◌≡◌,
}
use cardano_go.Protocol.{request_next, message_protocol_map, MessageKind, protocol_to_message}
use cardano_go.Segment.{Message, Segment, direction_out, complete, marshal_data_item}
use cardano_go.Segment.Messages.{IsRead, messages_of, messages_of-marshal_data_item}
use cardano_go.Segment.Wire.{put_u32}
use cardano_go.Segment.Laws.{
  IsOneProtocol, read_header-marshal_data_item, complete-marshal_data_item,
}
use cardano_go.Reader.Header.{read_header}

abbrev enc : Message Bytes → Bytes
enc m = m.body

abbrev message : Message Bytes
message = record { kind = request_next; body = 0x81 ∷ 0 ∷ [] }

abbrev second : Message Bytes
second = record { kind = request_next; body = 0x82 ∷ 0 ∷ [] }

abbrev segment : Segment Bytes
segment = record {
  timestamp = 7;
  protocol = 2;
  payload_length = 0;
  payload = [];
  direction = direction_out;
  messages = message ∷ [];
}

one_protocol : IsOneProtocol segment
unfolding message_protocol_map
one_protocol = (refl, tt)

read_header-marshal_data_item_example :
    (bs : Bytes) × ((marshal_data_item (λ (m : Message Bytes). some (enc m)) segment).1 ≡ ok bs)
    × (read_header bs ≡ (record { timestamp = put_u32 7; protocol = 2; byte_len = 2 }, ok tt))
read_header-marshal_data_item_example =
    read_header-marshal_data_item enc segment refl (omega arith) (omega arith)

complete-marshal_data_item_example :
    complete (marshal_data_item (λ (m : Message Bytes). some (enc m)) segment).0 ≡ true
complete-marshal_data_item_example = complete-marshal_data_item enc segment

-- A CBOR package for lists of one small number.
abbrev first_head : Bytes → Option (Option ℕ × Bytes)
first_head [] = none
first_head (b ∷ []) = none
first_head (b ∷ n ∷ rest) = if b == 0x81 || b == 0x82 then some (some n, rest) else none

abbrev first_body : MessageKind → Bytes → Option Bytes
first_body k [] = none
first_body k (b ∷ []) = none
first_body k (b ∷ n ∷ rest) = some (b ∷ n ∷ [])

message-IsRead : IsRead first_head first_body (λ (m : Message Bytes). some m.body) 2 message
unfolding protocol_to_message
message-IsRead = record {
  bytes = 0x81 ∷ 0 ∷ [];
  sub = 0;
  written = refl;
  some_bytes = omega arith;
  small = omega arith;
  head = λ rest. refl;
  kind = refl;
  body = λ rest. refl;
}

second-IsRead : IsRead first_head first_body (λ (m : Message Bytes). some m.body) 2 second
unfolding protocol_to_message
second-IsRead = record {
  bytes = 0x82 ∷ 0 ∷ [];
  sub = 0;
  written = refl;
  some_bytes = omega arith;
  small = omega arith;
  head = λ rest. refl;
  kind = refl;
  body = λ rest. refl;
}

-- Two messages of a number, of which the later one is left.
abbrev both : Segment Bytes
both = record segment { messages = message ∷ second ∷ [] }

abbrev no_objects : ℕ → Option Bytes
no_objects k = none

messages_of-marshal_data_item_example :
    messages_of first_head first_body
      (marshal_data_item (λ (m : Message Bytes). some m.body) both).0
      no_objects
    ≡ (
      (0 ∷ 0 ∷ [], ok tt),
      λ k. if 0 == k then some (0x82 ∷ 0 ∷ []) else if 0 == k then some (0x81 ∷ 0 ∷ []) else none,
    )
unfolding message-IsRead second-IsRead
messages_of-marshal_data_item_example =
    messages_of-marshal_data_item first_head first_body (λ (m : Message Bytes). some m.body) 2 both
      no_objects refl refl (message-IsRead, (second-IsRead, tt))
