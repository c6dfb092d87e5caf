-- ===== src/Segment.antt =====
-- segment.go: the frames that carry messages over a connection. The body of a message and its CBOR
-- form are third-party matter: `Body` and `marshal` are arguments.
pub mod Wire
pub mod Laws
pub mod Messages
pub mod Tests
use cardano_go.Common.{
  Bool, Bytes, List, Option, Result, [], err, false, if◌then◌else◌, length, ltb, none, not, ok,
  some, true, ℕ, ◌%◌, ◌&&◌, ◌++◌, ◌==◌, ◌^◌, ◌∷◌,
}
use cardano_go.Protocol.{MessageKind, Protocol, message_protocol_map}
use Wire.{put_u16, put_u32}

-- A message: its Go type and what it holds.
pub record Message {ℓ} (Body : Type ℓ) : Type ℓ where
  pub kind : MessageKind
  pub body : Body

pub data Direction : Type 0 where
  direction_in direction_out : Direction

-- The length field is uint16, the timestamp uint32, the protocol uint16.
pub record Segment {ℓ} (Body : Type ℓ) : Type ℓ where
  pub timestamp : ℕ
  pub protocol : Protocol
  pub payload_length : ℕ
  pub payload : Bytes
  pub direction : Direction
  pub messages : List (Message Body)

pub data SegmentError : Type 0 where
  no_protocol mixed_protocols marshal_failed : SegmentError

module _ {ℓ} {Body : Type ℓ} where
  -- `Segment.AddMessage`, with the segment after the call.
  unfoldable pub add_message :
      Segment Body → Message Body → Segment Body × Result SegmentError (Unit {0})
  add_message s m = elim (message_protocol_map m.kind) [
    | none ↦ (s, err no_protocol)
    | some p ↦
        if ltb 0 (length s.messages) && not (p == s.protocol)
        then (s, err mixed_protocols)
        else (record s { protocol = p; messages = s.messages ++ m ∷ [] }, ok tt)
  ]

  -- `Segment.Complete`
  unfoldable pub complete : Segment Body → Bool
  complete s = s.payload_length == length s.payload

  -- The fields of the header and the payload, in network order.
  unfoldable pub frame : Segment Body → Bytes
  frame s =
      put_u32 s.timestamp ++ put_u16 (s.protocol % 2 ^ 16) ++ put_u16 s.payload_length ++ s.payload

  module _ (marshal : Message Body → Option Bytes) where
    -- The loop of `MarshalDataItem`: the payload grows by each message, also when a later one fails.
    pub marshal_messages : List (Message Body) → Bytes → Bytes × Bool
    marshal_messages [] payload = (payload, true)
    marshal_messages (m ∷ ms) payload = elim (marshal m) [
      | some b ↦ marshal_messages ms (payload ++ b)
      | none ↦ (payload, false)
    ]

    -- `Segment.MarshalDataItem`, with the segment after the call.
    unfoldable pub marshal_data_item : Segment Body → Segment Body × Result SegmentError Bytes
    unfolding frame marshal_messages
    marshal_data_item s =
        let (payload, marshalled) = marshal_messages s.messages s.payload in
        let s' : Segment Body = record s {
          payload = payload;
          payload_length = length payload % 2 ^ 16;
        } in
        if marshalled
        then (s', ok (frame s'))
        else (record s { payload = payload }, err marshal_failed)
