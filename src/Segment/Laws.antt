-- ===== src/Segment/Laws.antt =====
-- What segment.go puts on the wire, against what message.go reads from it, and what
-- `AddMessage` keeps.
use cardano_go.Common.{
  All, All-append, Bool-cases, Bytes, List, Option-cases, Result, [], ap, append-nil, append_assoc,
  arith, false, inl, inr, length, ltb, not, ok, refl, some, subst, sym, true, ℕ, ◌%◌, ◌&&◌, ◌++◌,
  ◌<◌, ◌==◌, ◌^◌, ◌∷◌, ◌≡◌, ◌≤◌,
}
use cardano_go.Segment.{
  Message, Segment, SegmentError, add_message, complete, marshal_messages, frame, marshal_data_item,
}
use cardano_go.Segment.Wire.{put_u32}
use cardano_go.Reader.Header.{read_header}
use cardano_go.Reader.Frames.{read_header-put}
use cardano_go.Protocol.{Protocol, message_protocol_map}

module _ {ℓ} {Body : Type ℓ} where
  -- Every message of the segment belongs to the segment's protocol.
  abbrev pub IsOneProtocol : Segment Body → Type 0
  IsOneProtocol s =
      All (λ (m : Message Body). message_protocol_map m.kind ≡ some s.protocol) s.messages

  nothing_there :
      (p q : Protocol) (ms : List (Message Body))
      → (ltb 0 (length ms) && not (p == q)) ≡ false
      → All (λ (m : Message Body). message_protocol_map m.kind ≡ some q) ms
      → All (λ (m : Message Body). message_protocol_map m.kind ≡ some p) ms
  nothing_there p q [] same one = tt
  nothing_there p q (m ∷ ms) same one =
      let e : p ≡ q = ground (arith, same) in
      subst
        (λ (x : Protocol).
          All (λ (k : Message Body). message_protocol_map k.kind ≡ some x) (m ∷ ms))
        (sym e) one

  -- `AddMessage` keeps the messages of a segment to one protocol, whether or not it succeeds.
  add_message-IsOneProtocol :
      (s : Segment Body) (m : Message Body) → IsOneProtocol s → IsOneProtocol (add_message s m).0
  unfolding add_message
  add_message-IsOneProtocol s m one = elim (Option-cases (message_protocol_map m.kind)) [
    | inl is_none ↦ rw (add_message, is_none) one
    | inr (p, is_some) ↦
        rw (add_message, is_some)
          elim (Bool-cases (ltb 0 (length s.messages) && not (p == s.protocol))) [
            | inl mixed ↦ rw (mixed) one
            | inr same ↦ rw (same) (
                All-append (λ (k : Message Body). message_protocol_map k.kind ≡ some p) s.messages
                  (m ∷ []) (nothing_there p s.protocol s.messages same one) (is_some, tt))
          ]
  ]

  -- With marshalling that always succeeds: the messages' bytes in order.
  abbrev pub bytes_of : (Message Body → Bytes) → List (Message Body) → Bytes
  bytes_of enc [] = []
  bytes_of enc (m ∷ ms) = enc m ++ bytes_of enc ms

  marshal_messages-all :
      (enc : Message Body → Bytes) (ms : List (Message Body)) (payload : Bytes)
      → marshal_messages (λ (m : Message Body). some (enc m)) ms payload
        ≡ (payload ++ bytes_of enc ms, true)
  unfolding marshal_messages
  marshal_messages-all enc [] payload = rw (append-nil payload) refl
  marshal_messages-all enc (m ∷ ms) payload =
      rw
        (
          marshal_messages-all enc ms (payload ++ enc m),
          append_assoc payload (enc m) (bytes_of enc ms),
        )
        refl

  -- The segment that `MarshalDataItem` leaves behind.
  abbrev sent : (Message Body → Bytes) → Segment Body → Segment Body
  sent enc s = record s {
    payload = s.payload ++ bytes_of enc s.messages;
    payload_length = length (s.payload ++ bytes_of enc s.messages) % 2 ^ 16;
  }

  marshal_data_item-all :
      (enc : Message Body → Bytes) (s : Segment Body)
      → marshal_data_item (λ (m : Message Body). some (enc m)) s
        ≡ (sent enc s, ok (frame (sent enc s)))
  unfolding marshal_data_item
  marshal_data_item-all enc s = rw (marshal_messages-all enc s.messages s.payload) refl

  -- With marshalling that succeeds, `MarshalDataItem` puts the messages behind what the payload
  -- holds already, so that a second call sends them twice.
  marshal_data_item-twice :
      (enc : Message Body → Bytes) (s : Segment Body)
      → (marshal_data_item
          (λ (m : Message Body). some (enc m))
          (marshal_data_item (λ (m : Message Body). some (enc m)) s).0).0.payload
        ≡ s.payload ++ (bytes_of enc s.messages ++ bytes_of enc s.messages)
  marshal_data_item-twice enc s =
      rw (marshal_data_item-all enc s, marshal_data_item-all enc (sent enc s))
        (append_assoc s.payload (bytes_of enc s.messages) (bytes_of enc s.messages))

  -- `MarshalDataItem` succeeds where each message does. A payload that starts empty and stays below 64 KiB, of a protocol up to 10: `readHeader` takes
  -- the frame back to its timestamp, protocol and length.
  pub read_header-marshal_data_item :
      (enc : Message Body → Bytes) (s : Segment Body)
      → s.payload ≡ []
      → s.protocol ≤ 10
      → length (bytes_of enc s.messages) < 2 ^ 16
      → (bs : Bytes) × ((marshal_data_item (λ (m : Message Body). some (enc m)) s).1 ≡ ok bs)
        × (read_header bs ≡ (
          record {
            timestamp = put_u32 s.timestamp;
            protocol = s.protocol;
            byte_len = length (bytes_of enc s.messages);
          },
          ok tt,
        ))
  unfolding frame
  read_header-marshal_data_item enc s empty small fits =
      let n : ℕ = length (bytes_of enc s.messages) in
      let e : n % 2 ^ 16 ≡ n = omega (arith, fits) in
      let q : s.protocol % 2 ^ 16 ≡ s.protocol = omega (arith, small) in
      (
        frame (sent enc s),
        ap (λ (x : Segment Body × Result SegmentError Bytes). x.1) (marshal_data_item-all enc s),
        rw (empty, q, e)
            (read_header-put s.timestamp s.protocol n s.protocol (bytes_of enc s.messages) small
              fits (inl refl)),
      )

  -- `Complete` of what `MarshalDataItem` leaves behind tells whether the payload's length fits the
  -- length field.
  pub complete-marshal_data_item :
      (enc : Message Body → Bytes) (s : Segment Body)
      → complete (marshal_data_item (λ (m : Message Body). some (enc m)) s).0
        ≡ ltb (length (s.payload ++ bytes_of enc s.messages)) (2 ^ 16)
  unfolding complete
  complete-marshal_data_item enc s = rw (marshal_data_item-all enc s) ground arith
