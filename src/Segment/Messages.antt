-- ===== src/Segment/Messages.antt =====
-- segment.go: `Messages`, which reads the messages of a payload. A message that is returned is a
-- pointer to the one object of its kind in the table of protocol.go.
use cardano_go.Common.{
  All, Bytes, List, Option, Result, [], ap, append-nil, append_assoc, arith, err, false,
  if◌then◌else◌, length, length-append, none, ok, panic, refl, some, suc, sym, true, zero, ℕ, ◌%◌,
  ◌++◌, ◌<◌, ◌==◌, ◌^◌, ◌∙◌, ◌∷◌, ◌≡◌, ◌≤◌,
}
use cardano_go.Protocol.{MessageKind, Protocol, Subprotocol, ProtocolError, protocol_to_message}
use cardano_go.Segment.{Message, Segment, marshal_data_item, marshal_messages}

pub data MessagesError : Type 0 where
  head_failed body_failed : MessagesError
  no_message : ProtocolError → MessagesError
  -- The fuel of the model ran out; the code has no such error.
  no_fuel : MessagesError

-- `first_head` is `UnmarshalFirst` into a list: its first element, where it is a uint64, and the
-- bytes behind the list. `first_body` is `UnmarshalFirst` into the object of a kind.
module _ {ℓ} {Body : Type ℓ} (first_head : Bytes → Option (Option ℕ × Bytes))
    (first_body : MessageKind → Bytes → Option Body) where
  -- What is read of the bytes at hand, with its number, and the bytes behind it; the conversion to
  -- `Subprotocol` keeps 16 bits.
  unfoldable pub read_one :
      Protocol → Bytes → Result MessagesError (Subprotocol × Message Body × Bytes)
  read_one p s = elim (first_head s) [
    | none ↦ err head_failed
    | some (none, rest) ↦ panic
    | some (some sub, rest) ↦ elim (protocol_to_message p (sub % 2 ^ 16)) [
      | err x ↦ err (no_message x)
      | panic ↦ panic
      | ok kind ↦ elim (first_body kind s) [
        | none ↦ err body_failed
        | some body ↦ ok (sub % 2 ^ 16, record { kind = kind; body = body }, rest)
      ]
    ]
  ]

  -- The objects of a protocol's messages by their numbers, with what was read into them last.
  abbrev pub Objects : Type ℓ
  Objects = Subprotocol → Option Body

  abbrev pub set_object : Subprotocol → Body → Objects → Objects
  set_object sub body o k = if sub == k then some body else o k

  -- The loop; it ends where nothing is read. A message is a pointer to the object of its number.
  unfoldable pub messages_from :
      ℕ
      → Protocol
      → Bytes
      → Objects
      → (List Subprotocol × Result MessagesError (Unit {0})) × Objects
  unfolding read_one
  messages_from fuel p [] o = (([], ok tt), o)
  messages_from zero p (b ∷ s) o = (([], err no_fuel), o)
  messages_from (suc fuel) p (b ∷ s) o = elim (read_one p (b ∷ s)) [
    | err x ↦ (([], err x), o)
    | panic ↦ (([], panic), o)
    | ok (sub, m, rest) ↦
        let later : (List Subprotocol × Result MessagesError (Unit {0})) × Objects =
          messages_from fuel p rest (set_object sub m.body o) in
        if length (b ∷ s) == length rest
        then ((sub ∷ [], ok tt), set_object sub m.body o)
        else ((sub ∷ later.0.0, later.0.1), later.1)
  ]

  -- `Segment.Messages`, with the objects before and after it.
  unfoldable pub messages_of :
      Segment Body → Objects → (List Subprotocol × Result MessagesError (Unit {0})) × Objects
  unfolding messages_from
  messages_of s o = messages_from (length s.payload) s.protocol s.payload o

  module _ (marshal : Message Body → Option Bytes) (p : Protocol) where
    -- The CBOR package reads back the message, with any bytes behind it, and the table has its
    -- kind under the number that stands in it.
    pub record IsRead (m : Message Body) : Type ℓ where
      pub bytes : Bytes
      pub sub : ℕ
      pub written : marshal m ≡ some bytes
      pub some_bytes : 0 < length bytes
      pub small : sub < 2 ^ 16
      pub head : (rest : Bytes) → first_head (bytes ++ rest) ≡ some (some sub, rest)
      pub kind : protocol_to_message p sub ≡ ok m.kind
      pub body : (rest : Bytes) → first_body m.kind (bytes ++ rest) ≡ some m.body

    read_one-written :
        (m : Message Body) (r : IsRead m) (rest : Bytes)
        → read_one p (r.bytes ++ rest) ≡ ok (r.sub, m, rest)
    unfolding read_one
    read_one-written m r rest =
        let same : r.sub % 2 ^ 16 ≡ r.sub = omega (arith, r.small) in
        rw (read_one, r.head rest, same, r.kind, r.body rest) (ap (λ (n : ℕ). ok (n, m, rest)) same)

    messages_from-step :
        (fuel : ℕ) (s rest : Bytes) (sub : Subprotocol) (m : Message Body) (o : Objects)
        → length rest < length s
        → read_one p s ≡ ok (sub, m, rest)
        → messages_from (suc fuel) p s o ≡ (
          (
            sub ∷ (messages_from fuel p rest (set_object sub m.body o)).0.0,
            (messages_from fuel p rest (set_object sub m.body o)).0.1,
          ),
          (messages_from fuel p rest (set_object sub m.body o)).1,
        )
    unfolding messages_from
    messages_from-step fuel [] rest sub m o l e = absurd (omega (arith, l))
    messages_from-step fuel (b ∷ s) rest sub m o l e =
        let longer : (length (b ∷ s) == length rest) ≡ false = ground (arith, l) in
        rw (messages_from, e, longer) refl

    -- The bytes of the messages in turn.
    abbrev payload_of : (ms : List (Message Body)) → All IsRead ms → Bytes
    payload_of [] r = []
    payload_of (m ∷ ms) r = r.0.bytes ++ payload_of ms r.1

    -- The numbers of the messages in turn.
    abbrev pub numbers_of : (ms : List (Message Body)) → All IsRead ms → List Subprotocol
    numbers_of [] r = []
    numbers_of (m ∷ ms) r = r.0.sub ∷ numbers_of ms r.1

    -- The body of the last message of a number, or what was there before.
    abbrev pub last_body :
        Subprotocol → Option Body → (ms : List (Message Body)) → All IsRead ms → Option Body
    last_body k before [] r = before
    last_body k before (m ∷ ms) r =
        last_body k (if r.0.sub == k then some m.body else before) ms r.1

    messages_from-payload_of :
        (fuel : ℕ) (ms : List (Message Body)) (r : All IsRead ms) (o : Objects)
        → length (payload_of ms r) ≤ fuel
        → messages_from fuel p (payload_of ms r) o
          ≡ ((numbers_of ms r, ok tt), λ k. last_body k (o k) ms r)
    unfolding messages_from
    messages_from-payload_of fuel [] r o l = refl
    messages_from-payload_of zero (m ∷ ms) r o l =
        absurd (omega (arith, l, r.0.some_bytes, length-append r.0.bytes (payload_of ms r.1)))
    messages_from-payload_of (suc fuel) (m ∷ ms) r o l =
        let rest : Bytes = payload_of ms r.1 in
        let shorter : length rest < length (r.0.bytes ++ rest) =
          omega (arith, r.0.some_bytes, length-append r.0.bytes rest) in
        messages_from-step fuel (r.0.bytes ++ rest) rest r.0.sub m o shorter
          (read_one-written m r.0 rest)
        ∙ ap
            (λ (x : (List Subprotocol × Result MessagesError (Unit {0})) × Objects).
              ((r.0.sub ∷ x.0.0, x.0.1), x.1))
            (messages_from-payload_of fuel ms r.1 (set_object r.0.sub m.body o)
              (omega (arith, l, shorter)))

    marshal_messages-payload_of :
        (ms : List (Message Body)) (r : All IsRead ms) (pre : Bytes)
        → marshal_messages marshal ms pre ≡ (pre ++ payload_of ms r, true)
    unfolding marshal_messages
    marshal_messages-payload_of [] r pre = ap (λ (x : Bytes). (x, true)) (sym (append-nil pre))
    marshal_messages-payload_of (m ∷ ms) r pre =
        rw (marshal_messages, r.0.written)
          (marshal_messages-payload_of ms r.1 (pre ++ r.0.bytes)
            ∙ ap (λ (x : Bytes). (x, true)) (append_assoc pre r.0.bytes (payload_of ms r.1)))

    marshal_data_item-payload :
        (s : Segment Body) (r : All IsRead s.messages)
        → s.payload ≡ []
        → ((marshal_data_item marshal s).0.payload ≡ payload_of s.messages r)
          × ((marshal_data_item marshal s).0.protocol ≡ s.protocol)
    unfolding marshal_data_item
    marshal_data_item-payload s r e =
        let f : marshal_messages marshal s.messages s.payload ≡ (payload_of s.messages r, true) =
          ap (marshal_messages marshal s.messages) e
          ∙ marshal_messages-payload_of s.messages r [] in
        rw (marshal_data_item, f) (refl, refl)

    -- `Messages` on what `MarshalDataItem` wrote into an empty segment of the protocol, where the
    -- CBOR package reads back each message and the table has its kind under its number of 16 bits:
    -- it gives pointers to the objects of the messages in their order and no error, and each object
    -- holds the body of the last message of its number, so that of two messages of a number only
    -- the later one is left.
    pub messages_of-marshal_data_item :
        (s : Segment Body) (o : Objects)
        → s.payload ≡ []
        → s.protocol ≡ p
        → (r : All IsRead s.messages)
        → messages_of (marshal_data_item marshal s).0 o
          ≡ ((numbers_of s.messages r, ok tt), λ k. last_body k (o k) s.messages r)
    unfolding messages_of
    messages_of-marshal_data_item s o e f r =
        let (g, h) = marshal_data_item-payload s r e in
        rw (messages_of, g, h, f)
          (messages_from-payload_of (length (payload_of s.messages r)) s.messages r o (omega arith))
