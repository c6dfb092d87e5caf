-- ===== src/Reader/Messages.antt =====
-- `nextMessage` and `nextMessages`: the messages of one segment.
use cardano_go.Common.{
  Bytes, List, Result, [], err, false, if◌then◌else◌, length, ok, or_fail, panic, suc, take, true,
  zero, ℕ, ◌%◌, ◌++◌, ◌-◌, ◌^◌, ◌∷◌, ◌>>=◌,
}
use cardano_go.Protocol.{Protocol, Subprotocol, protocol_to_message}
use cardano_go.Reader.Defs.{
  Message, shared, store_set, is_start_batch, Reader, Item, uint, other, Cbor, ReadError, bad_cbor,
  empty_array, not_uint, bad_message, protocol_error, no_fuel,
}

-- The first element of the array, as a subprotocol: a uint64 cut to 16 bits.
unfoldable pub first_subprotocol : List Item → Result ReadError Subprotocol
first_subprotocol [] = err empty_array
first_subprotocol (uint n ∷ items) = ok (n % 2 ^ 16)
first_subprotocol (other ∷ items) = err not_uint

unfoldable pub known : Protocol → Subprotocol → Result ReadError (Unit {0})
known p s = elim (protocol_to_message p s) [
  | ok _ ↦ ok tt
  | err e ↦ err (protocol_error e)
  | panic ↦ panic
]

-- The object of the table is filled; the start of a batch sets the flag.
unfoldable pub take_message : Reader → Subprotocol → Bytes → Reader
take_message r s read =
    let r1 : Reader = record r { store = store_set r.store r.protocol s read } in
    if is_start_batch (shared r.protocol s) then record r1 { batching = true } else r1

module _ (cbor : Cbor) where
  -- `nextMessage` on bytes that are not empty: the message's subprotocol, its bytes, and the bytes
  -- left over.
  unfoldable pub next_message : Reader → Bytes → Result ReadError (Subprotocol × Bytes × Bytes)
  unfolding first_subprotocol known
  next_message r data' = do
    decoded ← or_fail (cbor.unmarshal_first data') bad_cbor
    s ← first_subprotocol decoded.0
    found ← known r.protocol s
    let read : Bytes = take (length data' - length decoded.1) data'
    if cbor.unmarshal r.protocol s read then ok (s, read, decoded.1) else err bad_message

  -- The loop of `nextMessages`. A message is appended, and the object that it points to filled;
  -- after the start of a batch the loop ends.
  unfoldable pub next_messages_from :
      ℕ → Reader → Bytes → List Message → Bytes → Reader × Result ReadError (List Message × Bytes)
  unfolding next_message take_message
  next_messages_from fuel r [] messages remaining = (r, ok (messages, remaining))
  next_messages_from zero r (b ∷ data') messages remaining = (r, err no_fuel)
  next_messages_from (suc fuel) r (b ∷ data') messages remaining =
      elim (next_message r (b ∷ data')) [
        | err e ↦ (r, err e)
        | panic ↦ (r, panic)
        | ok (s, read, left) ↦
            let r' : Reader = take_message r s read in
            let messages' : List Message = messages ++ shared r.protocol s ∷ [] in
            elim r'.batching [
              | true ↦ (r', ok (messages', left))
              | false ↦ next_messages_from fuel r' left messages' left
            ]
      ]

  -- `nextMessages`; each round takes a byte at least.
  unfoldable pub next_messages : Reader → Bytes → Reader × Result ReadError (List Message × Bytes)
  unfolding next_messages_from
  next_messages r data' = next_messages_from (length data') r data' [] []
