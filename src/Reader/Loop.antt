-- ===== src/Reader/Loop.antt =====
-- `Read`: the loop over the bytes of one call, by its index `i`.
use cardano_go.Common.{
  Bool, Bytes, List, Result, [], drop, err, false, if◌then◌else◌, last?, leb, length, ltb, min,
  none, ok, panic, some, suc, take, zero, ℕ, ◌*◌, ◌++◌, ◌+◌, ◌-◌, ◌==◌,
}
use cardano_go.Reader.Defs.{
  Message, is_batch_done, Reader, reset, Cbor, ReadError, batch_left_over, read_past_end, no_fuel,
}
use cardano_go.Reader.Header.{SegmentHeader, read_header}
use cardano_go.Reader.Messages.{next_messages}
use cardano_go.Reader.Blocks.{Blocks, next_blocks}

-- The reader after a call, the messages read, and the error.
pub record Outcome : Type 0 where
  pub reader : Reader
  pub messages : List Message
  pub verdict : Result ReadError (Unit {0})

-- One round of the loop ends the call, or goes on at an index.
pub data Round : Type 0 where
  stop : Outcome → Round
  next : Reader → ℕ → List Message → Round

abbrev stopped : Reader → List Message → Result ReadError (Unit {0}) → Round
stopped r ms v = stop (record { reader = r; messages = ms; verdict = v })

-- `r.timestamp, r.protocol, r.length, err = r.readHeader(headerData)`
abbrev set_header : Reader → SegmentHeader → Reader
set_header r h = record r {
  timestamp = h.timestamp;
  protocol = h.protocol;
  seg_length = h.byte_len;
}

abbrev last_is_batch_done : List Message → Bool
last_is_batch_done ms = elim (last? ms) [ some m ↦ is_batch_done m | none ↦ false ]

-- What was written to the buffers in the branch of a batch, on its way out.
close_batch : Reader → List Message → Result ReadError Reader
close_batch r messages =
    if last_is_batch_done messages
    then if ltb 0 (length r.batch_buffer)
      then err batch_left_over
      else ok (record r { batching = false })
    else ok r

module _ (cbor : Cbor) where
  -- A whole segment is in the buffer, inside a batch.
  unfoldable pub batched_segment : Reader → ℕ → List Message → Round
  unfolding close_batch
  batched_segment r i messages =
      let r1 : Reader = record r { batch_buffer = r.batch_buffer ++ r.buffer } in
      let bs : Blocks = next_blocks cbor r1.batch_buffer in
      elim bs.verdict [
        | err e ↦ stopped r1 messages (err e)
        | panic ↦ stopped r1 messages panic
        | ok _ ↦
            let messages' : List Message = messages ++ bs.messages in
            let r2 : Reader = record r1 { batch_buffer = bs.remaining } in
            elim (close_batch r2 messages') [
              | err e ↦ stopped r2 messages' (err e)
              | panic ↦ stopped r2 messages' panic
              | ok r3 ↦ next (reset r3) i messages'
            ]
      ]

  -- A whole segment is in the buffer, outside a batch.
  unfoldable pub plain_segment : Reader → ℕ → List Message → Round
  plain_segment r i messages =
      let res : Reader × Result ReadError (List Message × Bytes) = next_messages cbor r r.buffer in
      elim res.1 [
        | err e ↦ stopped res.0 messages (err e)
        | panic ↦ stopped res.0 messages panic
        | ok (ms, remaining) ↦
            let r2 : Reader =
              if res.0.batching then record res.0 { batch_buffer = remaining } else res.0 in
            next (reset r2) i (messages ++ ms)
      ]

  -- The part of a round below the header: it moves bytes to the buffer, and takes a whole segment.
  unfoldable pub fill_buffer : Bytes → Reader → ℕ → List Message → Round
  unfolding batched_segment plain_segment
  fill_buffer data' r i messages =
      let can : ℕ = length (drop i data') in
      if ltb r.seg_length (length r.buffer)
      then stopped r messages panic
      else let should : ℕ = min (r.seg_length - length r.buffer) can in
        let r1 : Reader = record r { buffer = r.buffer ++ take should (drop i data') } in
        if length r1.buffer == r1.seg_length
        then if r1.batching
          then batched_segment r1 (i + should) messages
          else plain_segment r1 (i + should) messages
        else next r1 (i + should) messages

  -- The header part of a round, when the buffer is empty. A header that earlier calls left parts
  -- of may hold more than eight bytes: then `i` falls below zero and `data[i:]` panics.
  unfoldable pub take_header : Bytes → Reader → ℕ → List Message → Round
  unfolding fill_buffer
  take_header data' r i messages =
      let rest : Bytes = drop i data' in
      if leb (length rest) 8
      then stopped (record r { partial_header = r.partial_header ++ rest }) messages (ok tt)
      else let parsed : SegmentHeader × Result ReadError (Unit {0}) =
          read_header (r.partial_header ++ rest) in
        let r1 : Reader = set_header r parsed.0 in
        elim parsed.1 [
          | err e ↦ stopped r1 messages (err e)
          | panic ↦ stopped r1 messages panic
          | ok _ ↦
              let r2 : Reader = record r1 { partial_header = [] } in
              if ltb (i + 8) (length r.partial_header)
              then stopped r2 messages panic
              else fill_buffer data' r2 (i + 8 - length r.partial_header) messages
        ]

  unfoldable pub read_round : Bytes → Reader → ℕ → List Message → Round
  unfolding take_header fill_buffer
  read_round data' r i messages =
      if i == length data'
      then stopped r messages (ok tt)
      else if ltb (length data') i
      then stopped r messages (err read_past_end)
      else if length r.buffer == 0
      then take_header data' r i messages
      else fill_buffer data' r i messages

  unfoldable pub read_from : ℕ → Bytes → Reader → ℕ → List Message → Outcome
  read_from zero data' r i messages = record {
    reader = r;
    messages = messages;
    verdict = err no_fuel;
  }
  read_from (suc fuel) data' r i messages = elim (read_round data' r i messages) [
    | stop o ↦ o
    | next r' i' messages' ↦ read_from fuel data' r' i' messages'
  ]

  -- `MessageReader.Read`. A round reads a byte, or ends a segment, or uses up a split header.
  unfoldable pub read : Reader → Bytes → Outcome
  unfolding read_from read_round
  read r data' = read_from (2 * length data' + 3) data' r 0 []
