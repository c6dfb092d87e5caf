-- ===== src/Reader/Whole.antt =====
-- `Read` on one whole segment outside a batch.
use cardano_go.Common.{
  All, Bytes, List, [], ap, append-nil, arith, drop, false, length, ltb, min, ok, refl, sym, take,
  take-append, true, ℕ, ◌++◌, ◌+◌, ◌-◌, ◌<◌, ◌==◌, ◌^◌, ◌∙◌, ◌≡◌, ◌≤◌, ◌⊎◌,
}
use cardano_go.Reader.Messages.{next_messages}
use cardano_go.Segment.Wire.{put_u16, put_u32}
use cardano_go.Reader.Header.{SegmentHeader, read_header}
use cardano_go.Reader.Frames.{read_header-put}
use cardano_go.Reader.Defs.{Message, Reader, reset, Cbor}
use cardano_go.Reader.Alias.{Encoded, Decodes, wire, fill, pointers, next_messages-wire}
use cardano_go.Reader.Loop.{
  next, fill_buffer, plain_segment, take_header, read, read_from, read_round,
}

-- A reader between segments, outside a batch.
abbrev pub idle : Reader → Reader
idle r = record (reset r) { partial_header = []; batching = false }

-- The bytes of a frame with a timestamp, a protocol field and messages.
abbrev frame_of : ℕ → ℕ → List Encoded → Bytes
frame_of t q es = put_u32 t ++ (put_u16 q ++ (put_u16 (length (wire es)) ++ wire es))

-- What a frame of a protocol with these messages leaves behind.
abbrev pub after : Reader → ℕ → List Encoded → Reader
after r p es = record (idle r) { store = fill p r.store es }

module _ (cbor : Cbor) where
  plain_segment-ok :
      (r r' : Reader) (i : ℕ) (ms : List Message) (left : Bytes)
      → next_messages cbor r r.buffer ≡ (r', ok (ms, left))
      → r'.batching ≡ false
      → plain_segment cbor r i [] ≡ next (reset r') i ms
  unfolding plain_segment
  plain_segment-ok r r' i ms left h b = ground (arith, h, b)

  plain_segment-wire :
      (r : Reader) (i : ℕ) (es : List Encoded)
      → All (Decodes cbor r.protocol) es
      → r.batching ≡ false
      → plain_segment cbor (record r { buffer = wire es }) i []
        ≡ next (reset (record r { store = fill r.protocol r.store es })) i (pointers r.protocol es)
  plain_segment-wire r i es h b =
      plain_segment-ok (record r { buffer = wire es })
        (record r { buffer = wire es; store = fill r.protocol r.store es }) i
        (pointers r.protocol es) [] (next_messages-wire cbor (record r { buffer = wire es }) es h b)
        b

  fill_buffer-plain :
      (data' bytes : Bytes) (r : Reader) (i : ℕ)
      → r.batching ≡ false
      → r.buffer ≡ []
      → r.seg_length ≡ length bytes
      → drop i data' ≡ bytes
      → fill_buffer cbor data' r i []
        ≡ plain_segment cbor (record r { buffer = bytes }) (i + length bytes) []
  unfolding fill_buffer
  fill_buffer-plain data' bytes r i b e n d =
      let can : length (drop i data') ≡ length bytes = ap length d in
      let buffered : length r.buffer ≡ 0 = ap length e in
      let should : min (r.seg_length - length r.buffer) (length (drop i data')) ≡ length bytes =
        omega (arith, n, can, buffered) in
      let all : r.buffer ++ take (length bytes) (drop i data') ≡ bytes =
        rw (e, d)
          (ap (λ (l : Bytes). take (length bytes) l) (sym (append-nil bytes))
            ∙ take-append bytes []) in
      let fits : ltb r.seg_length (length r.buffer) ≡ false = ground (arith, buffered) in
      let complete : (length bytes == r.seg_length) ≡ true = ground (arith, n) in
      rw (fill_buffer, fits, should, all, complete, b) refl

  take_header-good :
      (data' : Bytes) (r : Reader) (h : SegmentHeader)
      → 8 < length data'
      → read_header data' ≡ (h, ok tt)
      → take_header cbor data' (idle r) 0 []
        ≡ fill_buffer cbor data'
            (record (idle r) {
              timestamp = h.timestamp;
              protocol = h.protocol;
              seg_length = h.byte_len;
            })
            8
            []
  unfolding take_header
  take_header-good data' r h long good = ground (arith, long, good)

  read-one :
      (data' : Bytes) (r r' : Reader) (ms : List Message)
      → 0 < length data'
      → take_header cbor data' (idle r) 0 [] ≡ next r' (length data') ms
      → read cbor (idle r) data' ≡ record { reader = r'; messages = ms; verdict = ok tt }
  unfolding read read_from read_round
  read-one data' r r' ms some' h = ground (arith, some', h)

  take_header-whole :
      (r : Reader) (t p q : ℕ) (es : List Encoded)
      → p ≤ 10
      → (q ≡ p) ⊎ (q ≡ p + 2 ^ 15)
      → length (wire es) < 2 ^ 16
      → 0 < length (wire es)
      → All (Decodes cbor p) es
      → take_header cbor (frame_of t q es) (idle r) 0 []
        ≡ next (after r p es) (length (frame_of t q es)) (pointers p es)
  take_header-whole r t p q es small dir fits some' h =
      let n : ℕ = length (wire es) in
      let r2 : Reader = record (idle r) { timestamp = put_u32 t; protocol = p; seg_length = n } in
      let long : 8 < length (frame_of t q es) = omega (arith, some') in
      let count : 8 + n ≡ length (frame_of t q es) = omega arith in
      take_header-good (frame_of t q es) r
        (record { timestamp = put_u32 t; protocol = p; byte_len = n }) long
        (read_header-put t p n q (wire es) small fits dir)
      ∙ fill_buffer-plain (frame_of t q es) (wire es) r2 8 refl refl refl refl
      ∙ plain_segment-wire r2 (8 + n) es h refl
      ∙ ap (λ (i : ℕ). next (after r p es) i (pointers p es)) count

  -- A whole frame of a protocol up to 10 with messages that start no batch, with either direction
  -- bit, given to a reader that is between segments and outside a batch: `Read` gives out a pointer
  -- for each message, in order, with no error, and leaves such a reader, whose objects were filled
  -- from the messages one after the other.
  pub read-frame :
      (r : Reader) (t p q : ℕ) (es : List Encoded)
      → p ≤ 10
      → (q ≡ p) ⊎ (q ≡ p + 2 ^ 15)
      → length (wire es) < 2 ^ 16
      → 0 < length (wire es)
      → All (Decodes cbor p) es
      → read cbor (idle r) (frame_of t q es)
        ≡ record { reader = after r p es; messages = pointers p es; verdict = ok tt }
  read-frame r t p q es small dir fits some' h =
      read-one (frame_of t q es) r (after r p es) (pointers p es) (omega (arith, some'))
        (take_header-whole r t p q es small dir fits some' h)
