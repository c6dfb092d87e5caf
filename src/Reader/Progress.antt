-- ===== src/Reader/Progress.antt =====
-- `Read` comes to an end: each round makes progress, and the fuel of the model is enough.
use cardano_go.Common.{
  Bytes, List, [], ap, arith, drop, err, if◌then◌else◌, inl, inr, length, length-append,
  length-drop, min, refl, suc, take, zero, ℕ, ◌*◌, ◌++◌, ◌+◌, ◌-◌, ◌<◌, ◌==◌, ◌∷◌, ◌≡◌, ◌≢◌, ◌≤◌,
  ◌⊎◌,
}
use cardano_go.Reader.Header.{SegmentHeader, read_header}
use cardano_go.Reader.Defs.{Message, Reader, Cbor, no_fuel}
use cardano_go.Reader.Fuel.{CborLaws, next_messages-fuel, next_messages-partial, next_blocks-fuel}
use cardano_go.Reader.Loop.{
  Round, stop, next, batched_segment, plain_segment, fill_buffer, read, read_from, read_round,
  take_header, Outcome,
}

-- What a round still has before it: the bytes to read, a split header to use up, and a whole
-- segment to hand over.
abbrev ahead : Bytes → Reader → ℕ → ℕ
ahead data' r i =
    2 * (length data' - i)
    + (if length r.partial_header == 0 then 0 else 1)
    + (if length r.buffer == 0 then 0 else if length r.buffer == r.seg_length then 1 else 0)

-- Parts of a header are kept only while no segment is under way.
abbrev pub IsSettled : Reader → Type 0
IsSettled r = (length r.partial_header ≡ 0) ⊎ (length r.buffer ≡ 0)

abbrev Advances : Bytes → ℕ → Round → Type 0
Advances data' n (stop o) = (o.verdict ≢ err no_fuel) × IsSettled o.reader
Advances data' n (next r i ms) = (ahead data' r i < n) × (length r.partial_header ≡ 0)

read_header-fuel : (d : Bytes) → (read_header d).1 ≢ err no_fuel
unfolding read_header
read_header-fuel (t1 ∷ t2 ∷ t3 ∷ t4 ∷ p1 ∷ p2 ∷ l1 ∷ l2 ∷ rest) h = ground arith
read_header-fuel _ h = cc

module _ (cbor : Cbor) (laws : CborLaws cbor) where
  batched_segment-Advances :
      (data' : Bytes) (n : ℕ) (r : Reader) (i : ℕ) (ms : List Message)
      → length r.partial_header ≡ 0
      → 2 * (length data' - i) < n
      → Advances data' n (batched_segment cbor r i ms)
  unfolding batched_segment
  batched_segment-Advances data' n r i ms p h =
      ground (arith, next_blocks-fuel cbor laws (r.batch_buffer ++ r.buffer))

  plain_segment-Advances :
      (data' : Bytes) (n : ℕ) (r : Reader) (i : ℕ) (ms : List Message)
      → length r.partial_header ≡ 0
      → 2 * (length data' - i) < n
      → Advances data' n (plain_segment cbor r i ms)
  unfolding plain_segment
  plain_segment-Advances data' n r i ms p h = ground (
    arith,
    next_messages-fuel cbor laws r r.buffer,
    ap length (next_messages-partial cbor laws r r.buffer),
  )

  -- It moves a byte, or something is left to spare.
  fill_buffer-Advances :
      (data' : Bytes) (n : ℕ) (r : Reader) (i : ℕ) (ms : List Message)
      → length r.partial_header ≡ 0
      → (2 * (length data' - i) < n)
        ⊎ ((2 * (length data' - i) ≤ n) × (length r.buffer < r.seg_length) × (i < length data'))
      → Advances data' n (fill_buffer cbor data' r i ms)
  unfolding fill_buffer
  fill_buffer-Advances data' n r i ms p room =
      let k : ℕ = min (r.seg_length - length r.buffer) (length (drop i data')) in
      let chunk : Bytes = take k (drop i data') in
      let r1 : Reader = record r { buffer = r.buffer ++ chunk } in
      ground (
        arith,
        length-drop i data',
        length-append r.buffer chunk,
        batched_segment-Advances data' n r1 (i + k) ms,
        plain_segment-Advances data' n r1 (i + k) ms,
      )

  take_header-Advances :
      (data' : Bytes) (r : Reader) (i : ℕ) (ms : List Message)
      → length r.buffer ≡ 0
      → (i ≡ 0) ⊎ (length r.partial_header ≡ 0)
      → Advances data' (ahead data' r i) (take_header cbor data' r i ms)
  unfolding take_header
  take_header-Advances data' r i ms empty start =
      let parsed : SegmentHeader = (read_header (r.partial_header ++ drop i data')).0 in
      let r2 : Reader = record r {
        timestamp = parsed.timestamp;
        protocol = parsed.protocol;
        seg_length = parsed.byte_len;
        partial_header = [];
      } in
      ground (
        arith,
        length-drop i data',
        read_header-fuel (r.partial_header ++ drop i data'),
        fill_buffer-Advances data' (ahead data' r i) r2 (i + 8 - length r.partial_header) ms,
      )

  read_round-Advances :
      (data' : Bytes) (r : Reader) (i : ℕ) (ms : List Message)
      → IsSettled r
      → (i ≡ 0) ⊎ (length r.partial_header ≡ 0)
      → Advances data' (ahead data' r i) (read_round cbor data' r i ms)
  unfolding read_round
  read_round-Advances data' r i ms settled start = ground (
    arith,
    take_header-Advances data' r i ms,
    fill_buffer-Advances data' (ahead data' r i) r i ms,
  )

  Ends : Outcome → Type 0
  Ends o = (o.verdict ≢ err no_fuel) × IsSettled o.reader

  read_from-Ends :
      (fuel : ℕ) (data' : Bytes) (r : Reader) (i : ℕ) (ms : List Message)
      → ahead data' r i < fuel
      → IsSettled r
      → (i ≡ 0) ⊎ (length r.partial_header ≡ 0)
      → Ends (read_from cbor fuel data' r i ms)
  unfolding read_from Ends
  read_from-Ends zero data' r i ms h settled start = absurd (omega arith)
  read_from-Ends (suc fuel) data' r i ms h settled start =
      go (read_round cbor data' r i ms) refl (read_round-Advances data' r i ms settled start)
        (read_from-Ends fuel data')
    where
      go :
          (x : Round)
          → read_round cbor data' r i ms ≡ x
          → Advances data' (ahead data' r i) x
          → ((r' : Reader) (i' : ℕ) (ms' : List Message)
              → ahead data' r' i' < fuel
              → IsSettled r'
              → (i' ≡ 0) ⊎ (length r'.partial_header ≡ 0)
              → Ends (read_from cbor fuel data' r' i' ms'))
          → Ends (read_from cbor (suc fuel) data' r i ms)
      go (stop o) f a ih = rw (f, read_from) a
      go (next r' i' ms') f a ih =
          rw (f, read_from) (ih r' i' ms' (omega arith) (inl a.1) (inr a.1))

  -- With a CBOR package that keeps its laws, `Read` comes to an end on every input, for every reader
  -- that does not keep parts of a header while a segment is under way, and leaves such a reader
  -- behind, on an error too.
  pub read-IsSettled :
      (r : Reader) (data' : Bytes)
      → IsSettled r
      → ((read cbor r data').verdict ≢ err no_fuel) × IsSettled (read cbor r data').reader
  unfolding read Ends
  read-IsSettled r data' settled =
      read_from-Ends (2 * length data' + 3) data' r 0 [] (ground arith) settled (inl refl)
