-- ===== src/Reader/Frames.antt =====
-- `Read` on segments, in the form in which `MarshalDataItem` of segment.go writes them.
use cardano_go.Common.{
  Bytes, List, [], arith, length, length-append, ok, panic, refl, ℕ, ◌%◌, ◌++◌, ◌+◌, ◌/◌, ◌<◌, ◌^◌,
  ◌≡◌, ◌≤◌, ◌⊎◌,
}
use cardano_go.Segment.Wire.{put_u16, put_u32, get_u16-put_u16}
use cardano_go.Reader.Defs.{Message, Reader, Cbor}
use cardano_go.Reader.Header.{SegmentHeader, read_header, protocol_of}
use cardano_go.Reader.Loop.{Outcome, stop, take_header, read_round, read_from, read}

protocol_of-put :
    (p q : ℕ) → p ≤ 10 → (q ≡ p) ⊎ (q ≡ p + 2 ^ 15) → protocol_of (q / 256 % 256) (q % 256) ≡ p
protocol_of-put p q small dir = ground arith

-- A header that was written for a protocol up to 10, with or without the direction bit, reads back.
pub read_header-put :
    (t p n q : ℕ) (rest : Bytes)
    → p ≤ 10
    → n < 2 ^ 16
    → (q ≡ p) ⊎ (q ≡ p + 2 ^ 15)
    → read_header (put_u32 t ++ (put_u16 q ++ (put_u16 n ++ rest)))
      ≡ (record { timestamp = put_u32 t; protocol = p; byte_len = n }, ok tt)
unfolding read_header
read_header-put t p n q rest small fits dir =
    rw (protocol_of-put p q small dir, get_u16-put_u16 n fits) ground arith

module _ (cbor : Cbor) where
  take_header-short :
      (data' : Bytes) (r : Reader) (ms : List Message)
      → length data' ≤ 8
      → take_header cbor data' r 0 ms
        ≡ stop (record {
          reader = record r { partial_header = r.partial_header ++ data' };
          messages = ms;
          verdict = ok tt;
        })
  unfolding take_header
  take_header-short data' r ms short = ground arith

  -- At most eight bytes, between segments, are kept as part of a header.
  read-short :
      (r : Reader) (data' : Bytes)
      → r.buffer ≡ []
      → 0 < length data'
      → length data' ≤ 8
      → read cbor r data' ≡ record {
        reader = record r { partial_header = r.partial_header ++ data' };
        messages = [];
        verdict = ok tt;
      }
  unfolding read read_from read_round
  read-short r data' idle some' short = ground (arith, take_header-short data' r [] short)

  abbrev broken : Reader → SegmentHeader → Outcome
  broken r h = record {
    reader = record r {
      timestamp = h.timestamp;
      protocol = h.protocol;
      seg_length = h.byte_len;
      partial_header = [];
    };
    messages = [];
    verdict = panic;
  }

  take_header-split :
      (data' : Bytes) (r : Reader)
      → 8 < length data'
      → 8 < length r.partial_header
      → (h : SegmentHeader) → read_header (r.partial_header ++ data') ≡ (h, ok tt)
      → take_header cbor data' r 0 [] ≡ stop (broken r h)
  unfolding take_header
  take_header-split data' r long split h good = rw (good) ground arith

  read-split_header :
      (r : Reader) (data' : Bytes)
      → r.buffer ≡ []
      → 8 < length data'
      → 8 < length r.partial_header
      → (h : SegmentHeader) → read_header (r.partial_header ++ data') ≡ (h, ok tt)
      → (read cbor r data').verdict ≡ panic
  unfolding read read_from read_round
  read-split_header r data' idle long split h good =
      ground (arith, take_header-split data' r long split h good)

  -- A reader between segments that keeps nothing. Two parts of at most eight bytes, more than eight
  -- together, and then a part of more than eight, which completes a correct header: the first two
  -- calls of `Read` succeed, and the third panics.
  pub read-in_parts :
      (r : Reader) (a b c : Bytes) (h : SegmentHeader)
      → r.buffer ≡ []
      → r.partial_header ≡ []
      → 0 < length a
      → length a ≤ 8
      → 0 < length b
      → length b ≤ 8
      → 8 < length a + length b
      → 8 < length c
      → read_header ((a ++ b) ++ c) ≡ (h, ok tt)
      → ((read cbor r a).verdict ≡ ok tt)
        × ((read cbor (read cbor r a).reader b).verdict ≡ ok tt)
        × ((read cbor (read cbor (read cbor r a).reader b).reader c).verdict ≡ panic)
  read-in_parts r a b c h idle fresh a0 a8 b0 b8 long rest good =
      let r1 : Reader = record r { partial_header = r.partial_header ++ a } in
      let r2 : Reader = record r1 { partial_header = r1.partial_header ++ b } in
      let same : r2.partial_header ≡ a ++ b = rw (fresh) refl in
      let kept : 8 < length r2.partial_header =
        rw (same) (omega (arith, length-append a b, long)) in
      let good2 : read_header (r2.partial_header ++ c) ≡ (h, ok tt) = rw (same) good in
      rw (read-short r a idle a0 a8, read-short r1 b idle b0 b8)
        (refl, refl, read-split_header r2 c idle rest kept h good2)
