-- ===== src/Reader/Header.antt =====
-- `readHeader`: eight bytes, of a timestamp, a protocol whose top bit tells the direction, and the
-- length of the payload.
use cardano_go.Common.{Bytes, Result, [], err, if◌then◌else◌, length, ltb, ok, ℕ, ◌-◌, ◌==◌, ◌∷◌}
use cardano_go.Segment.Wire.{get_u16}
use cardano_go.Reader.Defs.{ReadError, short_header, wrong_protocol}

-- What `readHeader` gives back, which the caller stores also beside an error.
pub record SegmentHeader : Type 0 where
  pub timestamp : Bytes
  pub protocol : ℕ
  pub byte_len : ℕ

-- `protocol -= 32768` where the high byte is 0x80.
abbrev pub protocol_of : ℕ → ℕ → ℕ
protocol_of hi lo = if hi == 0x80 then get_u16 hi lo - 32768 else get_u16 hi lo

unfoldable pub read_header : Bytes → SegmentHeader × Result ReadError (Unit {0})
read_header (t1 ∷ t2 ∷ t3 ∷ t4 ∷ p1 ∷ p2 ∷ l1 ∷ l2 ∷ rest) =
    let timestamp : Bytes = t1 ∷ t2 ∷ t3 ∷ t4 ∷ [] in
    let p : ℕ = protocol_of p1 p2 in
    if ltb 10 p
    then (record { timestamp = timestamp; protocol = p; byte_len = 0 }, err (wrong_protocol p))
    else (record { timestamp = timestamp; protocol = p; byte_len = get_u16 l1 l2 }, ok tt)
read_header data' =
    (record { timestamp = []; protocol = 0; byte_len = 0 }, err (short_header (length data')))
