-- ===== src/Address/Bits.antt =====
-- `AddressHeader.toBytes` and `fromBytes`: a header byte as eight bytes, one for each bit, the
-- highest bit first. A Go array is a list of its length.
use cardano_go.Common.{
  ==_iff, Bytes, IsByte, all_below, all_below_sound, bit_and, bit_or, get_or, if◌then◌else◌, ltb,
  refl, replicate, set, suc, true, zero, ℕ, ◌+◌, ◌-◌, ◌==◌, ◌^◌, ◌≡◌,
}

-- `for i := 0; i < 8; i++`, with the rounds left.
to_bytes_from : ℕ → ℕ → ℕ → Bytes → Bytes
to_bytes_from zero i a extracted = extracted
to_bytes_from (suc rounds) i a extracted =
    to_bytes_from rounds (i + 1) a
      (if ltb 0 (bit_and a (2 ^ i)) then set extracted (7 - i) 1 else extracted)

-- `AddressHeader.toBytes`
unfoldable pub to_bytes : ℕ → Bytes
unfolding to_bytes_from
to_bytes a = to_bytes_from 8 0 a (replicate 8 0)

from_bytes_from : ℕ → ℕ → Bytes → ℕ → ℕ
from_bytes_from zero i bits x = x
from_bytes_from (suc rounds) i bits x =
    from_bytes_from rounds (i + 1) bits
      (if ltb 0 (get_or bits (7 - i) 0) then bit_or x (2 ^ i) else x)

-- `AddressHeader.fromBytes`
unfoldable pub from_bytes : Bytes → ℕ
unfolding from_bytes_from
from_bytes bits = from_bytes_from 8 0 bits 0

round_trip_table : all_below 256 (λ a. from_bytes (to_bytes a) == a) ≡ true
unfolding all_below from_bytes to_bytes
round_trip_table = refl

-- Packing the eight bits of a byte gives the byte back.
from_bytes-to_bytes : (a : ℕ) → IsByte a → from_bytes (to_bytes a) ≡ a
from_bytes-to_bytes a h = (==_iff _ a).0 (all_below_sound 256 _ a round_trip_table h)
