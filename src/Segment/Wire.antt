-- ===== src/Segment/Wire.antt =====
-- `binary.BigEndian` on 16 and 32 bits.
use cardano_go.Common.{Bytes, [], arith, ℕ, ◌%◌, ◌*◌, ◌+◌, ◌/◌, ◌<◌, ◌^◌, ◌∷◌, ◌≡◌}

-- `PutUint16`
abbrev pub put_u16 : ℕ → Bytes
put_u16 n = (n / 256 % 256) ∷ (n % 256) ∷ []

-- `PutUint32`
abbrev pub put_u32 : ℕ → Bytes
put_u32 n = (n / 2 ^ 24 % 256) ∷ (n / 2 ^ 16 % 256) ∷ (n / 256 % 256) ∷ (n % 256) ∷ []

-- `Uint16` of two bytes.
abbrev pub get_u16 : ℕ → ℕ → ℕ
get_u16 hi lo = hi * 256 + lo

pub get_u16-put_u16 : (n : ℕ) → n < 2 ^ 16 → get_u16 (n / 256 % 256) (n % 256) ≡ n
get_u16-put_u16 n h = omega arith
