-- ===== src/Block/Points.antt =====
-- protocol.go: `Point`; block.go: its decoding.
use cardano_go.Common.{
  Bool, Bytes, List, Option, Result, [], arith, bytes_eq, bytes_eq_iff, eq_of_bytes_eq, err, none,
  ok, panic, replicate, some, true, ℕ, ◌&&◌, ◌==◌, ◌↔◌, ◌∷◌, ◌≡◌,
}

pub record Point : Type 0 where
  pub slot : ℕ
  pub hash : Bytes

pub record PointAndBlockNum : Type 0 where
  pub point : Point
  pub block : ℕ

-- `NewPoint`
abbrev pub new_point : Point
new_point = record { slot = 0; hash = replicate 32 0 }

-- `Point.Equals`
unfoldable pub equals : Point → Point → Bool
equals p o = p.slot == o.slot && bytes_eq p.hash o.hash

-- `PointAndBlockNum.Equals`
unfoldable pub equals_num : PointAndBlockNum → PointAndBlockNum → Bool
unfolding equals
equals_num t o = equals t.point o.point && t.block == o.block

-- What the CBOR package makes of an element of a list: a uint64, bytes, or else.
pub data Element : Type 0 where
  uint : ℕ → Element
  bytes : Bytes → Element
  other : Element

-- What it makes of the input: a list, or else.
pub data Decoded : Type 0 where
  list : List Element → Decoded
  scalar : Decoded

pub data PointError : Type 0 where
  cbor_failed unexpected_format not_a_list : PointError

-- `Point.UnmarshalCBOR`; a type assertion that does not hold panics.
unfoldable pub unmarshal_point : Option Decoded → Result PointError Point
unmarshal_point none = err cbor_failed
unmarshal_point (some scalar) = err not_a_list
unmarshal_point (some (list [])) = ok (record { slot = 0; hash = [] })
unmarshal_point (some (list (x ∷ []))) = err unexpected_format
unmarshal_point (some (list (uint n ∷ bytes h ∷ []))) = ok (record { slot = n; hash = h })
unmarshal_point (some (list (x ∷ y ∷ []))) = panic
unmarshal_point (some (list (x ∷ y ∷ z ∷ rest))) = err unexpected_format

-- Points are equal by `Equals` exactly where their slots and hashes are the same.
equals_iff : (p o : Point) → (equals p o ≡ true) ↔ ((p.slot ≡ o.slot) × (p.hash ≡ o.hash))
unfolding equals
equals_iff p o = (
  λ h. (ground (arith, h), eq_of_bytes_eq p.hash o.hash (ground (arith, h))),
  λ (a, b). ground (arith, a, (bytes_eq_iff p.hash o.hash).1 b),
)
