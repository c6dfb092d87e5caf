-- ===== src/Util/Tags.antt =====
-- util.go: `WithCborTag`. The CBOR package is an argument: its form of an integer, what it reads of
-- one and the rest, and its forms of a value.
use cardano_go.Common.{
  Bytes, Option, Result, [], ap, arith, err, if◌then◌else◌, ltb, none, ok, or_fail, panic, refl,
  some, sym, true, ℕ, ◌%◌, ◌++◌, ◌+◌, ◌<◌, ◌∙◌, ◌∷◌, ◌≡◌,
}

-- A tag of 0 or below is none.
pub record WithCborTag {ℓ} (V : Type ℓ) : Type ℓ where
  pub tag : ℕ
  pub value : V

-- `out[0] += 0xC0` and `b[0] -= 0xC0`, on bytes.
abbrev pub add_to_first : ℕ → Bytes → Bytes
add_to_first n [] = []
add_to_first n (b ∷ s) = (b + n) % 256 ∷ s

-- What the package documents of an integer above 0: its head is one of the major type 0, and is
-- not that of the integer 0; it reads back what it wrote, and gives the bytes behind it.
pub record IntLaws (marshal_int : ℕ → Bytes) (first_int : Bytes → Option (ℕ × Bytes)) : Type 0 where
  pub head :
      (n : ℕ) → 0 < n → (b : ℕ) × ((s : Bytes) × (marshal_int n ≡ b ∷ s) × (0 < b) × (b < 32))
  pub back : (n : ℕ) (rest : Bytes) → first_int (marshal_int n ++ rest) ≡ some (n, rest)

module _ {ℓ} {V : Type ℓ} (marshal_int : ℕ → Bytes) (first_int : Bytes → Option (ℕ × Bytes))
    (marshal : V → Option Bytes) (unmarshal : Bytes → Option V) (zero_tag : ℕ) where
  -- `WithCborTag.MarshalCBOR`
  unfoldable pub marshal_cbor : WithCborTag V → Option Bytes
  marshal_cbor w = elim (marshal w.value) [
    | none ↦ none
    | some s ↦ some (if ltb 0 w.tag then add_to_first 0xC0 (marshal_int w.tag) ++ s else s)
  ]

  -- The value behind a tag.
  abbrev pub with_value : ℕ → Bytes → Option (WithCborTag V)
  with_value tag s = elim (unmarshal s) [
    | none ↦ none
    | some v ↦ some (record { tag = tag; value = v })
  ]

  -- `WithCborTag.UnmarshalCBOR`: the difference of two bytes is above 0 unless they are equal; the
  -- tag is `zero_tag` before.
  unfoldable pub unmarshal_cbor : Bytes → Result (Unit {0}) (WithCborTag V)
  unmarshal_cbor [] = panic
  unmarshal_cbor (b ∷ s) =
      let plain : Result (Unit {0}) (WithCborTag V) = or_fail (with_value zero_tag (b ∷ s)) tt in
      if ltb 0 ((b + 64) % 256)
      then elim (first_int (add_to_first 64 (b ∷ s))) [
        | none ↦ err tt
        | some x ↦ or_fail (with_value x.0 x.1) tt
      ]
      else plain

  unmarshal_cbor-tagged :
      (b : ℕ) (s rest : Bytes) (n : ℕ)
      → 0 < b
      → b < 32
      → first_int (b ∷ s) ≡ some (n, rest)
      → unmarshal_cbor ((b + 0xC0) % 256 ∷ s) ≡ or_fail (with_value n rest) tt
  unfolding unmarshal_cbor
  unmarshal_cbor-tagged b s rest n pos small e =
      let shifted : ((b + 0xC0) % 256 + 64) % 256 ≡ b = omega (arith, small) in
      let test : ltb 0 (((b + 0xC0) % 256 + 64) % 256) ≡ true = ground (arith, shifted, pos) in
      rw (unmarshal_cbor, test, shifted, e) refl

  -- A value with a tag above 0 is read back, with its tag, from the bytes that are written for it,
  -- where the package reads back its own integers and this value.
  unmarshal_cbor-marshal_cbor :
      IntLaws marshal_int first_int
      → (w : WithCborTag V) (s : Bytes) → 0 < w.tag
      → marshal w.value ≡ some s
      → unmarshal s ≡ some w.value
      → (out : Bytes) × (marshal_cbor w ≡ some out) × (unmarshal_cbor out ≡ ok w)
  unfolding marshal_cbor
  unmarshal_cbor-marshal_cbor laws w s pos e f =
      let (b, (t, g, above, small)) = laws.head w.tag pos in
      let above_zero : ltb 0 w.tag ≡ true = ground (arith, pos) in
      let read : first_int (b ∷ t ++ s) ≡ some (w.tag, s) =
        ap (λ (x : Bytes). first_int (x ++ s)) (sym g) ∙ laws.back w.tag s in
      (
        (b + 0xC0) % 256 ∷ t ++ s,
        rw (marshal_cbor, e, above_zero, g) refl,
        unmarshal_cbor-tagged b (t ++ s) s w.tag above small read ∙ rw (or_fail, f) refl,
      )
