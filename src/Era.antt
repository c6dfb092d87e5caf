-- ===== src/Era.antt =====
-- era.go: the eras, their names and their CBOR decoding. An era is a uint64.
use cardano_go.Common.{
  Bool, Bytes, Option, Result, [], arith, codes, err, if◌then◌else◌, leb, none, not, ok, some, true,
  ℕ, ◌&&◌, ◌==◌, ◌↔◌, ◌∷◌, ◌≡◌, ◌≢◌, ◌⊎◌,
}

abbrev pub Era : Type 0
Era = ℕ

abbrev pub era_byron_ebb : Era
era_byron_ebb = 0

abbrev pub era_conway : Era
era_conway = 7

-- `EraStringMap`, looked up.
unfoldable pub era_string_map : Era → Option Bytes
era_string_map e =
    if e == 0
    then some (codes "ByronEBB")
    else if e == 1
    then some (codes "Byron")
    else if e == 2
    then some (codes "Shelley")
    else if e == 3
    then some (codes "Allegra")
    else if e == 4
    then some (codes "Mary")
    else if e == 5
    then some (codes "Alonzo")
    else if e == 6
    then some (codes "Babbage")
    else if e == 7
    then some (codes "Conway")
    else none

-- `Era.Valid`
unfoldable pub valid : Era → Bool
valid e = leb era_byron_ebb e && leb e era_conway

-- `Era.RawString`
unfoldable pub raw_string : Era → Bytes
unfolding era_string_map
raw_string e = elim (era_string_map e) [ some s ↦ s | none ↦ codes "Unknown" ]

pub data EraError : Type 0 where
  not_enough_bytes : ℕ → EraError
  unexpected_tag : ℕ → EraError

-- `Era.UnmarshalCBOR`
unfoldable pub unmarshal_cbor : Bytes → Result EraError Era
unmarshal_cbor [] = err (not_enough_bytes 0)
unmarshal_cbor (b ∷ []) = ok b
unmarshal_cbor (b ∷ e ∷ rest) = if not (b == 0x82) then err (unexpected_tag b) else ok e

-- An era is valid exactly when it has a name of its own.
valid-raw_string : (e : Era) → (valid e ≡ true) ↔ (raw_string e ≢ codes "Unknown")
unfolding valid raw_string
valid-raw_string e = (λ h. ground arith, λ h. ground arith)

-- The two encodings of an era, bare and behind the tag 0x82, decode to the same era, whatever
-- follows it; every input that decodes is one of the two.
pub unmarshal_cbor_forms :
    (data' : Bytes) (e : Era)
    → (unmarshal_cbor data' ≡ ok e)
      ↔ ((data' ≡ e ∷ []) ⊎ ((rest : Bytes) × (data' ≡ 0x82 ∷ e ∷ rest)))
unfolding unmarshal_cbor
unmarshal_cbor_forms [] e = (λ h. ground arith, λ h. ground arith)
unmarshal_cbor_forms (b ∷ []) e = (λ h. ground arith, λ h. ground arith)
unmarshal_cbor_forms (b ∷ x ∷ rest) e = (λ h. ground arith, λ h. ground arith)
