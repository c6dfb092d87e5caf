-- ===== src/Protocol/Optional.antt =====
-- protocol.go: `Optional`. The CBOR and JSON packages are arguments: their forms of a value, and
-- what they leave in a pointer to one, with the text of their error.
use cardano_go.Common.{
  Bool, Bytes, Option, [], bytes_eq, codes, false, if◌then◌else◌, none, some, true, ◌∷◌,
}

pub record Optional {ℓ} (V : Type ℓ) : Type ℓ where
  pub valid : Bool
  pub value : Option V

-- `cbor.Marshal([]any{})`
abbrev pub empty_array : Bytes
empty_array = 0x80 ∷ []

abbrev pub null : Bytes
null = codes "null"

abbrev pub is_text : Bytes → Option Bytes → Bool
is_text s none = false
is_text s (some e) = bytes_eq e s

-- The value that is written: `!f.Valid || f.Value == nil` finds none.
abbrev pub held {ℓ} : {V : Type ℓ} → Optional V → Option V
held o = if o.valid then o.value else none

module _ {ℓ} {V : Type ℓ} (marshal : V → Option Bytes)
    (unmarshal : Bytes → Option V → Option V × Option Bytes) where
  -- What is written where nothing is held, and else.
  abbrev pub marshal_or : Bytes → Option V → Option Bytes
  marshal_or absent none = some absent
  marshal_or absent (some v) = marshal v

  -- `Optional.MarshalCBOR`
  unfoldable pub marshal_cbor : Optional V → Option Bytes
  marshal_cbor o = marshal_or empty_array (held o)

  -- `Optional.UnmarshalCBOR`, with the optional after the call.
  unfoldable pub unmarshal_cbor : Bytes → Optional V → Optional V × Option Bytes
  unmarshal_cbor bytes o =
      let (value, e) = unmarshal bytes o.value in
      if is_text (codes "empty") e
      then (record { valid = false; value = value }, none)
      else (record { valid = true; value = value }, e)

  -- `Optional.MarshalJSON`
  unfoldable pub marshal_json : Optional V → Option Bytes
  marshal_json o = marshal_or null (held o)

  -- `Optional.UnmarshalJSON`
  unfoldable pub unmarshal_json : Bytes → Optional V → Optional V × Option Bytes
  unmarshal_json bytes o =
      let (value, e) = unmarshal bytes o.value in (record { valid = true; value = value }, e)
