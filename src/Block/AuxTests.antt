-- ===== src/Block/AuxTests.antt =====
-- Runs over auxiliary data.
use cardano_go.Block.Memo.{tx_memo}
use cardano_go.Block.Points.{scalar}
use mathlib.Core.List.Permᴰ
use cardano_go.Common.{
  Bytes, [], arith, bytes_eq, codes, length, ok, panic, refl, some, true, ◌%◌, ◌+◌, ◌/◌, ◌∷◌, ◌≡◌,
}
use cardano_go.Block.AuxValue.{
  Scalar, Decoded, Kept, uint, table, text, keep, entry, array, scalar, item, no_items, no_entries,
}
use cardano_go.Block.AuxData.{
  AuxData, Encoder, unmarshal_cbor, MapOrder, marshal_cbor, set_memo, unset, kept,
}
use cardano_go.Block.AuxSpec.{Encodes}
use cardano_go.Block.AuxTrip.{marshal_cbor-unmarshal_cbor, tx_memo-set_memo}

abbrev short : Scalar → Bytes
short (uint n) = n ∷ []
short (text s) = (96 + length s) ∷ s
short _ = []

abbrev encoder : Encoder
encoder = record {
  scalar_bytes = short;
  array_head = λ n. (128 + n) ∷ [];
  tag_head = λ n. 217 ∷ n / 256 ∷ n % 256 ∷ [];
  well_formed = λ b. true;
}

abbrev in_order : MapOrder
in_order m = m

abbrev any_text : Kept → Bytes
any_text v = []

-- `{1: [2, 3]}`
abbrev sample : Decoded
sample =
    table
      (entry (uint 1) (array (item (scalar (uint 2)) (item (scalar (uint 3)) no_items))) no_entries)

marshal_cbor-unmarshal_cbor_example :
    (a : AuxData) × (b : Bytes) × (unmarshal_cbor (some sample) ≡ some a)
    × (marshal_cbor encoder in_order a ≡ ok b)
    × Encodes encoder sample b
marshal_cbor-unmarshal_cbor_example =
    marshal_cbor-unmarshal_cbor encoder in_order Permᴰ.refl (λ v b e. refl) sample
      ((((tt, (tt, tt)), tt), (refl, tt), omega arith), refl)

writes_sample : marshal_cbor encoder in_order (kept (keep sample)) ≡ ok (161 ∷ 1 ∷ 130 ∷ 2 ∷ 3 ∷ [])
unfolding marshal_cbor keep cardano_go.Block.KvSlice.marshal_slice
writes_sample = refl

tx_memo-set_memo_example :
    (a : AuxData) × (b : Bytes) × (v : Decoded) × (set_memo (codes "swap") (some unset) ≡ some a)
    × (marshal_cbor encoder in_order a ≡ ok b)
    × Encodes encoder v b
    × (tx_memo any_text (some (some v)) ≡ codes "swap")
tx_memo-set_memo_example =
    tx_memo-set_memo encoder in_order Permᴰ.refl (λ v b e. refl) any_text (codes "swap") unset
      (λ e. absurd (cc))

-- A map of two entries that looks like a tag and has no number makes `MarshalCBOR` panic.
panics :
    marshal_cbor encoder in_order (
      kept (
        keep (
          table (
            entry
              (text (codes "a"))
              (scalar (text (codes "b")))
              (entry (text (codes "Content")) (scalar (uint 1)) no_entries)))))
    ≡ panic
unfolding marshal_cbor keep cardano_go.Common.bytes_eq
panics = refl
