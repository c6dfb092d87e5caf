-- ===== src/Block/AuxLaws.antt =====
-- block.go: what `AuxData.MarshalCBOR` writes of a value that `AuxData.UnmarshalCBOR` read.
use cardano_go.Block.Points.{scalar}
use mathlib.Core.List.{Permᴰ}
use mathlib.Core.List.Permᴰ
use cardano_go.Common.{
  All, Bool, Bytes, List, Option, [], any, ap, arith, length, map, none, refl, some, suc, sym, true,
  ℕ, ◌++◌, ◌+◌, ◌||◌, ◌∙◌, ◌∷◌, ◌≡◌, ◌≤◌,
}
use cardano_go.Block.AuxValue.{
  null, Scalar, tag, keep, Decoded, Entries, scalar, same, byte_string, keep_entries, array, entry,
  item, table, no_entries, Items, keep_items, no_items,
}
use cardano_go.Block.AuxData.{Encoder, MapOrder, marshal, marshal_pairs, marshal_list}
use cardano_go.Block.KvSlice.{
  KvSlice, marshal_slice, marshal_entries, IsDistinct, marshal_slice-IsDistinct, All-perm,
}
use cardano_go.Block.AuxSpec.{
  Encodes, write, IsPlain, DistinctKeys, count_entries, EncodesEntries, has_key, count_items,
  ArePlain, EncodesItems, EntriesPlain,
}

length-map {ℓ κ} :
    {A : Type ℓ} {B : Type κ} (f : A → B) (xs : List A) → length (map f xs) ≡ length xs
length-map f [] = refl
length-map f (x ∷ xs) = ap suc (length-map f xs)

module _ (enc : Encoder) (order : MapOrder) where
  -- An entry as it is written.
  as_bytes : Scalar × Option Bytes → Bytes × Bytes
  as_bytes (k, some b) = (enc.scalar_bytes k, b)
  as_bytes (k, none) = (enc.scalar_bytes k, [])

  abbrev IsWritten : Scalar × Option Bytes → Type 0
  IsWritten e = (b : Bytes) × (e.1 ≡ some b)

  marshal_entries-write :
      (s : KvSlice Scalar (Option Bytes))
      → All IsWritten s
      → marshal_entries (λ k. some (enc.scalar_bytes k)) (λ v. v) s ≡ some (write (map as_bytes s))
  unfolding marshal_entries as_bytes
  marshal_entries-write [] h = refl
  marshal_entries-write ((k, none) ∷ s) ((b, e), h) = cc
  marshal_entries-write ((k, some v) ∷ s) (w, h) = rw (marshal_entries-write s h) refl

  any-marshal_pairs :
      (k : Scalar) (es : Entries)
      → any (λ (x : Scalar × Option Bytes). same x.0 k) (marshal_pairs enc order (keep_entries es))
        ≡ has_key k es
  unfolding keep marshal
  any-marshal_pairs k no_entries = refl
  any-marshal_pairs k (entry l v es) = ap (λ (b : Bool). same l k || b) (any-marshal_pairs k es)

  marshal_pairs-IsDistinct :
      (es : Entries) → DistinctKeys es → IsDistinct same (marshal_pairs enc order (keep_entries es))
  unfolding keep marshal
  marshal_pairs-IsDistinct no_entries d = tt
  marshal_pairs-IsDistinct (entry k v es) d =
      (any-marshal_pairs k es ∙ d.0, marshal_pairs-IsDistinct es d.1)

  length-marshal_pairs :
      (es : Entries) → length (marshal_pairs enc order (keep_entries es)) ≡ count_entries es
  unfolding keep marshal
  length-marshal_pairs no_entries = refl
  length-marshal_pairs (entry k v es) = ap suc (length-marshal_pairs es)

  module _ (perm : (m : KvSlice Scalar (Option Bytes)) → Permᴰ (order m) m)
      (forms : (v : Decoded) (b : Bytes) → Encodes enc v b → enc.well_formed b ≡ true) where
    -- A map whose entries are written.
    slice-Encodes :
        (es : Entries)
        → DistinctKeys es
        → count_entries es ≤ 23
        → All IsWritten (marshal_pairs enc order (keep_entries es))
        → EncodesEntries enc es (map as_bytes (marshal_pairs enc order (keep_entries es)))
        → (b : Bytes) × (marshal enc order (keep (table es)) ≡ some b) × Encodes enc (table es) b
    unfolding marshal keep
    slice-Encodes es d few w h =
        let s : KvSlice Scalar (Option Bytes) = marshal_pairs enc order (keep_entries es) in
        let n : length (map as_bytes s) ≡ length s = length-map as_bytes s in
        let small : length s ≤ 23 = omega (arith, length-marshal_pairs es, few) in
        let e : Encodes enc (table es) ((160 + length s) ∷ write (map as_bytes (order s))) = (
          map as_bytes s,
          map as_bytes (order s),
          h,
          Permᴰ.map as_bytes (perm s),
          omega (arith, small, n),
          ap (λ (k : ℕ). (160 + k) ∷ write (map as_bytes (order s))) (sym n),
        ) in
        let m : marshal_slice same (λ k. some (enc.scalar_bytes k)) (λ v. v) order s
            ≡ some ((160 + length s) ∷ write (map as_bytes (order s))) =
          marshal_slice-IsDistinct same (λ k. some (enc.scalar_bytes k)) (λ v. v) order s
            (write (map as_bytes (order s))) (marshal_pairs-IsDistinct es d) small
            (marshal_entries-write (order s) (All-perm IsWritten (perm s) w)) in
        (_, rw (m, forms (table es) _ e) refl, e)

    mutual
      unfolding keep marshal as_bytes

      pub marshal-Encodes :
          (v : Decoded)
          → IsPlain v
          → (b : Bytes) × (marshal enc order (keep v) ≡ some b) × Encodes enc v b
      marshal-Encodes (scalar s) h = (enc.scalar_bytes s, refl, refl)
      marshal-Encodes (byte_string s) h = absurd h
      marshal-Encodes null h = absurd h
      marshal-Encodes (array no_items) h = absurd h
      marshal-Encodes (array (item v xs)) h =
          let (b, m, e) = marshal_list-Encodes (item v xs) h in
          (enc.array_head (count_items (item v xs)) ++ b, rw m refl, (b, e, refl))
      marshal-Encodes (table es) h =
          let (w, e) = marshal_pairs-Encodes es h.0 in slice-Encodes es h.1 h.2 w e
      marshal-Encodes (tag n v) h = absurd h

      marshal_list-Encodes :
          (xs : Items)
          → ArePlain xs
          → (b : Bytes) × (marshal_list enc order (keep_items xs) ≡ some (count_items xs, b))
            × EncodesItems enc xs b
      marshal_list-Encodes no_items h = ([], refl, refl)
      marshal_list-Encodes (item v xs) h =
          let (b, m, e) = marshal-Encodes v h.0 in
          let (c, n, f) = marshal_list-Encodes xs h.1 in
          (b ++ c, rw (m, n) refl, (b, c, e, f, refl))

      marshal_pairs-Encodes :
          (es : Entries)
          → EntriesPlain es
          → All IsWritten (marshal_pairs enc order (keep_entries es))
            × EncodesEntries enc es (map as_bytes (marshal_pairs enc order (keep_entries es)))
      marshal_pairs-Encodes no_entries h = (tt, refl)
      marshal_pairs-Encodes (entry k v es) h =
          let (b, m, e) = marshal-Encodes v h.0 in
          let (w, f) = marshal_pairs-Encodes es h.1 in (((b, m), w), (b, _, e, f, rw m refl))
