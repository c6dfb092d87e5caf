-- ===== src/Block/AuxTrip.antt =====
-- block.go: `AuxData.UnmarshalCBOR` and `AuxData.MarshalCBOR` back to back, and the memo from
-- `SetMemo` to the server's `txResponse`.
use cardano_go.Block.Points.{scalar}
use cardano_go.Http.Text.{show_from, parse_uint}
use cardano_go.Block.KvSlice.{KvSlice}
use mathlib.Core.List.{Permᴰ}
use cardano_go.Common.{
  Bool, Bytes, List, Option, [], ap, arith, bytes_eq, codes, false, none, ok, refl, some, sym, true,
  ℕ, ◌++◌, ◌∙◌, ◌∷◌, ◌≡◌, ◌≢◌, ◌≤◌,
}
use cardano_go.Block.AuxValue.{
  Scalar, tag, null, Entries, Items, Decoded, keep, table, no_items, uint, Kept, array, keep_items,
  entry, item, no_entries, scalar, text, plain, cons, byte_string,
}
use cardano_go.Block.AuxData.{
  AuxData, Encoder, MapOrder, texts, as_tag, max_aux_data_string_size, marshal_tag, set_memo,
  marshal_cbor, maya_protocol_aux_key, unmarshal_cbor, kept, is_content,
}
use cardano_go.Block.AuxSpec.{Encodes, ArePlain, IsPlain}
use cardano_go.Block.AuxLaws.{marshal-Encodes}
use cardano_go.Block.Memo.{tx_memo, strings_of}
use cardano_go.Util.Chunks.{join, chunk_string, chunk_string-join}

-- A map that `AuxData.MarshalCBOR` takes for a tag.
abbrev pub is_tag_like : Entries → Bool
is_tag_like (entry k v (entry l w no_entries)) = is_content l
is_tag_like _ = false

-- What `AuxData` can write again: a plain value, where a tag may stand around it, but no map that
-- looks like one.
abbrev pub IsReadable : Decoded → Type 0
IsReadable (tag n v) = IsPlain v
IsReadable (table es) = IsPlain (table es) × (is_tag_like es ≡ false)
IsReadable v = IsPlain v

as_tag-none : (es : Entries) → is_tag_like es ≡ false → as_tag (keep (table es)) ≡ none
unfolding keep
as_tag-none no_entries h = refl
as_tag-none (entry k v no_entries) h = refl
as_tag-none (entry k v (entry l w no_entries)) h = rw h refl
as_tag-none (entry k v (entry l w (entry m x es))) h = refl

-- The chunks of a memo as the package decodes them.
abbrev pub memo_items : List Bytes → Items
memo_items [] = no_items
memo_items (s ∷ ss) = item (scalar (text s)) (memo_items ss)

abbrev pub one_entry : Scalar → Decoded → Decoded
one_entry k v = table (entry k v no_entries)

abbrev pub memo_content : List Bytes → Decoded
memo_content chunks = one_entry (uint 0) (
    one_entry (uint 0) (
      one_entry (uint maya_protocol_aux_key)
        (one_entry (text (codes "memo")) (array (memo_items chunks)))))

-- `259({0: {0: {6676: {"memo": [...]}}}})`, with the memo in chunks.
abbrev pub memo_data : Bytes → Decoded
memo_data memo = tag 259 (memo_content (chunk_string memo max_aux_data_string_size))

texts-keep : (chunks : List Bytes) → texts chunks ≡ keep_items (memo_items chunks)
unfolding keep
texts-keep [] = refl
texts-keep (s ∷ ss) = ap (cons (plain (text s))) (texts-keep ss)

memo_items-ArePlain : (chunks : List Bytes) → ArePlain (memo_items chunks)
memo_items-ArePlain [] = tt
memo_items-ArePlain (s ∷ ss) = (tt, memo_items-ArePlain ss)

memo_content-IsPlain : (chunks : List Bytes) → chunks ≢ [] → IsPlain (memo_content chunks)
memo_content-IsPlain [] h = absurd (h refl)
memo_content-IsPlain (s ∷ ss) h =
    let few : 1 ≤ 23 = omega arith in
    let inner : IsPlain (array (memo_items (s ∷ ss))) = (tt, memo_items-ArePlain ss) in
    (
      (((((((inner, tt), (refl, tt), few), tt), (refl, tt), few), tt), (refl, tt), few), tt),
      (refl, tt),
      few,
    )

strings_of-memo_items :
    (raw_json : Kept → Bytes) (chunks : List Bytes)
    → strings_of raw_json (keep_items (memo_items chunks)) ≡ chunks
unfolding keep
strings_of-memo_items raw_json [] = refl
strings_of-memo_items raw_json (s ∷ ss) = ap (◌∷◌ s) (strings_of-memo_items raw_json ss)

tx_memo-memo_data :
    (raw_json : Kept → Bytes) (memo : Bytes)
    → tx_memo raw_json (some (some (memo_data memo))) ≡ memo
unfolding tx_memo keep bytes_eq show_from parse_uint
tx_memo-memo_data raw_json memo =
    ap join (strings_of-memo_items raw_json (chunk_string memo max_aux_data_string_size))
    ∙ (chunk_string-join memo max_aux_data_string_size (omega arith)).0

chunks-ne-nil : (memo : Bytes) → memo ≢ [] → chunk_string memo max_aux_data_string_size ≢ []
chunks-ne-nil memo h e =
    h (sym (chunk_string-join memo max_aux_data_string_size (omega arith)).0 ∙ ap join e)

module _ (enc : Encoder) (order : MapOrder)
    (perm : (m : KvSlice Scalar (Option Bytes)) → Permᴰ (order m) m)
    (forms : (v : Decoded) (b : Bytes) → Encodes enc v b → enc.well_formed b ≡ true) where
  marshal_tag-Encodes :
      (n : ℕ) (v : Decoded)
      → IsPlain v
      → (b : Bytes) × (marshal_tag enc order (plain (uint n)) (keep v) ≡ ok b)
        × Encodes enc (tag n v) b
  unfolding marshal_tag
  marshal_tag-Encodes n v h =
      let (c, m, e) = marshal-Encodes enc order perm forms v h in
      (enc.tag_head n ++ c, rw (marshal_tag, m) refl, (c, e, refl))

  kept-Encodes :
      (v : Decoded)
      → IsPlain v
      → as_tag (keep v) ≡ none
      → (b : Bytes) × (marshal_cbor enc order (kept (keep v)) ≡ ok b) × Encodes enc v b
  unfolding marshal_cbor
  kept-Encodes v h t =
      let (b, m, e) = marshal-Encodes enc order perm forms v h in
      (b, rw (marshal_cbor, t, m) refl, e)

  -- A value that `AuxData.UnmarshalCBOR` reads, of integers, Booleans, texts, arrays that are not
  -- empty and maps of at most 23 entries, with or without a tag around it, is written by
  -- `AuxData.MarshalCBOR` without an error as CBOR of the same value, in whatever order the maps are
  -- visited; this is for no map that looks like a tag.
  pub marshal_cbor-unmarshal_cbor :
      (v : Decoded)
      → IsReadable v
      → (a : AuxData) × (b : Bytes) × (unmarshal_cbor (some v) ≡ some a)
        × (marshal_cbor enc order a ≡ ok b)
        × Encodes enc v b
  unfolding unmarshal_cbor marshal_cbor bytes_eq
  marshal_cbor-unmarshal_cbor (tag n v) h =
      let (b, m, e) = marshal_tag-Encodes n v h in (_, b, refl, m, e)
  marshal_cbor-unmarshal_cbor (table es) h =
      let (b, m, e) = kept-Encodes (table es) h.0 (as_tag-none es h.1) in (_, b, refl, m, e)
  marshal_cbor-unmarshal_cbor (scalar s) h =
      let (b, m, e) = kept-Encodes (scalar s) h refl in (_, b, refl, m, e)
  marshal_cbor-unmarshal_cbor (array xs) h =
      let (b, m, e) = kept-Encodes (array xs) h refl in (_, b, refl, m, e)
  marshal_cbor-unmarshal_cbor (byte_string s) h = absurd h
  marshal_cbor-unmarshal_cbor null h = absurd h

  -- A memo that is not empty, set by `SetMemo` and written by `AuxData.MarshalCBOR`, is the CBOR of
  -- a value out of which the server's `txResponse` reads the whole memo, in whatever order the maps
  -- are visited.
  pub tx_memo-set_memo :
      (raw_json : Kept → Bytes) (memo : Bytes) (old : AuxData)
      → memo ≢ []
      → (a : AuxData) × (b : Bytes) × (v : Decoded) × (set_memo memo (some old) ≡ some a)
        × (marshal_cbor enc order a ≡ ok b)
        × Encodes enc v b
        × (tx_memo raw_json (some (some v)) ≡ memo)
  unfolding set_memo marshal_cbor bytes_eq keep
  tx_memo-set_memo raw_json memo old h =
      let chunks : List Bytes = chunk_string memo max_aux_data_string_size in
      let (b, m, e) =
        marshal_tag-Encodes 259 (memo_content chunks)
          (memo_content-IsPlain chunks (chunks-ne-nil memo h)) in
      (_, b, memo_data memo, refl, rw (texts-keep chunks) m, e, tx_memo-memo_data raw_json memo)
