-- ===== src/Block/AuxSpec.antt =====
-- The CBOR of a value that `AuxData` (block.go) reads, and the values that it can write again.
use cardano_go.Block.Points.{scalar}
use mathlib.Core.List.{Permᴰ}
use cardano_go.Common.{Bool, Bytes, List, [], false, length, suc, ℕ, ◌++◌, ◌+◌, ◌||◌, ◌∷◌, ◌≡◌, ◌≤◌}
use cardano_go.Block.AuxValue.{
  tag, Scalar, Items, Decoded, scalar, item, byte_string, no_items, array, table, byte_key, Entries,
  tag, entry, same, null, no_entries,
}
use cardano_go.Block.AuxData.{Encoder, null_byte}

abbrev pub count_items : Items → ℕ
count_items no_items = 0
count_items (item v xs) = suc (count_items xs)

-- The bytes of entries, one behind the other.
abbrev pub write : List (Bytes × Bytes) → Bytes
write [] = []
write (p ∷ ps) = p.0 ++ (p.1 ++ write ps)

module _ (enc : Encoder) where
  -- The bytes that stand for a value in CBOR, where the entries of a map, 23 at most, may stand in
  -- any order.
  abbrev mutual
    pub Encodes : Decoded → Bytes → Type 0
    Encodes (scalar s) b = b ≡ enc.scalar_bytes s
    Encodes (byte_string s) b = b ≡ enc.scalar_bytes (byte_key s)
    Encodes null b = b ≡ null_byte ∷ []
    Encodes (array xs) b =
        (c : Bytes) × EncodesItems xs c × (b ≡ enc.array_head (count_items xs) ++ c)
    Encodes (table es) b =
        (ps : List (Bytes × Bytes)) × (qs : List (Bytes × Bytes)) × EncodesEntries es ps
        × Permᴰ qs ps
        × (length ps ≤ 23)
        × (b ≡ (160 + length ps) ∷ write qs)
    Encodes (tag n v) b = (c : Bytes) × Encodes v c × (b ≡ enc.tag_head n ++ c)

    pub EncodesItems : Items → Bytes → Type 0
    EncodesItems no_items b = b ≡ []
    EncodesItems (item v xs) b =
        (c : Bytes) × (d : Bytes) × Encodes v c × EncodesItems xs d × (b ≡ c ++ d)

    pub EncodesEntries : Entries → List (Bytes × Bytes) → Type 0
    EncodesEntries no_entries ps = ps ≡ []
    EncodesEntries (entry k v es) ps =
        (c : Bytes) × (qs : List (Bytes × Bytes)) × Encodes v c
        × EncodesEntries es qs
        × (ps ≡ (enc.scalar_bytes k, c) ∷ qs)

abbrev pub has_key : Scalar → Entries → Bool
has_key k no_entries = false
has_key k (entry l v es) = same l k || has_key k es

abbrev pub count_entries : Entries → ℕ
count_entries no_entries = 0
count_entries (entry k v es) = suc (count_entries es)

abbrev pub DistinctKeys : Entries → Type 0
DistinctKeys no_entries = Unit
DistinctKeys (entry k v es) = (has_key k es ≡ false) × DistinctKeys es

-- What comes back as it was: integers, Booleans and texts, arrays that are not empty, and maps of at
-- most 23 entries, with keys that differ.
abbrev mutual
  pub IsPlain : Decoded → Type 0
  IsPlain (scalar s) = Unit
  IsPlain (byte_string s) = ⊥
  IsPlain null = ⊥
  IsPlain (array no_items) = ⊥
  IsPlain (array (item v xs)) = ArePlain (item v xs)
  IsPlain (table es) = EntriesPlain es × DistinctKeys es × (count_entries es ≤ 23)
  IsPlain (tag n v) = ⊥

  pub ArePlain : Items → Type 0
  ArePlain no_items = Unit
  ArePlain (item v xs) = IsPlain v × ArePlain xs

  pub EntriesPlain : Entries → Type 0
  EntriesPlain no_entries = Unit
  EntriesPlain (entry k v es) = IsPlain v × EntriesPlain es
