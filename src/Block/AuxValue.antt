-- ===== src/Block/AuxValue.antt =====
-- block.go: what `AuxData` holds. The values that the CBOR package decodes, and what
-- `AuxData.UnmarshalCBOR` makes of them.
use cardano_go.Common.{Bool, Bytes, [], bytes_eq, codes, false, not, true, ℕ, ◌==◌, ◌∷◌}

-- A value that is kept as it is, and every key of a map: integers (`negative n` is -(n + 1)),
-- Booleans, strings and the package's `ByteString`, which stands for byte strings as keys. Big
-- integers and floating point numbers are left out.
pub data Scalar : Type 0 where
  uint : ℕ → Scalar
  negative : ℕ → Scalar
  boolean : Bool → Scalar
  text : Bytes → Scalar
  byte_key : Bytes → Scalar

-- Go's comparison of two keys.
abbrev pub same : Scalar → Scalar → Bool
same (uint m) (uint n) = m == n
same (negative m) (negative n) = m == n
same (boolean true) (boolean b) = b
same (boolean false) (boolean b) = not b
same (text s) (text t) = bytes_eq s t
same (byte_key s) (byte_key t) = bytes_eq s t
same _ _ = false

-- What `cbor.Unmarshal` stores in an `any`. A map has its entries in the order in which `MapKeys`
-- visits them.
mutual
  pub data Decoded : Type 0 where
    scalar : Scalar → Decoded
    byte_string : Bytes → Decoded
    null : Decoded
    array : Items → Decoded
    table : Entries → Decoded
    tag : ℕ → Decoded → Decoded

  pub data Items : Type 0 where
    no_items : Items
    item : Decoded → Items → Items

  pub data Entries : Type 0 where
    no_entries : Entries
    entry : Scalar → Decoded → Entries → Entries

-- What `mapToKVArray` gives back: slices of any values, and `KVSlice`.
mutual
  pub data Kept : Type 0 where
    plain : Scalar → Kept
    list : Kepts → Kept
    slice : Pairs → Kept

  pub data Kepts : Type 0 where
    nil : Kepts
    cons : Kept → Kepts → Kepts

  pub data Pairs : Type 0 where
    end : Pairs
    pair : Scalar → Kept → Pairs → Pairs

-- Each byte is a value of kind `Uint8`.
abbrev pub keep_bytes : Bytes → Kepts
keep_bytes [] = nil
keep_bytes (b ∷ s) = cons (plain (uint b)) (keep_bytes s)

-- `mapToKVArray`. A nil value has no kind, so that `%v` puts it into words; a tag is a struct of two
-- fields.
unfoldable mutual
  pub keep : Decoded → Kept
  keep (scalar s) = plain s
  keep (byte_string s) = list (keep_bytes s)
  keep null = plain (text (codes "<nil>"))
  keep (array xs) = list (keep_items xs)
  keep (table es) = slice (keep_entries es)
  keep (tag n v) =
      slice
        (pair (text (codes "Number")) (plain (uint n)) (pair (text (codes "Content")) (keep v) end))

  pub keep_items : Items → Kepts
  keep_items no_items = nil
  keep_items (item v xs) = cons (keep v) (keep_items xs)

  pub keep_entries : Entries → Pairs
  keep_entries no_entries = end
  keep_entries (entry k v es) = pair k (keep v) (keep_entries es)
