-- ===== src/Protocol/Handshake.antt =====
-- protocol_handshake.go: the proposal of versions. The CBOR package is the argument `Encoder`;
-- a struct of `keyasint` fields is a map whose entries are in the order of the fields.
use mathlib.Core.List.Permᴰ
use cardano_go.Common.{
  Bool, Bytes, List, [], ap, append-nil, arith, false, length, refl, suc, sym, true, ℕ, ◌++◌, ◌+◌,
  ◌∷◌, ◌≡◌,
}
use cardano_go.Network.{network_magic_main_net}
use cardano_go.Protocol.{Subprotocol}
use cardano_go.Block.AuxValue.{
  Scalar, Items, Entries, scalar, uint, boolean, array, table, item, no_items, entry, no_entries,
}
use cardano_go.Block.AuxData.{Encoder}
use cardano_go.Block.AuxSpec.{Encodes, EncodesItems, count_items, EncodesEntries}

pub record VersionField1 : Type 0 where
  pub network : ℕ
  pub initiator_only_diffusion_mode : Bool

-- The code gives `peer_sharing` no negative number.
pub record VersionField2 : Type 0 where
  pub network : ℕ
  pub initiator_only_diffusion_mode : Bool
  pub peer_sharing : ℕ
  pub query : Bool

pub record VersionMap : Type 0 where
  pub v4 : VersionField1
  pub v5 : VersionField1
  pub v6 : VersionField1
  pub v7 : VersionField1
  pub v8 : VersionField1
  pub v9 : VersionField1
  pub v10 : VersionField1
  pub v11 : VersionField2
  pub v12 : VersionField2
  pub v13 : VersionField2

pub record MessageProposeVersions : Type 0 where
  pub subprotocol : Subprotocol
  pub version_map : VersionMap

abbrev field_1 : ℕ → VersionField1
field_1 network = record { network = network; initiator_only_diffusion_mode = true }

abbrev field_2 : ℕ → VersionField2
field_2 network = record {
  network = network;
  initiator_only_diffusion_mode = true;
  peer_sharing = 0;
  query = false;
}

-- `defaultVersionMap`
abbrev pub default_version_map : ℕ → VersionMap
default_version_map network = record {
  v4 = field_1 network;
  v5 = field_1 network;
  v6 = field_1 network;
  v7 = field_1 network;
  v8 = field_1 network;
  v9 = field_1 network;
  v10 = field_1 network;
  v11 = field_2 network;
  v12 = field_2 network;
  v13 = field_2 network;
}

-- The fields of a struct in their order.
abbrev fields_1 : VersionField1 → List Scalar
fields_1 f = uint f.network ∷ boolean f.initiator_only_diffusion_mode ∷ []

abbrev fields_2 : VersionField2 → List Scalar
fields_2 f =
    uint f.network
    ∷ boolean f.initiator_only_diffusion_mode
    ∷ uint f.peer_sharing
    ∷ boolean f.query
    ∷ []

-- The keys of a `VersionMap` with the fields behind them.
abbrev version_fields : VersionMap → List (ℕ × List Scalar)
version_fields m =
    (4, fields_1 m.v4)
    ∷ (5, fields_1 m.v5)
    ∷ (6, fields_1 m.v6)
    ∷ (7, fields_1 m.v7)
    ∷ (8, fields_1 m.v8)
    ∷ (9, fields_1 m.v9)
    ∷ (10, fields_1 m.v10)
    ∷ (11, fields_2 m.v11)
    ∷ (12, fields_2 m.v12)
    ∷ (13, fields_2 m.v13)
    ∷ []

module _ (enc : Encoder) where
  abbrev marshal_scalars : List Scalar → Bytes
  marshal_scalars [] = []
  marshal_scalars (x ∷ xs) = enc.scalar_bytes x ++ marshal_scalars xs

  -- A struct that is written `toarray`.
  abbrev marshal_struct : List Scalar → Bytes
  marshal_struct xs = enc.array_head (length xs) ++ marshal_scalars xs

  abbrev marshal_fields : List (ℕ × List Scalar) → Bytes
  marshal_fields [] = []
  marshal_fields (f ∷ fs) = enc.scalar_bytes (uint f.0) ++ (marshal_struct f.1 ++ marshal_fields fs)

  -- `cbor.Marshal` of a `VersionMap`.
  unfoldable pub marshal_version_map : VersionMap → Bytes
  marshal_version_map m = (160 + 10) ∷ marshal_fields (version_fields m)

  -- `cbor.Marshal` of a `MessageProposeVersions`.
  unfoldable pub marshal_propose_versions : MessageProposeVersions → Bytes
  unfolding marshal_version_map
  marshal_propose_versions m =
      enc.array_head 2
      ++ (enc.scalar_bytes (uint m.subprotocol) ++ marshal_version_map m.version_map)

  -- `encodeVersionMap`, before it is printed in hexadecimal digits.
  unfoldable pub encode_version_map : Bytes
  unfolding marshal_propose_versions
  encode_version_map =
      marshal_propose_versions
        (record { subprotocol = 0; version_map = default_version_map network_magic_main_net })

  abbrev items_of : List Scalar → Items
  items_of [] = no_items
  items_of (x ∷ xs) = item (scalar x) (items_of xs)

  abbrev entries_of : List (ℕ × List Scalar) → Entries
  entries_of [] = no_entries
  entries_of (f ∷ fs) = entry (uint f.0) (array (items_of f.1)) (entries_of fs)

  abbrev pairs_of : List (ℕ × List Scalar) → List (Bytes × Bytes)
  pairs_of [] = []
  pairs_of (f ∷ fs) = (enc.scalar_bytes (uint f.0), marshal_struct f.1) ∷ pairs_of fs

  count_items-items_of : (xs : List Scalar) → count_items (items_of xs) ≡ length xs
  count_items-items_of [] = refl
  count_items-items_of (x ∷ xs) = ap suc (count_items-items_of xs)

  items_of-EncodesItems : (xs : List Scalar) → EncodesItems enc (items_of xs) (marshal_scalars xs)
  items_of-EncodesItems [] = refl
  items_of-EncodesItems (x ∷ xs) =
      (enc.scalar_bytes x, marshal_scalars xs, refl, items_of-EncodesItems xs, refl)

  struct-Encodes : (xs : List Scalar) → Encodes enc (array (items_of xs)) (marshal_struct xs)
  struct-Encodes xs = (
    marshal_scalars xs,
    items_of-EncodesItems xs,
    ap (λ (n : ℕ). enc.array_head n ++ marshal_scalars xs) (sym (count_items-items_of xs)),
  )

  entries_of-EncodesEntries :
      (fs : List (ℕ × List Scalar)) → EncodesEntries enc (entries_of fs) (pairs_of fs)
  entries_of-EncodesEntries [] = refl
  entries_of-EncodesEntries (f ∷ fs) =
      (marshal_struct f.1, pairs_of fs, struct-Encodes f.1, entries_of-EncodesEntries fs, refl)

  -- A proposal is an array of its subprotocol and the map from its versions, 4 to 13, to the arrays
  -- of their fields.
  marshal_propose_versions-Encodes :
      (m : MessageProposeVersions)
      → Encodes enc
          (array (
            item
              (scalar (uint m.subprotocol))
              (item (table (entries_of (version_fields m.version_map))) no_items)))
          (marshal_propose_versions m)
  unfolding marshal_propose_versions marshal_version_map
  marshal_propose_versions-Encodes m =
      let fs : List (ℕ × List Scalar) = version_fields m.version_map in
      let b : Bytes = marshal_version_map m.version_map in
      let encoded : Encodes enc (table (entries_of fs)) b = (
        pairs_of fs,
        pairs_of fs,
        entries_of-EncodesEntries fs,
        Permᴰ.refl (pairs_of fs),
        omega arith,
        refl,
      ) in
      (
        enc.scalar_bytes (uint m.subprotocol) ++ b,
        (
          enc.scalar_bytes (uint m.subprotocol),
          b,
          refl,
          (b, [], encoded, refl, sym (append-nil b)),
          refl,
        ),
        refl,
      )
