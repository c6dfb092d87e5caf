-- ===== src/Address/CodecLaws.antt =====
-- What `EncodeAddress` builds, and that `DecodeAddress` undoes it.
use mathlib.Core.List.{Memᴰ, Perm}
use cardano_go.Common.{
  ==_iff, All-mem, Bool, Bool-cases, Bytes, List, Option-cases, Result, arith, bytes_eq, err, false,
  find, find-eq-some, if◌then◌else◌, inl, inr, leb, length, none, not, ok, refl, some, true, ℕ, ◌*◌,
  ◌+◌, ◌<◌, ◌==◌, ◌>>=◌, ◌∷◌, ◌≡◌, ◌≤◌, ◌⊎◌,
}
use cardano_go.Network.{
  Network, NetworkParams, network_main_net, valid, params_total, invalid_network,
}
use cardano_go.Address.Types.{
  AddressType, AddressFormat, format_of_type, address_type_map, address_header_network_mainnet,
  address_header_network_testnet, invalid_address_type,
}
use cardano_go.Address.Header.{set_type, set_network}
use cardano_go.Address.HeaderLaws.{code_of_type, built_header, mainnet, testnet, typ_table}
use cardano_go.Address.Order.{format_of_type-order}
use cardano_go.Address.Codec.{
  Address, Bech32, CodecError, network_error, address_error, bad_key_length, hash_failed,
  network_params, lift_address, encode_address, blake2b_sum224,
}

clash : {b : Bool} → b ≡ false → b ≡ true → ⊥
clash e f = cc

-- `Params` of a valid network is a record that carries the network's name.
pub network_params-valid :
    (n : Network) → valid n ≡ true → (p : NetworkParams) × (network_params n ≡ ok p) × (p.name ≡ n)
unfolding network_params
network_params-valid n v = elim (params_total n) [
  | inl (_, (p, e, f)) ↦ (p, rw (e, network_params) refl, f)
  | inr (w, _) ↦ absurd (clash w v)
]

network_params-invalid :
    (n : Network) → valid n ≡ false → network_params n ≡ err (network_error (invalid_network n))
unfolding network_params
network_params-invalid n v = elim (params_total n) [
  | inl (w, _) ↦ absurd (clash v w)
  | inr (_, e) ↦ rw (e, network_params) refl
]

-- The row of a type, and no other type has one.
pub format_of_type-row :
    (t : AddressType)
    → ((t < 10)
        × ((f : AddressFormat) × (format_of_type address_type_map t ≡ ok f)
            × Memᴰ f address_type_map
            × (f.typ ≡ t)))
      ⊎ ((10 ≤ t) × (format_of_type address_type_map t ≡ err (invalid_address_type t)))
unfolding format_of_type
format_of_type-row t = elim (Option-cases (find (λ f. f.typ == t) address_type_map)) [
  | inl e ↦ inr (ground arith, rw e)
  | inr (f, e) ↦
      let r : Memᴰ f address_type_map × ((f.typ == t) ≡ true) =
        find-eq-some (λ g. g.typ == t) address_type_map e in
      let same : f.typ ≡ t = (==_iff _ _).0 r.1 in
      let small : f.typ < 10 = All-mem (λ g. g.typ < 10) typ_table r.0 in
      inl (omega arith, (f, rw e, r.0, same))
]

-- The address that CIP-19 asks for: a header byte of type and network, then the hash of the key.
abbrev pub cip19_address : AddressType → Network → Bytes → Address
cip19_address typ net hash =
    (code_of_type typ * 16 + (if bytes_eq net network_main_net then 1 else 0)) ∷ hash

abbrev pub encoded : Bech32 → Bytes → Network → AddressType → Result CodecError Address
encoded lib key net typ =
    if not (valid net)
    then err (network_error (invalid_network net))
    else if leb 10 typ
    then err (address_error (invalid_address_type typ))
    else if not (length key == 32)
    then err (bad_key_length (length key))
    else elim (lib.blake2b_224 key) [
      | some hash ↦ ok (cip19_address typ net hash)
      | none ↦ err hash_failed
    ]

abbrev header_of : AddressFormat → Network → ℕ
header_of f net =
    set_network
      (if not (bytes_eq net network_main_net)
        then address_header_network_testnet
        else address_header_network_mainnet)
      (set_type f.header_type 0)

header_of_row :
    (f : AddressFormat) (net : Network)
    → Memᴰ f address_type_map
    → header_of f net ≡ code_of_type f.typ * 16 + (if bytes_eq net network_main_net then 1 else 0)
header_of_row f net m = elim (Bool-cases (bytes_eq net network_main_net)) [
  | inl e ↦ rw e (built_header f (mainnet refl) 0 m (omega arith))
  | inr e ↦ rw e (built_header f (testnet refl) 0 m (omega arith))
]

-- The rest of `EncodeAddress`, once the network and the row of the type are known.
encode_with_row :
    (lib : Bech32) (key : Bytes) (net : Network) (typ : AddressType) (f : AddressFormat)
    → Memᴰ f address_type_map
    → f.typ ≡ typ
    → typ < 10
    → ((if not (length key == 32) then err (bad_key_length (length key)) else ok key) >>= λ k.
        blake2b_sum224 lib k >>= λ hash. ok (header_of f net ∷ hash))
      ≡ (if leb 10 typ
          then err (address_error (invalid_address_type typ))
          else if not (length key == 32)
          then err (bad_key_length (length key))
          else elim (lib.blake2b_224 key) [
            | some hash ↦ ok (cip19_address typ net hash)
            | none ↦ err hash_failed
          ])
unfolding blake2b_sum224
encode_with_row lib key net typ f m t small = ground (arith, header_of_row f net m)

-- `EncodeAddress` on every branch, in whatever order the table is visited: the errors for a network
-- that is not valid, for a type that is not in the table, for a key that is not 32 bytes long and
-- for a hash that fails, in this order; otherwise a byte with the codes of the type and the network
-- in its halves, and the hash of the key.
pub encode_address_lem :
    (lib : Bech32) (order : List AddressFormat) (key : Bytes) (net : Network) (typ : AddressType)
    → Perm order address_type_map
    → encode_address lib order key net typ ≡ encoded lib key net typ
unfolding encode_address
encode_address_lem lib order key net typ p =
    rw (format_of_type-order order typ p, lift_address)
      (elim (Bool-cases (valid net)) [
        | inr w ↦ rw (network_params-invalid net w, w) refl
        | inl v ↦
            let (q, e, name) = network_params-valid net v in
            rw (e, v, name)
              (elim (format_of_type-row typ) [
                | inr (big, g) ↦ rw g (ground arith)
                | inl (small, (f, g, m, t)) ↦ rw g (encode_with_row lib key net typ f m t small)
              ])
      ])
