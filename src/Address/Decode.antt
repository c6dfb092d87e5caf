-- ===== src/Address/Decode.antt =====
-- `DecodeAddress` (address.go) undoes `EncodeAddress`.
use mathlib.Core.List.{Perm}
use cardano_go.Common.{
  All, Bytes, IsByte, List, Option, Option-cases, arith, bytes_eq, bytes_eq_refl, if◌then◌else◌,
  inl, inr, length, none, ok, or_fail, some, sym, true, ℕ, ◌*◌, ◌+◌, ◌/◌, ◌<◌, ◌∙◌, ◌∷◌, ◌≡◌, ◌≤◌,
}
use cardano_go.Network.{Network, NetworkParams, network_main_net, valid}
use cardano_go.Address.Types.{
  AddressType, AddressFormat, address_type_map, address_header_network_mainnet,
  address_header_network_testnet, AddressHeaderNetwork,
}
use cardano_go.Address.Header.{type_of, network, format}
use cardano_go.Address.HeaderLaws.{code_of_type, type_of-code, network-code, type_of_code-code}
use cardano_go.Address.Order.{type_of-order, format-order}
use cardano_go.Address.Codec.{
  Address, Bech32, network_params, encode_address, bech32_string, decode_address, check_prefix,
  address_type, address_network, convert_failed,
}
use cardano_go.Address.CodecLaws.{
  encode_address_lem, encoded, cip19_address, format_of_type-row, network_params-valid,
}

-- What the third-party packages document: a digest is 28 bytes, and decoding undoes encoding of at
-- most 100 bytes under a prefix of the two that the networks use.
pub record IsFaithful (lib : Bech32) : Type 0 where
  pub digest_length : (k h : Bytes) → lib.blake2b_224 k ≡ some h → length h ≡ 28
  pub digest_bytes : (k h : Bytes) → lib.blake2b_224 k ≡ some h → All IsByte h
  pub decode-encode :
      (p : NetworkParams) (net : Network) (d s : Bytes)
      → network_params net ≡ ok p
      → All IsByte d
      → length d ≤ 100
      → lib.convert_and_encode p.address_prefix d ≡ some s
      → lib.decode_and_convert s ≡ some (p.address_prefix, d)

-- The network bits that stand for a network.
abbrev pub network_bits : Network → AddressHeaderNetwork
network_bits net =
    if bytes_eq net network_main_net
    then address_header_network_mainnet
    else address_header_network_testnet

-- What a successful `EncodeAddress` says of its arguments.
pub record IsEncoded (lib : Bech32) (key : Bytes) (net : Network) (typ : AddressType) (a : Address)
    : Type 0 where
  pub hash : Bytes
  pub hashed : lib.blake2b_224 key ≡ some hash
  pub is_valid : valid net ≡ true
  pub small : typ < 10
  pub key_length : length key ≡ 32
  pub address_is : a ≡ cip19_address typ net hash

pub encoded_inv :
    (lib : Bech32) (key : Bytes) (net : Network) (typ : AddressType) {a : Address}
    → encoded lib key net typ ≡ ok a
    → IsEncoded lib key net typ a
encoded_inv lib key net typ e = elim (Option-cases (lib.blake2b_224 key)) [
  | inl n ↦ absurd (ground (arith, n))
  | inr (h, n) ↦ record {
    hash = h;
    hashed = n;
    is_valid = ground (arith, n);
    small = ground (arith, n);
    key_length = ground (arith, n);
    address_is = ground (arith, n);
  }
]

-- A header byte of `EncodeAddress` reads back its type and network.
encoded_header :
    (net : Network) (typ : AddressType)
    → typ < 10
    → (let b : ℕ = code_of_type typ * 16 + (if bytes_eq net network_main_net then 1 else 0) in
        (type_of address_type_map b ≡ ok typ) × (network b ≡ ok (network_bits net)) × IsByte b)
encoded_header net typ h =
    let b : ℕ = code_of_type typ * 16 + (if bytes_eq net network_main_net then 1 else 0) in
    let c : code_of_type typ < 16 = ground arith in
    let y : b < 256 = ground arith in
    let q : b / 16 ≡ code_of_type typ = ground arith in
    (type_of-code b y ∙ rw (q, type_of_code-code typ h), ground (arith, network-code b y), y)

format_ok :
    (typ : AddressType) (b : ℕ)
    → typ < 10
    → type_of address_type_map b ≡ ok typ
    → (f : AddressFormat) × (format address_type_map b ≡ ok f)
unfolding format
format_ok typ b h e = elim (format_of_type-row typ) [
  | inl (_, (f, g, _, _)) ↦ (f, rw (e, g))
  | inr (big, _) ↦ absurd (omega arith)
]

prefix_ok :
    (lib : Bech32) (p : NetworkParams) (a : Address) → check_prefix lib p p.address_prefix a ≡ ok a
unfolding check_prefix
prefix_ok lib p a = rw (bytes_eq_refl p.address_prefix)

or_fail-eq-ok {ℓ κ} :
    {E : Type ℓ} {A : Type κ} (o : Option A) (x : E) {a : A} → or_fail o x ≡ ok a → o ≡ some a
or_fail-eq-ok none x h = cc
or_fail-eq-ok (some b) x h = cc

decode_read :
    (lib : Bech32) (order : List AddressFormat) (p : NetworkParams) (net : Network) (b : ℕ)
    (h s : Bytes) (f : AddressFormat)
    → Perm order address_type_map
    → network_params net ≡ ok p
    → lib.decode_and_convert s ≡ some (p.address_prefix, b ∷ h)
    → format address_type_map b ≡ ok f
    → decode_address lib order s net ≡ ok (b ∷ h)
unfolding decode_address
decode_read lib order p net b h s f perm n d ff =
    rw (d, format-order order b perm, ff, n) (prefix_ok lib p (b ∷ h))

-- An address that `EncodeAddress` built and `Bech32String` printed is read back by `DecodeAddress`
-- for the same network, and its header gives the type and the network bits it was built for, in
-- whatever order the table is visited.
pub decode_address-encode_address :
    (lib : Bech32) (laws : IsFaithful lib) (order : List AddressFormat) (key : Bytes)
    (net : Network) (typ : AddressType) (a s : Bytes)
    → Perm order address_type_map
    → encode_address lib order key net typ ≡ ok a
    → bech32_string lib a net ≡ ok s
    → (decode_address lib order s net ≡ ok a)
      × (address_type order a ≡ ok typ)
      × (address_network a ≡ ok (network_bits net))
      × (length a ≡ 29)
unfolding decode_address bech32_string address_type address_network
decode_address-encode_address lib laws order key net typ a s p ea es =
    let w : IsEncoded lib key net typ a =
      encoded_inv lib key net typ (sym (encode_address_lem lib order key net typ p) ∙ ea) in
    let (q, e, _) = network_params-valid net w.is_valid in
    let (t, n, y) = encoded_header net typ w.small in
    let (f, ff) = format_ok typ _ w.small t in
    let conv : lib.convert_and_encode q.address_prefix a ≡ some s =
      or_fail-eq-ok _ convert_failed (rw e at es) in
    let len : length w.hash ≡ 28 = laws.digest_length key w.hash w.hashed in
    let bytes : All IsByte (cip19_address typ net w.hash) =
      (y, laws.digest_bytes key w.hash w.hashed) in
    rw w.address_is (
      decode_read lib order q net _ w.hash s f p e
          (laws.decode-encode q net _ s e bytes (omega arith) (rw w.address_is at conv)) ff,
      type_of-order order _ p ∙ t,
      n,
      omega arith,
    )
