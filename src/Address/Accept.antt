-- ===== src/Address/Accept.antt =====
-- What `DecodeAddress` (address.go) lets through.
use mathlib.Core.List.{Perm}
use cardano_go.Common.{
  Bytes, List, Option-cases, Result, [], ap, arith, bytes_eq, bytes_eq_iff, err, inl, inr, none, ok,
  panic, refl, some, sym, ℕ, ◌>>=◌, ◌∙◌, ◌∷◌, ◌≡◌, ◌⊎◌,
}
use cardano_go.Network.{Network, NetworkParams, network_main_net, network_pre_prod, params}
use cardano_go.Address.Types.{
  AddressType, AddressFormat, format_of_type, address_type_map, AddressError,
}
use cardano_go.Address.Header.{type_of, format}
use cardano_go.Address.Order.{format-order}
use cardano_go.Address.Codec.{
  Address, Bech32, CodecError, network_params, lift_address, decode_address, check_prefix,
}

-- What an address that `DecodeAddress` accepts is: the payload of the text, not empty, with a type
-- in its header that the table has, under one of the two prefixes of the network.
pub record IsDecoded (lib : Bech32) (net : Network) (s : Bytes) (a : Address) : Type 0 where
  pub net_params : NetworkParams
  pub prefix : Bytes
  pub header_byte : ℕ
  pub rest : Bytes
  pub typ : AddressType
  pub net_is : network_params net ≡ ok net_params
  pub text_is : lib.decode_and_convert s ≡ some (prefix, a)
  pub address_is : a ≡ header_byte ∷ rest
  pub typ_is : type_of address_type_map header_byte ≡ ok typ
  pub prefix_is : (prefix ≡ net_params.address_prefix) ⊎ (prefix ≡ net_params.delegation_prefix)

-- The steps of `ParseBech32String` after the first byte, each of which succeeded.
tail_inv :
    (lib : Bech32) (prefix d : Bytes) (rf : Result AddressError AddressFormat)
    (rp : Result CodecError NetworkParams) {a : Address}
    → (lift_address rf >>= λ f. rp >>= λ p. check_prefix lib p prefix d) ≡ ok a
    → (f : AddressFormat) × (p : NetworkParams) × (rf ≡ ok f)
      × (rp ≡ ok p)
      × (check_prefix lib p prefix d ≡ ok a)
unfolding lift_address
tail_inv lib prefix d (ok f) (ok p) h = (f, p, refl, refl, h)
tail_inv lib prefix d (ok f) (err e) h = cc
tail_inv lib prefix d (ok f) panic h = cc
tail_inv lib prefix d (err e) rp h = cc
tail_inv lib prefix d panic rp h = cc

format-type :
    (b : ℕ) (r : Result AddressError AddressType) {f : AddressFormat}
    → (r >>= format_of_type address_type_map) ≡ ok f
    → (t : AddressType) × (r ≡ ok t)
format-type b (ok t) h = (t, refl)
format-type b (err e) h = cc
format-type b panic h = cc

check_prefix-eq-ok :
    (lib : Bech32) (p : NetworkParams) (prefix d : Bytes) {a : Address}
    → check_prefix lib p prefix d ≡ ok a
    → (d ≡ a) × ((prefix ≡ p.address_prefix) ⊎ (prefix ≡ p.delegation_prefix))
unfolding check_prefix
check_prefix-eq-ok lib p prefix d h =
    ground (arith, bytes_eq_iff prefix p.address_prefix, bytes_eq_iff prefix p.delegation_prefix)

-- What `DecodeAddress` accepts, in whatever order the table is visited: the text decodes to the
-- address under a prefix of the network, and the first byte of the address has a type of the table.
decode_address-IsDecoded :
    (lib : Bech32) (order : List AddressFormat) (net : Network) (s : Bytes) {a : Address}
    → Perm order address_type_map
    → decode_address lib order s net ≡ ok a
    → IsDecoded lib net s a
unfolding decode_address format
decode_address-IsDecoded lib order net s {a} perm h = go (Option-cases (lib.decode_and_convert s))
  where
    opened :
        (prefix : Bytes) (b : ℕ) (rest : Bytes)
        → lib.decode_and_convert s ≡ some (prefix, b ∷ rest)
        → IsDecoded lib net s a
    opened prefix b rest e =
        let (f, p, hf, hp, hc) =
          tail_inv lib prefix (b ∷ rest) (format order b) (network_params net) (rw e at h) in
        let (same, pre) = check_prefix-eq-ok lib p prefix (b ∷ rest) hc in
        let (t, ht) =
          format-type b (type_of address_type_map b) (sym (format-order order b perm) ∙ hf) in
        record {
          net_params = p;
          prefix = prefix;
          header_byte = b;
          rest = rest;
          typ = t;
          net_is = hp;
          text_is = e ∙ ap (λ (d : Bytes). some (prefix, d)) same;
          address_is = sym same;
          typ_is = ht;
          prefix_is = pre;
        }

    go :
        (lib.decode_and_convert s ≡ none)
          ⊎ ((d : Bytes × Bytes) × (lib.decode_and_convert s ≡ some d))
        → IsDecoded lib net s a
    go (inl e) = absurd (ground (arith, e))
    go (inr ((prefix, []), e)) = absurd (ground (arith, e))
    go (inr ((prefix, b ∷ rest), e)) = opened prefix b rest e

-- Main net and pre-production share their prefixes and the network bits are not looked at, so
-- every text decodes for the one exactly as for the other.
decode_address-pre_prod :
    (lib : Bech32) (order : List AddressFormat) (s : Bytes)
    → decode_address lib order s network_pre_prod ≡ decode_address lib order s network_main_net
unfolding decode_address check_prefix params bytes_eq
decode_address-pre_prod lib order s = refl

-- A text whose payload is empty makes `DecodeAddress` panic, for every network.
decode_address-empty :
    (lib : Bech32) (order : List AddressFormat) (net : Network) (s prefix : Bytes)
    → lib.decode_and_convert s ≡ some (prefix, [])
    → decode_address lib order s net ≡ panic
unfolding decode_address
decode_address-empty lib order net s prefix h = rw h refl
