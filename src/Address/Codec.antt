-- ===== src/Address/Codec.antt =====
-- `EncodeAddress`, `DecodeAddress` and the methods of `Address`. The bech32 packages and blake2b are
-- the argument `lib`; `order` is the order of Go's iteration over `AddressTypeMap`.
use cardano_go.Common.{
  Bytes, List, Option, Result, [], bytes_eq, err, if◌then◌else◌, length, none, not, ok, or_fail,
  panic, some, ℕ, ◌&&◌, ◌==◌, ◌∷◌, ◌>>=◌,
}
use cardano_go.Network.{Network, NetworkParams, NetworkError, params, network_main_net}
use cardano_go.Address.Types.{
  AddressType, AddressFormat, AddressError, empty_address, format_of_type,
  address_header_network_mainnet, address_header_network_testnet,
}
use cardano_go.Address.Header.{AddressHeader, type_of, network, format, set_type, set_network}

abbrev pub Address : Type 0
Address = Bytes

-- The third-party calls; `none` is their error.
pub record Bech32 : Type 0 where
  -- bech32.ConvertAndEncode of the cosmos sdk
  pub convert_and_encode : Bytes → Bytes → Option Bytes
  -- bech32.DecodeAndConvert of the cosmos sdk
  pub decode_and_convert : Bytes → Option (Bytes × Bytes)
  -- bech32.Decode of btcutil
  pub og_decode : Bytes → Option (Bytes × Bytes)
  -- bech32.ConvertBits of btcutil, from groups of 5 to groups of 8 bits, with no padding
  pub og_convert_bits : Bytes → Option Bytes
  -- blake2b with a digest of 28 bytes
  pub blake2b_224 : Bytes → Option Bytes

pub data CodecError : Type 0 where
  network_error : NetworkError → CodecError
  address_error : AddressError → CodecError
  bad_key_length : ℕ → CodecError
  hash_failed convert_failed decode_failed convert_bits_failed : CodecError
  invalid_prefix : Bytes → CodecError

-- `network.Params()`, and the pointer that it gives read; a nil pointer panics.
unfoldable pub network_params : Network → Result CodecError NetworkParams
network_params n = elim (params n) [
  | ok (some p) ↦ ok p
  | ok none ↦ panic
  | err e ↦ err (network_error e)
  | panic ↦ panic
]

unfoldable pub lift_address {ℓ} : {A : Type ℓ} → Result AddressError A → Result CodecError A
lift_address (ok a) = ok a
lift_address (err e) = err (address_error e)
lift_address panic = panic

-- `Address.Header`
unfoldable pub header : Address → Result AddressError AddressHeader
header [] = err empty_address
header (b ∷ rest) = ok b

-- `Address.Type`
unfoldable pub address_type : List AddressFormat → Address → Result AddressError AddressType
unfolding header
address_type order a = do h ← header a; type_of order h

-- `Address.Network`
unfoldable pub address_network : Address → Result AddressError Bytes
unfolding header
address_network a = do h ← header a; network h

module _ (lib : Bech32) where
  -- `Blake2bSum224`
  unfoldable pub blake2b_sum224 : Bytes → Result CodecError Bytes
  blake2b_sum224 data' = or_fail (lib.blake2b_224 data') hash_failed

  -- `EncodeAddress`
  unfoldable pub encode_address :
      List AddressFormat → Bytes → Network → AddressType → Result CodecError Address
  unfolding blake2b_sum224 lift_address network_params bytes_eq
  encode_address order public_key net typ = do
    p ← network_params net
    f ← lift_address (format_of_type order typ)
    key ←
        if not (length public_key == 32)
        then err (bad_key_length (length public_key))
        else ok public_key
    hash ← blake2b_sum224 key
    ok (
        set_network
          (if not (bytes_eq p.name network_main_net)
            then address_header_network_testnet
            else address_header_network_mainnet)
          (set_type f.header_type 0)
        ∷ hash)

  -- `Address.Bech32String`
  unfoldable pub bech32_string : Address → Network → Result CodecError Bytes
  unfolding network_params
  bech32_string a net = do
    p ← network_params net
    or_fail (lib.convert_and_encode p.address_prefix a) convert_failed

  -- `Address.Binary`
  unfoldable pub binary : Address → Result CodecError Bytes
  unfolding bech32_string
  binary a = do
    bech ← bech32_string a network_main_net
    decoded ← or_fail (lib.og_decode bech) decode_failed
    or_fail (lib.og_convert_bits decoded.1) convert_bits_failed

  -- `addr[0]`, which panics on a payload of no bytes.
  unfoldable pub first_byte : Bytes → Result CodecError AddressHeader
  first_byte [] = panic
  first_byte (b ∷ rest) = ok b

  -- The last test of `ParseBech32String`.
  unfoldable pub check_prefix : NetworkParams → Bytes → Bytes → Result CodecError Address
  check_prefix p prefix addr =
      if not (bytes_eq prefix p.address_prefix) && not (bytes_eq prefix p.delegation_prefix)
      then err (invalid_prefix prefix)
      else ok addr

  -- `Address.ParseBech32String`, with the address that it stores; `DecodeAddress` is the same call
  -- on a fresh address.
  unfoldable pub parse_bech32_string :
      List AddressFormat → Bytes → Network → Result CodecError Address
  unfolding first_byte lift_address network_params check_prefix
  parse_bech32_string order encoded net = do
    decoded ← or_fail (lib.decode_and_convert encoded) decode_failed
    h ← first_byte decoded.1
    f ← lift_address (format order h)
    p ← network_params net
    check_prefix p decoded.0 decoded.1

  -- `DecodeAddress`
  unfoldable pub decode_address : List AddressFormat → Bytes → Network → Result CodecError Address
  unfolding parse_bech32_string
  decode_address order address net = parse_bech32_string order address net
