-- ===== src/Tools/Defs.antt =====
-- The commands of cmd/addr_build, cmd/addr_decode and cmd/addr_gen, by the lines that they print.
use cardano_go.Common.{
  Bool, Bytes, List, Option, Result, [], err, false, if◌then◌else◌, length, none, not, ok, or_fail,
  panic, some, true, ℕ, ◌++◌, ◌==◌, ◌>>=◌, ◌∷◌,
}
use cardano_go.Network.{Network, network_main_net, network_pre_prod, network_private_net}
use cardano_go.Address.Types.{AddressFormat, address_type_payment}
use cardano_go.Address.Codec.{
  Address, Bech32, CodecError, header, bech32_string, encode_address, decode_address, lift_address,
  decode_failed, convert_bits_failed,
}
use cardano_go.Tools.Trim.{trim}

-- The lines of a network: an address, or that there is none.
pub record Shown : Type 0 where
  pub network : Network
  pub header_byte : ℕ
  pub converted : Bytes
  pub encoded : Bytes

pub data Line : Type 0 where
  shown : Shown → Line
  invalid : Network → Line

-- The lines, and whether the loop came to its end: `log.Fatal` and a panic end the command.
abbrev pub Lines : Type 0
Lines = List Line × Bool

abbrev pub networks : List Network
networks = network_main_net ∷ network_pre_prod ∷ network_private_net ∷ []

abbrev pub before : List Line → Lines → Lines
before ls rest = (ls ++ rest.0, rest.1)

-- The loop over the networks.
unfoldable pub each_network : (Network → Result CodecError (List Line)) → List Network → Lines
each_network f [] = ([], true)
each_network f (net ∷ nets) = elim (f net) [
  | ok ls ↦ before ls (each_network f nets)
  | err e ↦ ([], false)
  | panic ↦ ([], false)
]

module _ (lib : Bech32) where
  -- What the loops print of an address.
  unfoldable pub inspect : Address → Network → Result CodecError Shown
  unfolding bech32_string lift_address header
  inspect a net = do
    encoded ← bech32_string lib a net
    h ← lift_address (header a)
    decoded ← or_fail (lib.og_decode encoded) decode_failed
    converted ← or_fail (lib.og_convert_bits decoded.1) convert_bits_failed
    ok (record { network = net; header_byte = h; converted = converted; encoded = encoded })

  module _ (order : List AddressFormat) where
    -- A round of `encodePubkeyAllNetworks`, which leaves a network out on an error.
    unfoldable pub build_round : Bytes → Network → Result CodecError (List Line)
    unfolding inspect
    build_round pub_key net = elim (encode_address lib order pub_key net address_type_payment) [
      | err e ↦ ok []
      | panic ↦ panic
      | ok a ↦ inspect a net >>= λ s. ok (shown s ∷ [])
    ]

    -- `encodePubkeyAllNetworks`
    unfoldable pub encode_pubkey_all_networks : Bytes → Lines
    unfolding build_round each_network
    encode_pubkey_all_networks pub_key = each_network (build_round pub_key) networks

    -- A round of `main` of addr_gen, which ends on an error.
    unfoldable pub gen_round : Bytes → Network → Result CodecError (List Line)
    unfolding inspect
    gen_round pub_key net = encode_address lib order pub_key net address_type_payment >>= λ a.
        inspect a net >>= λ s. ok (shown s ∷ [])

    -- The loop of `main` of addr_gen.
    unfoldable pub gen_main : Bytes → Lines
    unfolding gen_round each_network
    gen_main pub_key = each_network (gen_round pub_key) networks

    -- A round of `main` of addr_decode.
    unfoldable pub decode_round : Bytes → Network → Result CodecError (List Line)
    unfolding inspect
    decode_round address net = elim (decode_address lib order address net) [
      | err e ↦ ok (invalid net ∷ [])
      | panic ↦ panic
      | ok a ↦ inspect a net >>= λ s. ok (shown s ∷ [])
    ]

    -- `main` of addr_decode.
    unfoldable pub decode_main : Bytes → Lines
    unfolding decode_round each_network
    decode_main address = each_network (decode_round (trim address)) networks

-- hex.DecodeString, the CBOR package on byte strings, and the public key of ed25519.
pub record KeyLib : Type 0 where
  pub decode_hex : Bytes → Option Bytes
  pub unmarshal_bytes : Bytes → Option Bytes
  pub marshal_bytes : Bytes → Option Bytes
  pub public_key : Bytes → Bytes

-- What `main` of addr_build comes to: the form in which the key was given, its CBOR and its bytes,
-- and the lines of the networks.
pub data Built : Type 0 where
  private_cbor private_hex : (key_cbor key_bytes : Bytes) → Lines → Built
  invalid_key fatal : Built

module _ (keys : KeyLib) where
  -- The tests of a key that was decoded: 32 bytes are taken; 64 are cut to 32 and refused.
  abbrev pub of_length : Bytes → Option Bytes
  of_length k = if length k == 64 then none else if not (length k == 32) then none else some k

  -- The key that `attemptPrivateCbor` takes, with its CBOR.
  unfoldable pub attempt_private_cbor : Bytes → Option (Bytes × Bytes)
  attempt_private_cbor key = elim (keys.decode_hex key) [
    | none ↦ none
    | some c ↦ elim (keys.unmarshal_bytes c) [
      | none ↦ none
      | some k ↦ elim (of_length k) [ none ↦ none | some s ↦ some (c, s) ]
    ]
  ]

  -- The key that `attemptPrivateHex` takes.
  unfoldable pub attempt_private_hex : Bytes → Option Bytes
  attempt_private_hex key = elim (keys.decode_hex key) [ none ↦ none | some k ↦ of_length k ]

  -- `main` of addr_build, from the key of the command line on.
  unfoldable pub build_main : Bech32 → List AddressFormat → Bytes → Built
  unfolding attempt_private_cbor attempt_private_hex encode_pubkey_all_networks
  build_main lib order key = elim (attempt_private_cbor (trim key)) [
    | some (c, k) ↦ private_cbor c k (encode_pubkey_all_networks lib order (keys.public_key k))
    | none ↦ elim (attempt_private_hex (trim key)) [
      | none ↦ invalid_key
      | some k ↦ elim (keys.marshal_bytes k) [
        | none ↦ fatal
        | some c ↦ private_hex c k (encode_pubkey_all_networks lib order (keys.public_key k))
      ]
    ]
  ]
