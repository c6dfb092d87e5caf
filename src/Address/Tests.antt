-- ===== src/Address/Tests.antt =====
-- Runs of the address code.
use mathlib.Core.List.{Perm}
use mathlib.Core.List.Perm
use cardano_go.Common.{
  Bytes, List, [], bytes_eq, codes, drop, length, ok, refl, replicate, ◌++◌, ◌∷◌, ◌≡◌,
}
use cardano_go.Network.{network_main_net}
use cardano_go.Address.Types.{AddressFormat, address_type_map, address_header_network_mainnet}
use cardano_go.Address.Header.{set_type, set_network}
use cardano_go.Address.Codec.{
  encode_address, bech32_string, decode_address, address_type, address_network,
}
use cardano_go.Address.Toy.{toy, toy-IsFaithful}
use cardano_go.Address.Decode.{network_bits, decode_address-encode_address}

abbrev key : Bytes
key = replicate 32 1

-- Type 6 on the main net.
abbrev address : Bytes
address = 0x61 ∷ replicate 28 7

abbrev text : Bytes
text = 4 ∷ (codes "addr" ++ address)

same_order : Perm address_type_map address_type_map
same_order = Perm.refl address_type_map

built : encode_address toy address_type_map key network_main_net 6 ≡ ok address
unfolding encode_address cardano_go.Network.params cardano_go.Address.Types.format_of_type
    set_network set_type
built = refl

printed : bech32_string toy address network_main_net ≡ ok text
unfolding bech32_string cardano_go.Network.params cardano_go.Common.bytes_eq
printed = refl

decode_address-encode_address_example :
    (decode_address toy address_type_map text network_main_net ≡ ok address)
    × (address_type address_type_map address ≡ ok 6)
    × (address_network address ≡ ok (network_bits network_main_net))
    × (length address ≡ 29)
decode_address-encode_address_example =
    decode_address-encode_address toy toy-IsFaithful address_type_map key network_main_net 6 address
      text same_order built printed

abbrev first_row : AddressFormat
first_row = record { typ = 0; header_type = 0 ∷ 0 ∷ 0 ∷ 0 ∷ [] }

abbrev second_row : AddressFormat
second_row = record { typ = 1; header_type = 0 ∷ 0 ∷ 0 ∷ 1 ∷ [] }

-- The table with its first two rows the other way round.
abbrev other_order : List AddressFormat
other_order = second_row ∷ first_row ∷ drop 2 address_type_map

other_order-Perm : Perm other_order address_type_map
other_order-Perm = Perm.swap first_row second_row (drop 2 address_type_map)
