-- ===== src/Address/Header.antt =====
-- The methods of `AddressHeader`. A header is a byte; `order` is the order in which Go iterates
-- over `AddressTypeMap`.
use cardano_go.Common.{
  Bool, Bytes, List, Result, [], bytes_eq, drop, err, false, find, has_prefix, if◌then◌else◌,
  length, none, ok, or_fail, some, take, true, ℕ, ◌++◌, ◌-◌, ◌||◌, ◌∷◌, ◌>>=◌,
}
use cardano_go.Network.{NetworkParams, main_net_params, pre_prod_params, private_net_params}
use cardano_go.Address.Bits.{to_bytes, from_bytes}
use cardano_go.Address.Types.{
  AddressType, AddressHeaderType, AddressHeaderNetwork, AddressFormat, AddressError,
  invalid_network_bits, invalid_type_bits, address_header_network_testnet,
  address_header_network_mainnet, format_of_type,
}

abbrev pub AddressHeader : Type 0
AddressHeader = ℕ

-- `bytes.HasSuffix`, of an array of eight bytes and one of four.
has_suffix : Bytes → Bytes → Bool
unfolding bytes_eq
has_suffix s suffix = bytes_eq (drop (length s - length suffix) s) suffix

-- `AddressHeader.Network`
unfoldable pub network : AddressHeader → Result AddressError AddressHeaderNetwork
unfolding to_bytes has_suffix
network a =
    or_fail
      (find (λ n. has_suffix (to_bytes a) n)
        (address_header_network_mainnet ∷ address_header_network_testnet ∷ []))
      (invalid_network_bits a)

-- `AddressHeader.Type`
unfoldable pub type_of : List AddressFormat → AddressHeader → Result AddressError AddressType
unfolding to_bytes
type_of order a = elim (find (λ t. has_prefix (to_bytes a) t.header_type) order) [
  | some t ↦ ok t.typ
  | none ↦ err (invalid_type_bits a)
]

-- `AddressHeader.Validate`
unfoldable pub validate : List AddressFormat → AddressHeader → Result AddressError (Unit {0})
unfolding network type_of
validate order a = do n ← network a; t ← type_of order a; ok tt

-- `AddressHeader.Valid`
unfoldable pub valid : List AddressFormat → AddressHeader → Bool
unfolding validate
valid order a = elim (validate order a) [ ok _ ↦ true | _ ↦ false ]

-- `AddressHeader.Format`
unfoldable pub format : List AddressFormat → AddressHeader → Result AddressError AddressFormat
unfolding type_of format_of_type
format order a = do t ← type_of order a; format_of_type order t

-- `AddressHeader.IsForNetwork`
unfoldable pub is_for_network : NetworkParams → AddressHeader → Result AddressError Bool
unfolding network bytes_eq
is_for_network params a = do
  n ← network a
  ok (
      if bytes_eq n address_header_network_mainnet
      then bytes_eq params.name main_net_params.name
      else if bytes_eq n address_header_network_testnet
      then bytes_eq params.name pre_prod_params.name || bytes_eq params.name private_net_params.name
      else false)

-- `AddressHeader.SetType`
unfoldable pub set_type : AddressHeaderType → AddressHeader → AddressHeader
unfolding to_bytes from_bytes
set_type header_type a = from_bytes (header_type ++ drop 4 (to_bytes a))

-- `AddressHeader.SetNetwork`
unfoldable pub set_network : AddressHeaderNetwork → AddressHeader → AddressHeader
unfolding to_bytes from_bytes
set_network network' a = from_bytes (take 4 (to_bytes a) ++ network')
