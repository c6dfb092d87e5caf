-- ===== src/Address/Types.antt =====
-- The address types, the bits that stand for them, and the table `AddressTypeMap`.
use cardano_go.Common.{Bytes, List, Result, [], find, or_fail, ℕ, ◌==◌, ◌∷◌}

-- A Go int; a value outside the constants, a negative one too, is in no row of the table.
abbrev pub AddressType : Type 0
AddressType = ℕ

abbrev pub AddressHeaderType : Type 0
AddressHeaderType = Bytes

abbrev pub AddressHeaderNetwork : Type 0
AddressHeaderNetwork = Bytes

pub record AddressFormat : Type 0 where
  pub typ : AddressType
  pub header_type : AddressHeaderType

abbrev bits : ℕ → ℕ → ℕ → ℕ → Bytes
bits a b c d = a ∷ b ∷ c ∷ d ∷ []

abbrev pub address_type_payment : AddressType
address_type_payment = 6

abbrev pub address_header_network_testnet : AddressHeaderNetwork
address_header_network_testnet = bits 0 0 0 0

abbrev pub address_header_network_mainnet : AddressHeaderNetwork
address_header_network_mainnet = bits 0 0 0 1

abbrev row : AddressType → AddressHeaderType → AddressFormat
row t h = record { typ = t; header_type = h }

-- `AddressTypeMap`, its rows in the order of the types. Go iterates over a map in no fixed order:
-- the functions that do so take the order as an argument.
abbrev pub address_type_map : List AddressFormat
address_type_map =
    row 0 (bits 0 0 0 0)
    ∷ row 1 (bits 0 0 0 1)
    ∷ row 2 (bits 0 0 1 0)
    ∷ row 3 (bits 0 0 1 1)
    ∷ row 4 (bits 0 1 0 0)
    ∷ row 5 (bits 0 1 0 1)
    ∷ row 6 (bits 0 1 1 0)
    ∷ row 7 (bits 0 1 1 1)
    ∷ row 8 (bits 1 1 1 0)
    ∷ row 9 (bits 1 1 1 1)
    ∷ []

pub data AddressError : Type 0 where
  empty_address : AddressError
  invalid_address_type : AddressType → AddressError
  invalid_network_bits : ℕ → AddressError
  invalid_type_bits : ℕ → AddressError

-- `AddressType.Format`: the first row of that type.
unfoldable pub format_of_type : List AddressFormat → AddressType → Result AddressError AddressFormat
format_of_type order a = or_fail (find (λ t. t.typ == a) order) (invalid_address_type a)
