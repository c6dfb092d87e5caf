-- ===== src/Address/HeaderLaws.antt =====
-- The header byte against CIP-19: the type is the high half byte, the network the low one.
use mathlib.Core.List.{Memᴰ}
use cardano_go.Common.{
  ==_iff, All, All-mem, Bool, IsByte, Option, Result, all_below, all_below_sound, arith, bytes_eq,
  eq_of_bytes_eq, err, false, if◌then◌else◌, leb, ltb, none, not, ok, or_fail, refl, some, true, ℕ,
  ◌%◌, ◌&&◌, ◌*◌, ◌+◌, ◌/◌, ◌<◌, ◌==◌, ◌||◌, ◌↔◌, ◌∙◌, ◌≡◌, ◌≤◌, ◌⊎◌,
}
use cardano_go.Address.Types.{
  AddressType, AddressFormat, AddressHeaderNetwork, AddressError, invalid_network_bits,
  invalid_type_bits, address_header_network_testnet, address_header_network_mainnet,
  address_type_map,
}
use cardano_go.Address.Header.{network, type_of, valid, set_type, set_network}

-- The half byte of a type: 0 to 7, 14 and 15.
abbrev pub code_of_type : AddressType → ℕ
code_of_type t = if ltb t 8 then t else t + 6

abbrev pub type_of_code : ℕ → Option AddressType
type_of_code c =
    if ltb c 8 then some c else if c == 14 then some 8 else if c == 15 then some 9 else none

abbrev pub network_of_code : ℕ → Option AddressHeaderNetwork
network_of_code c =
    if c == 1
    then some address_header_network_mainnet
    else if c == 0
    then some address_header_network_testnet
    else none

agrees_type : Result AddressError AddressType → ℕ → Bool
agrees_type (ok t) a = elim (type_of_code (a / 16)) [ some u ↦ t == u | none ↦ false ]
agrees_type (err (invalid_type_bits b)) a = elim (type_of_code (a / 16)) [
  | some u ↦ false
  | none ↦ b == a
]
agrees_type _ a = false

agrees_type-eq :
    (r : Result AddressError AddressType) (a : ℕ)
    → agrees_type r a ≡ true
    → r ≡ or_fail (type_of_code (a / 16)) (invalid_type_bits a)
unfolding agrees_type
agrees_type-eq (ok t) a h = ground arith
agrees_type-eq (err (invalid_type_bits b)) a h = ground arith
agrees_type-eq _ a h = ground arith

type_table : all_below 256 (λ a. agrees_type (type_of address_type_map a) a) ≡ true
unfolding all_below agrees_type type_of
type_table = refl

-- The type of a header is read off its high half byte alone.
pub type_of-code :
    (a : ℕ)
    → IsByte a
    → type_of address_type_map a ≡ or_fail (type_of_code (a / 16)) (invalid_type_bits a)
type_of-code a h = agrees_type-eq _ a (all_below_sound 256 _ a type_table h)

agrees_network : Result AddressError AddressHeaderNetwork → ℕ → Bool
unfolding bytes_eq
agrees_network (ok n) a = elim (network_of_code (a % 16)) [ some m ↦ bytes_eq n m | none ↦ false ]
agrees_network (err (invalid_network_bits b)) a = elim (network_of_code (a % 16)) [
  | some m ↦ false
  | none ↦ b == a
]
agrees_network _ a = false

agrees_network-eq :
    (r : Result AddressError AddressHeaderNetwork) (a : ℕ)
    → agrees_network r a ≡ true
    → r ≡ or_fail (network_of_code (a % 16)) (invalid_network_bits a)
unfolding agrees_network
agrees_network-eq (ok n) a h = ground (
  arith,
  eq_of_bytes_eq n address_header_network_mainnet,
  eq_of_bytes_eq n address_header_network_testnet,
)
agrees_network-eq (err (invalid_network_bits b)) a h = ground arith
agrees_network-eq _ a h = ground arith

network_table : all_below 256 (λ a. agrees_network (network a) a) ≡ true
unfolding all_below agrees_network network
network_table = refl

-- The network of a header is read off its low half byte alone.
pub network-code :
    (a : ℕ) → IsByte a → network a ≡ or_fail (network_of_code (a % 16)) (invalid_network_bits a)
network-code a h = agrees_network-eq _ a (all_below_sound 256 _ a network_table h)

abbrev valid_code : ℕ → Bool
valid_code a = ltb (a % 16) 2 && (ltb (a / 16) 8 || leb 14 (a / 16))

valid_table :
    all_below 256 (λ a. if valid address_type_map a then valid_code a else not (valid_code a))
    ≡ true
unfolding all_below valid
valid_table = refl

-- A header is valid exactly when its low half byte is 0 or 1 and its high one is none of 8 to 13.
valid-code :
    (a : ℕ)
    → IsByte a
    → (valid address_type_map a ≡ true) ↔ ((a % 16 < 2) × ((a / 16 < 8) ⊎ (14 ≤ a / 16)))
valid-code a h =
    let t : (if valid address_type_map a then valid_code a else not (valid_code a)) ≡ true =
      all_below_sound 256 _ a valid_table h in
    (λ v. ground (arith, t), λ v. ground (arith, t))

abbrev SetsCode : AddressFormat → Type 0
SetsCode f =
    all_below 256 (λ a. set_type f.header_type a == code_of_type f.typ * 16 + a % 16) ≡ true

set_type_table : All SetsCode address_type_map
unfolding all_below set_type
set_type_table = (refl, (refl, (refl, (refl, (refl, (refl, (refl, (refl, (refl, (refl, tt))))))))))

-- `SetType` writes the high half byte and keeps the low one.
set_type-code :
    (f : AddressFormat) (a : ℕ)
    → Memᴰ f address_type_map
    → IsByte a
    → set_type f.header_type a ≡ code_of_type f.typ * 16 + a % 16
set_type-code f a m h =
    (==_iff _ _).0 (all_below_sound 256 _ a (All-mem SetsCode set_type_table m) h)

pub typ_table : All (λ f. f.typ < 10) address_type_map
typ_table = omega arith

set_mainnet_table :
    all_below 256 (λ a. set_network address_header_network_mainnet a == a / 16 * 16 + 1) ≡ true
unfolding all_below set_network
set_mainnet_table = refl

set_testnet_table :
    all_below 256 (λ a. set_network address_header_network_testnet a == a / 16 * 16) ≡ true
unfolding all_below set_network
set_testnet_table = refl

set_mainnet-code :
    (a : ℕ) → IsByte a → set_network address_header_network_mainnet a ≡ a / 16 * 16 + 1
set_mainnet-code a h = (==_iff _ _).0 (all_below_sound 256 _ a set_mainnet_table h)

set_testnet-code : (a : ℕ) → IsByte a → set_network address_header_network_testnet a ≡ a / 16 * 16
set_testnet-code a h = (==_iff _ _).0 (all_below_sound 256 _ a set_testnet_table h)

pub data IsNetwork : AddressHeaderNetwork → Type 0 where
  mainnet : {n : AddressHeaderNetwork} → n ≡ address_header_network_mainnet → IsNetwork n
  testnet : {n : AddressHeaderNetwork} → n ≡ address_header_network_testnet → IsNetwork n

abbrev pub code_of_network : {n : AddressHeaderNetwork} → IsNetwork n → ℕ
code_of_network (mainnet _) = 1
code_of_network (testnet _) = 0

set_network-code :
    {n : AddressHeaderNetwork} (i : IsNetwork n) (a : ℕ)
    → IsByte a
    → set_network n a ≡ a / 16 * 16 + code_of_network i
set_network-code (mainnet e) a h = rw e (set_mainnet-code a h)
set_network-code (testnet e) a h = rw e (omega (arith, set_testnet-code a h))

network_of_code-network :
    {n : AddressHeaderNetwork} (i : IsNetwork n) → network_of_code (code_of_network i) ≡ some n
network_of_code-network (mainnet e) = rw e
network_of_code-network (testnet e) = rw e

network_lt : {n : AddressHeaderNetwork} (i : IsNetwork n) → code_of_network i < 2
network_lt (mainnet _) = omega arith
network_lt (testnet _) = omega arith

pub type_of_code-code : (t : ℕ) → t < 10 → type_of_code (code_of_type t) ≡ some t
type_of_code-code t h = ground arith

-- A header built by `SetType` and then `SetNetwork`, whatever it held before, is the byte whose
-- halves are the codes of that type and network.
pub built_header :
    (f : AddressFormat) {n : AddressHeaderNetwork} (i : IsNetwork n) (a : ℕ)
    → Memᴰ f address_type_map
    → IsByte a
    → set_network n (set_type f.header_type a) ≡ code_of_type f.typ * 16 + code_of_network i
built_header f i a m h =
    let b : code_of_type f.typ < 16 = ground (arith, All-mem (λ g. g.typ < 10) typ_table m) in
    let e : set_type f.header_type a ≡ code_of_type f.typ * 16 + a % 16 = set_type-code f a m h in
    rw (e, set_network-code i (code_of_type f.typ * 16 + a % 16) (omega arith)) (omega arith)

-- A header built by `SetType` and then `SetNetwork`, for a row of the table and one of the two
-- networks, whatever byte it held before, is a byte, and reads back that type and that network.
pub header_round_trip :
    (f : AddressFormat) {n : AddressHeaderNetwork} (i : IsNetwork n) (a : ℕ)
    → Memᴰ f address_type_map
    → IsByte a
    → (type_of address_type_map (set_network n (set_type f.header_type a)) ≡ ok f.typ)
      × (network (set_network n (set_type f.header_type a)) ≡ ok n)
      × IsByte (set_network n (set_type f.header_type a))
header_round_trip f i a m h =
    let t : f.typ < 10 = All-mem (λ g. g.typ < 10) typ_table m in
    let c : code_of_network i < 2 = network_lt i in
    let b : code_of_type f.typ < 16 = ground arith in
    let y : code_of_type f.typ * 16 + code_of_network i < 256 = omega arith in
    let q : (code_of_type f.typ * 16 + code_of_network i) / 16 ≡ code_of_type f.typ = omega arith in
    let r : (code_of_type f.typ * 16 + code_of_network i) % 16 ≡ code_of_network i = omega arith in
    rw (built_header f i a m h) (
      type_of-code _ y ∙ rw (q, type_of_code-code f.typ t),
      network-code _ y ∙ rw (r, network_of_code-network i),
      y,
    )
