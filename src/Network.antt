-- ===== src/Network.antt =====
-- network.go: the networks, their parameters, and the validation that `Params` makes.
use cardano_go.Common.{
  Bool, Bytes, Option, Result, arith, bytes_eq, bytes_eq_iff, codes, err, false, if◌then◌else◌,
  none, not, ok, panic, some, true, ℕ, ◌||◌, ◌≡◌, ◌⊎◌,
}

-- A Go string.
abbrev pub Network : Type 0
Network = Bytes

abbrev pub network_main_net : Network
network_main_net = codes "mainnet"

abbrev pub network_pre_prod : Network
network_pre_prod = codes "preprod"

abbrev pub network_private_net : Network
network_private_net = codes "privnet"

pub record NetworkParams : Type 0 where
  pub name : Network
  pub magic : ℕ
  pub start_time : ℕ
  pub byron_block : ℕ
  pub address_prefix : Bytes
  pub delegation_prefix : Bytes

abbrev pub network_magic_main_net : ℕ
network_magic_main_net = 764824073

abbrev pub network_magic_pre_prod : ℕ
network_magic_pre_prod = 1

abbrev pub network_magic_private_net : ℕ
network_magic_private_net = 42

-- The three globals, as `init` leaves them; a field that it does not set is zero.
abbrev pub main_net_params : NetworkParams
main_net_params = record {
  name = network_main_net;
  magic = network_magic_main_net;
  start_time = 1506203091;
  byron_block = 4492800;
  address_prefix = codes "addr";
  delegation_prefix = codes "stake";
}

abbrev pub pre_prod_params : NetworkParams
pre_prod_params = record {
  name = network_pre_prod;
  magic = network_magic_pre_prod;
  start_time = 1564020236;
  byron_block = 46;
  address_prefix = codes "addr";
  delegation_prefix = codes "stake";
}

abbrev pub private_net_params : NetworkParams
private_net_params = record {
  name = network_private_net;
  magic = network_magic_private_net;
  start_time = 0;
  byron_block = 0;
  address_prefix = codes "addr_test";
  delegation_prefix = codes "stake_test";
}

pub data NetworkError : Type 0 where
  invalid_network : Network → NetworkError

-- `Network.Valid`
unfoldable pub valid : Network → Bool
valid n =
    bytes_eq n network_main_net || bytes_eq n network_pre_prod || bytes_eq n network_private_net

-- `Network.Validate`
unfoldable pub validate : Network → Result NetworkError (Unit {0})
unfolding valid
validate n = if not (valid n) then err (invalid_network n) else ok tt

-- The switch of `Params`; past its cases the function returns a nil pointer and no error.
unfoldable pub params_of : Network → Option NetworkParams
params_of n =
    if bytes_eq n network_main_net
    then some main_net_params
    else if bytes_eq n network_pre_prod
    then some pre_prod_params
    else if bytes_eq n network_private_net
    then some private_net_params
    else none

-- `Network.Params`
unfoldable pub params : Network → Result NetworkError (Option NetworkParams)
unfolding validate params_of
params n = elim (validate n) [ ok _ ↦ ok (params_of n) | err e ↦ err e | panic ↦ panic ]

-- `Params` never gives a nil pointer without an error: on a valid network it gives that network's
-- own parameters, on any other the error that names it.
pub params_total :
    (n : Network)
    → ((valid n ≡ true) × ((p : NetworkParams) × (params n ≡ ok (some p)) × (p.name ≡ n)))
      ⊎ ((valid n ≡ false) × (params n ≡ err (invalid_network n)))
unfolding params valid
params_total n = ground (
  arith,
  bytes_eq_iff n network_main_net,
  bytes_eq_iff n network_pre_prod,
  bytes_eq_iff n network_private_net,
)
