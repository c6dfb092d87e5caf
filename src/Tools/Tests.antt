-- ===== src/Tools/Tests.antt =====
-- Runs of the commands.
use cardano_go.Address.Types.{address_type_map}
use cardano_go.Tools.Trim.{NoneCut}
use cardano_go.Network.{network_main_net}
use mathlib.Core.List.Perm
use cardano_go.Common.{
  Bytes, Option, [], ap, arith, codes, length, map, none, ok, refl, replicate, some, ℕ, ◌++◌, ◌+◌,
  ◌-◌, ◌<◌, ◌∷◌, ◌≡◌,
}
use cardano_go.Address.Toy.{toy, toy-IsFaithful}
use cardano_go.Tools.Defs.{Shown, shown, KeyLib, decode_round, build_round}
use cardano_go.Tools.Laws.{KeyLaws, decode_round-build_round}

-- Digits above the blanks and quotes, and a byte in front of a byte string.
abbrev shift : Bytes → Bytes
shift s = map (λ (x : ℕ). x + 35) s

abbrev unshift : Bytes → Bytes
unshift s = map (λ (x : ℕ). x - 35) s

abbrev tail_of : Bytes → Option Bytes
tail_of [] = none
tail_of (b ∷ s) = some s

abbrev keys : KeyLib
keys = record {
  decode_hex = λ s. some (unshift s);
  unmarshal_bytes = tail_of;
  marshal_bytes = λ k. some (88 ∷ k);
  public_key = λ k. k;
}

unshift-shift : (s : Bytes) → keys.decode_hex (shift s) ≡ some s
unshift-shift s = ap (λ (t : Bytes). some t) (go s)
  where
    go : (s : Bytes) → unshift (shift s) ≡ s
    go [] = refl
    go (x ∷ s) = ground (arith, go s)

shift-NoneCut : (s : Bytes) → NoneCut (shift s)
shift-NoneCut [] = tt
shift-NoneCut (x ∷ s) = (ground arith, shift-NoneCut s)

marshal-tail_of : (k c : Bytes) → keys.marshal_bytes k ≡ some c → keys.unmarshal_bytes c ≡ some k
marshal-tail_of k c e = let same : 88 ∷ k ≡ c = cc in rw (← same) refl

tail_of-shorter : (c k : Bytes) → keys.unmarshal_bytes c ≡ some k → length k < length c
tail_of-shorter [] k e = cc
tail_of-shorter (b ∷ c) k e = let same : c ≡ k = cc in rw (← same) (omega arith)

keys-KeyLaws : KeyLaws keys shift
keys-KeyLaws = record {
  decode-hex = unshift-shift;
  hex-NoneCut = shift-NoneCut;
  marshal-some = λ k. (88 ∷ k, refl);
  unmarshal-marshal = marshal-tail_of;
  unmarshal-shorter = tail_of-shorter;
}

abbrev key : Bytes
key = replicate 32 1

-- An address of a payment key, with its prefix in front.
abbrev text : Bytes
text = 4 ∷ (codes "addr" ++ (0x61 ∷ replicate 28 7))

abbrev line : Shown
line = record {
  network = network_main_net;
  header_byte = 0x61;
  converted = 0x61 ∷ replicate 28 7;
  encoded = text;
}

builds_line : build_round toy address_type_map key network_main_net ≡ ok (shown line ∷ [])
unfolding build_round cardano_go.Address.Codec.encode_address cardano_go.Network.params
    cardano_go.Address.Types.format_of_type cardano_go.Address.Header.set_network
    cardano_go.Address.Header.set_type
builds_line = refl

decode_round-build_round_example :
    decode_round toy address_type_map text network_main_net ≡ ok (shown line ∷ [])
decode_round-build_round_example =
    decode_round-build_round toy address_type_map key network_main_net line toy-IsFaithful
      (Perm.refl address_type_map) builds_line
