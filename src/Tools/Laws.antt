-- ===== src/Tools/Laws.antt =====
-- What cmd/addr_build prints, and that cmd/addr_decode reads it.
use mathlib.Core.List.{Perm}
use cardano_go.Common.{
  Bytes, List, Option-cases, [], ap, arith, bind-ok, inl, inr, is_err, is_ok, is_panic, length,
  none, ok, or_fail, refl, see, some, ◌++◌, ◌<◌, ◌∙◌, ◌∷◌, ◌≡◌,
}
use cardano_go.Network.{Network}
use cardano_go.Address.Types.{AddressFormat, address_type_map, address_type_payment}
use cardano_go.Address.Codec.{
  Address, Bech32, header, bech32_string, lift_address, encode_address, decode_failed,
  convert_bits_failed,
}
use cardano_go.Address.Decode.{IsFaithful, decode_address-encode_address}
use cardano_go.Tools.Defs.{
  Shown, inspect, shown, KeyLib, build_round, build_main, of_length, attempt_private_hex,
  attempt_private_cbor, decode_round, private_hex, encode_pubkey_all_networks, private_cbor,
}
use cardano_go.Tools.Trim.{NoneCut, AllCut, trim-between, trim}

inspect-ok :
    (lib : Bech32) (a : Address) (net : Network) (s : Shown)
    → inspect lib a net ≡ ok s
    → bech32_string lib a net ≡ ok s.encoded
unfolding inspect
inspect-ok lib a net s e =
    let (t, f, g) = bind-ok (bech32_string lib a net) _ s e in
    let (h, f1, g1) = bind-ok (lift_address (header a)) _ s g in
    let (d, f2, g2) = bind-ok (or_fail (lib.og_decode t) decode_failed) _ s g1 in
    let (c, f3, g3) = bind-ok (or_fail (lib.og_convert_bits d.1) convert_bits_failed) _ s g2 in
    let same : t ≡ s.encoded = ground (arith, g3) in rw (← same) f

build_round-ok :
    (lib : Bech32) (order : List AddressFormat) (key : Bytes) (net : Network) (s : Shown)
    → build_round lib order key net ≡ ok (shown s ∷ [])
    → (a : Address) × (encode_address lib order key net address_type_payment ≡ ok a)
      × (inspect lib a net ≡ ok s)
unfolding build_round
build_round-ok lib order key net s e =
    elim (see (encode_address lib order key net address_type_payment)) [
      | is_err x f ↦ absurd (ground (arith, e, f))
      | is_panic f ↦ absurd (ground (arith, e, f))
      | is_ok a f ↦
          let (t, g, h) =
            bind-ok (inspect lib a net) (λ x. ok (shown x ∷ [])) (shown s ∷ [])
              (ground (arith, e, f)) in
          let same : t ≡ s = ground (arith, h) in (a, f, g ∙ ap ok same)
    ]

-- With packages that keep their laws, the text that addr_build prints of a key for a network is
-- read by addr_decode, which prints the same lines for that network: the same header, bytes and
-- text, in whatever order the table of types is visited.
pub decode_round-build_round :
    (lib : Bech32) (order : List AddressFormat) (key : Bytes) (net : Network) (s : Shown)
    → IsFaithful lib
    → Perm order address_type_map
    → build_round lib order key net ≡ ok (shown s ∷ [])
    → decode_round lib order s.encoded net ≡ ok (shown s ∷ [])
unfolding decode_round
decode_round-build_round lib order key net s laws perm e =
    let (a, f, g) = build_round-ok lib order key net s e in
    let (d, _, _, _) =
      decode_address-encode_address lib laws order key net address_type_payment a s.encoded perm f
        (inspect-ok lib a net s g) in
    rw (decode_round, d, g) refl

-- What hex, the CBOR package and the texts of hex digits document: a text in hexadecimal has no
-- blank and no quote; decoding undoes encoding; a byte string in CBOR is longer than its bytes.
pub record KeyLaws (keys : KeyLib) (hex : Bytes → Bytes) : Type 0 where
  pub decode-hex : (s : Bytes) → keys.decode_hex (hex s) ≡ some s
  pub hex-NoneCut : (s : Bytes) → NoneCut (hex s)
  pub marshal-some : (k : Bytes) → (c : Bytes) × (keys.marshal_bytes k ≡ some c)
  pub unmarshal-marshal :
      (k c : Bytes) → keys.marshal_bytes k ≡ some c → keys.unmarshal_bytes c ≡ some k
  pub unmarshal-shorter : (c k : Bytes) → keys.unmarshal_bytes c ≡ some k → length k < length c

module _ (keys : KeyLib) (hex : Bytes → Bytes) (laws : KeyLaws keys hex) where
  of_length-32 : (k : Bytes) → length k ≡ 32 → of_length keys k ≡ some k
  of_length-32 k n = ground (arith, n)

  of_length-short : (k : Bytes) → length k < 32 → of_length keys k ≡ none
  of_length-short k n = ground (arith, n)

  -- 32 bytes are no byte string of 32 bytes.
  attempt_private_cbor-seed : (k : Bytes) → length k ≡ 32 → attempt_private_cbor keys (hex k) ≡ none
  unfolding attempt_private_cbor
  attempt_private_cbor-seed k n = elim (Option-cases (keys.unmarshal_bytes k)) [
    | inl e ↦ rw (attempt_private_cbor, laws.decode-hex k, e) refl
    | inr (s, e) ↦
        let short : of_length keys s ≡ none =
          of_length-short s (omega (arith, laws.unmarshal-shorter k s e, n)) in
        rw (attempt_private_cbor, laws.decode-hex k, e, short) refl
  ]

  attempt_private_cbor-cbor :
      (k c : Bytes)
      → length k ≡ 32
      → keys.marshal_bytes k ≡ some c
      → attempt_private_cbor keys (hex c) ≡ some (c, k)
  unfolding attempt_private_cbor
  attempt_private_cbor-cbor k c n e =
      rw (attempt_private_cbor, laws.decode-hex c, laws.unmarshal-marshal k c e, of_length-32 k n)
        refl

  attempt_private_hex-seed : (k : Bytes) → length k ≡ 32 → attempt_private_hex keys (hex k) ≡ some k
  unfolding attempt_private_hex
  attempt_private_hex-seed k n = rw (attempt_private_hex, laws.decode-hex k, of_length-32 k n) refl

  -- A private key of 32 bytes, given in hexadecimal or as the hexadecimal of its CBOR, with any
  -- blanks and quotes around it, is taken by addr_build in its form, with the same CBOR and the same
  -- lines of the networks.
  build_main_lem :
      (lib : Bech32) (order : List AddressFormat) (pre post k : Bytes)
      → AllCut pre
      → AllCut post
      → length k ≡ 32
      → (c : Bytes) × (keys.marshal_bytes k ≡ some c)
        × (build_main keys lib order (pre ++ (hex k ++ post))
            ≡ private_hex c k (encode_pubkey_all_networks lib order (keys.public_key k)))
        × (build_main keys lib order (pre ++ (hex c ++ post))
            ≡ private_cbor c k (encode_pubkey_all_networks lib order (keys.public_key k)))
  unfolding build_main
  build_main_lem lib order pre post k a b n =
      let (c, e) = laws.marshal-some k in
      let seed : trim (pre ++ (hex k ++ post)) ≡ hex k =
        trim-between pre (hex k) post a (laws.hex-NoneCut k) b in
      (
        c,
        e,
        rw (build_main, seed, attempt_private_cbor-seed k n)
            (rw (seed, attempt_private_hex-seed k n, e) refl),
        rw
            (
              build_main,
              trim-between pre (hex c) post a (laws.hex-NoneCut c) b,
              attempt_private_cbor-cbor k c n e,
            )
            refl,
      )
