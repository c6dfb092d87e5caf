-- ===== src/Address/Toy.antt =====
-- A stand-in for the third-party packages of address.go that has their laws.
use cardano_go.Common.{
  All, Bytes, IsByte, [], arith, drop, drop-append, length, none, refl, replicate, some, suc, take,
  take-append, zero, ℕ, ◌++◌, ◌∷◌, ◌≡◌,
}
use cardano_go.Address.Codec.{Bech32}
use cardano_go.Address.Decode.{IsFaithful}

-- A prefix, its length before it, and the data.
abbrev pub toy : Bech32
toy = record {
  convert_and_encode = λ p d. some (length p ∷ (p ++ d));
  decode_and_convert = λ s. elim s [ [] ↦ none | n ∷ rest ↦ some (take n rest, drop n rest) ];
  og_decode = λ s. elim s [ [] ↦ none | n ∷ rest ↦ some (take n rest, drop n rest) ];
  og_convert_bits = λ s. some s;
  blake2b_224 = λ d. some (replicate 28 7);
}

toy-reads :
    (prefix d s : Bytes)
    → toy.convert_and_encode prefix d ≡ some s
    → toy.decode_and_convert s ≡ some (prefix, d)
toy-reads prefix d [] e = ground (arith, e)
toy-reads prefix d (n ∷ rest) e =
    let a : n ≡ length prefix = ground (arith, e) in
    let b : rest ≡ prefix ++ d = ground (arith, e) in
    rw (a, b, take-append prefix d, drop-append prefix d) refl

toy-digest : (k h : Bytes) → toy.blake2b_224 k ≡ some h → replicate 28 7 ≡ h
toy-digest k h e = ground (arith, e)

sevens : (n : ℕ) → All IsByte (replicate n 7)
sevens zero = tt
sevens (suc n) = (omega arith, sevens n)

pub toy-IsFaithful : IsFaithful toy
toy-IsFaithful = record {
  digest_length = λ k h e. rw (← toy-digest k h e) refl;
  digest_bytes = λ k h e. rw (← toy-digest k h e) (sevens 28);
  decode-encode = λ p net d s e bytes small f. toy-reads p.address_prefix d s f;
}
