-- ===== src/Block/HeaderTests.antt =====
-- A run of the hash of a block, with a small encoding and no hashing.
use cardano_go.Common.{Bytes, [], ap, arith, length, refl, true, ℕ, ◌++◌, ◌+◌, ◌∷◌, ◌≡◌}
use cardano_go.Client.Defs.{ℤ, pos, negsuc}
use cardano_go.Block.AuxValue.{Scalar, uint, negative, byte_key}
use cardano_go.Block.AuxData.{Encoder}
use cardano_go.Block.Header.{
  Block, BlockHeader, Separates, int_scalar, hash, point_and_number, point_and_number-hash,
}

abbrev scalar_bytes : Scalar → Bytes
scalar_bytes (uint n) = 0 ∷ n ∷ []
scalar_bytes (negative n) = 1 ∷ n ∷ []
scalar_bytes (byte_key s) = 2 ∷ length s ∷ s
scalar_bytes _ = 3 ∷ []

abbrev encoder : Encoder
encoder = record {
  scalar_bytes = scalar_bytes;
  array_head = λ n. (128 + n) ∷ [];
  tag_head = λ n. n ∷ [];
  well_formed = λ b. true;
}

parts : (a b r s : Bytes) → length a ≡ length b → a ++ r ≡ b ++ s → (a ≡ b) × (r ≡ s)
parts [] [] r s l e = (refl, e)
parts [] (y ∷ b) r s l e = absurd (omega (arith, l))
parts (x ∷ a) [] r s l e = absurd (omega (arith, l))
parts (x ∷ a) (y ∷ b) r s l e =
    let k : length a ≡ length b = omega (arith, l) in
    let f : a ++ r ≡ b ++ s = cc in let (t, u) = parts a b r s k f in let v : x ≡ y = cc in (cc, u)

integers :
    (i j : ℤ) (r s : Bytes)
    → scalar_bytes (int_scalar i) ++ r ≡ scalar_bytes (int_scalar j) ++ s
    → (i ≡ j) × (r ≡ s)
integers (pos m) (pos n) r s e = let v : m ≡ n = cc in (ap pos v, cc)
integers (pos m) (negsuc n) r s e = absurd (ground (arith, e))
integers (negsuc m) (pos n) r s e = absurd (ground (arith, e))
integers (negsuc m) (negsuc n) r s e = let v : m ≡ n = cc in (ap negsuc v, cc)

strings :
    (a b r s : Bytes)
    → scalar_bytes (byte_key a) ++ r ≡ scalar_bytes (byte_key b) ++ s
    → (a ≡ b) × (r ≡ s)
strings a b r s e =
    let l : length a ≡ length b = cc in let f : a ++ r ≡ b ++ s = cc in parts a b r s l f

separates : Separates encoder
separates = record { heads = λ n r s e. cc; integers = integers; strings = strings }

abbrev sample : BlockHeader
sample = record {
  body = record {
    number = 7;
    slot = 90;
    prev_hash = 1 ∷ [];
    issuer_vkey = 2 ∷ [];
    vrf_key = 3 ∷ [];
    vrf_result = record { pt1 = 4 ∷ []; pt2 = [] };
    body_size = 12;
    body_hash = 5 ∷ [];
    operational_cert = record {
      hot_vkey = [];
      sequence = 1;
      kes_period = negsuc 0;
      sigma = 6 ∷ [];
    };
    protocol_version = record { pt1 = pos 9; pt2 = pos 0 };
  };
  signature = 7 ∷ 8 ∷ [];
}

-- The rest is a number here.
abbrev block : ℕ → Block ℕ
block n = record { era = 6; header = sample; rest = n }

point_and_number-hash_example :
    ((block 1).header ≡ (block 2).header)
    × (point_and_number encoder (λ s. s) (block 1) ≡ point_and_number encoder (λ s. s) (block 2))
unfolding hash
point_and_number-hash_example =
    point_and_number-hash encoder (λ s. s) (block 1) (block 2) separates (λ e. e) refl
