-- ===== src/Block/Header.antt =====
-- block.go: the header of a block, and the hash and the point of the block. The CBOR package is the
-- argument `Encoder`; nil byte strings, which it writes as null, are left out.
use cardano_go.Common.{Bytes, List, [], ap, refl, ℕ, ◌++◌, ◌∷◌, ◌≡◌}
use cardano_go.Client.Defs.{ℤ, pos, negsuc}
use cardano_go.Block.AuxValue.{Scalar, uint, negative, byte_key}
use cardano_go.Block.AuxData.{Encoder}
use cardano_go.Block.Points.{Point, PointAndBlockNum}

pub record VrfCert : Type 0 where
  pub pt1 : Bytes
  pub pt2 : Bytes

pub record OperationalCert : Type 0 where
  pub hot_vkey : Bytes
  pub sequence : ℕ
  pub kes_period : ℤ
  pub sigma : Bytes

pub record ProtocolVersion : Type 0 where
  pub pt1 : ℤ
  pub pt2 : ℤ

pub record HeaderBody : Type 0 where
  pub number : ℕ
  pub slot : ℕ
  pub prev_hash : Bytes
  pub issuer_vkey : Bytes
  pub vrf_key : Bytes
  pub vrf_result : VrfCert
  pub body_size : ℕ
  pub body_hash : Bytes
  pub operational_cert : OperationalCert
  pub protocol_version : ProtocolVersion

pub record BlockHeader : Type 0 where
  pub body : HeaderBody
  pub signature : Bytes

-- A block: its header, and the rest of its data.
pub record Block {ℓ} (Rest : Type ℓ) : Type ℓ where
  pub era : ℕ
  pub header : BlockHeader
  pub rest : Rest

-- What a struct that is written `toarray` consists of: the heads of the arrays, and the fields.
pub data Piece : Type 0 where
  head number : ℕ → Piece
  integer : ℤ → Piece
  hex : Bytes → Piece

abbrev pub pieces : BlockHeader → List Piece
pieces h =
    head 2
    ∷ head 10
    ∷ number h.body.number
    ∷ number h.body.slot
    ∷ hex h.body.prev_hash
    ∷ hex h.body.issuer_vkey
    ∷ hex h.body.vrf_key
    ∷ head 2
    ∷ hex h.body.vrf_result.pt1
    ∷ hex h.body.vrf_result.pt2
    ∷ number h.body.body_size
    ∷ hex h.body.body_hash
    ∷ head 4
    ∷ hex h.body.operational_cert.hot_vkey
    ∷ number h.body.operational_cert.sequence
    ∷ integer h.body.operational_cert.kes_period
    ∷ hex h.body.operational_cert.sigma
    ∷ head 2
    ∷ integer h.body.protocol_version.pt1
    ∷ integer h.body.protocol_version.pt2
    ∷ hex h.signature
    ∷ []

-- Two lists of pieces have fields of the same types in the same arrays.
data SameShape : List Piece → List Piece → Type 0 where
  no_pieces : SameShape [] []
  heads : {n : ℕ} {rs ss : List Piece} → SameShape rs ss → SameShape (head n ∷ rs) (head n ∷ ss)
  numbers :
      {m n : ℕ} {rs ss : List Piece} → SameShape rs ss → SameShape (number m ∷ rs) (number n ∷ ss)
  integers :
      {m n : ℤ} {rs ss : List Piece} → SameShape rs ss → SameShape (integer m ∷ rs) (integer n ∷ ss)
  strings :
      {m n : Bytes} {rs ss : List Piece} → SameShape rs ss → SameShape (hex m ∷ rs) (hex n ∷ ss)

abbrev pub int_scalar : ℤ → Scalar
int_scalar (pos n) = uint n
int_scalar (negsuc n) = negative n

module _ (enc : Encoder) where
  abbrev pub piece_bytes : Piece → Bytes
  piece_bytes (head n) = enc.array_head n
  piece_bytes (number n) = enc.scalar_bytes (uint n)
  piece_bytes (integer i) = enc.scalar_bytes (int_scalar i)
  piece_bytes (hex s) = enc.scalar_bytes (byte_key s)

  abbrev pub write_pieces : List Piece → Bytes
  write_pieces [] = []
  write_pieces (p ∷ ps) = piece_bytes p ++ write_pieces ps

  -- `cbor.Marshal` of a header.
  unfoldable pub marshal_header : BlockHeader → Bytes
  marshal_header h = write_pieces (pieces h)

  -- CBOR is self-delimiting: where two fields of a type stand at the same place, their values and
  -- what is behind them can be told from the bytes.
  pub record Separates : Type 0 where
    pub heads : (n : ℕ) (r s : Bytes) → enc.array_head n ++ r ≡ enc.array_head n ++ s → r ≡ s
    pub integers :
        (i j : ℤ) (r s : Bytes)
        → enc.scalar_bytes (int_scalar i) ++ r ≡ enc.scalar_bytes (int_scalar j) ++ s
        → (i ≡ j) × (r ≡ s)
    pub strings :
        (a b : Bytes) (r s : Bytes)
        → enc.scalar_bytes (byte_key a) ++ r ≡ enc.scalar_bytes (byte_key b) ++ s
        → (a ≡ b) × (r ≡ s)

  write_pieces-injective :
      (ps qs : List Piece)
      → Separates
      → SameShape ps qs
      → write_pieces ps ≡ write_pieces qs
      → ps ≡ qs
  write_pieces-injective ps qs sep no_pieces e = refl
  write_pieces-injective ps qs sep (heads {n} {rs} {ss} h) e =
      ap (◌∷◌ (head n))
        (write_pieces-injective rs ss sep h (sep.heads n (write_pieces rs) (write_pieces ss) e))
  write_pieces-injective ps qs sep (numbers {m} {n} {rs} {ss} h) e =
      let (u, r) = sep.integers (pos m) (pos n) (write_pieces rs) (write_pieces ss) e in
      let t : rs ≡ ss = write_pieces-injective rs ss sep h r in let v : m ≡ n = cc in cc
  write_pieces-injective ps qs sep (integers {m} {n} {rs} {ss} h) e =
      let (u, r) = sep.integers m n (write_pieces rs) (write_pieces ss) e in
      let t : rs ≡ ss = write_pieces-injective rs ss sep h r in cc
  write_pieces-injective ps qs sep (strings {m} {n} {rs} {ss} h) e =
      let (u, r) = sep.strings m n (write_pieces rs) (write_pieces ss) e in
      let t : rs ≡ ss = write_pieces-injective rs ss sep h r in cc

  -- A header is known by its CBOR.
  marshal_header-injective :
      (h k : BlockHeader) → Separates → marshal_header h ≡ marshal_header k → h ≡ k
  unfolding marshal_header
  marshal_header-injective h k sep e =
      let shape : SameShape (pieces h) (pieces k) =
        search (no_pieces, heads, numbers, integers, strings) depth 25 in
      let same : pieces h ≡ pieces k = write_pieces-injective (pieces h) (pieces k) sep shape e in
      cc

  -- `blake2b.Sum256`
  module _ {ℓ} {Rest : Type ℓ} (sum256 : Bytes → Bytes) where
    -- `Block.Hash`
    unfoldable pub hash : Block Rest → Bytes
    unfolding marshal_header
    hash b = sum256 (marshal_header b.header)

    -- `Block.Point`
    unfoldable pub point : Block Rest → Point
    unfolding hash
    point b = record { slot = b.header.body.slot; hash = hash b }

    -- `Block.PointAndNumber`
    unfoldable pub point_and_number : Block Rest → PointAndBlockNum
    unfolding point
    point_and_number b = record { point = point b; block = b.header.body.number }

    -- CBOR that tells fields and arrays apart, and headers without a collision of their hashes:
    -- blocks of the same hash have the same header, and the same point and number, whatever the rest
    -- of the blocks is.
    pub point_and_number-hash :
        (b c : Block Rest)
        → Separates
        → (sum256 (marshal_header b.header) ≡ sum256 (marshal_header c.header)
            → marshal_header b.header ≡ marshal_header c.header)
        → hash b ≡ hash c
        → (b.header ≡ c.header) × (point_and_number b ≡ point_and_number c)
    unfolding hash point_and_number
    point_and_number-hash b c sep injective e =
        let same : b.header ≡ c.header =
          marshal_header-injective b.header c.header sep (injective e) in
        (
          same,
          ap
              (λ (h : BlockHeader). record {
                point = record { slot = h.body.slot; hash = sum256 (marshal_header h) };
                block = h.body.number;
              })
              same,
        )
