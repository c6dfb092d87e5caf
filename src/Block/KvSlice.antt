-- ===== src/Block/KvSlice.antt =====
-- block.go: `KVSlice`, the maps of auxiliary data, and its form in CBOR.
use mathlib.Core.List.{Permᴰ}
use cardano_go.Common.{
  All, Bool, Bytes, List, Option, [], any, ap, arith, false, if◌then◌else◌, leb, length, ltb, none,
  refl, some, suc, zero, ℕ, ◌%◌, ◌&&◌, ◌++◌, ◌+◌, ◌-◌, ◌∙◌, ◌∷◌, ◌≡◌, ◌≤◌,
}

-- `KVSlice`, over the keys and values that the CBOR package can be given.
abbrev pub KvSlice {ℓ κ} : Type ℓ → Type κ → Type (ℓ ⊔ κ)
KvSlice K V = List (K × V)

-- The map that the first loop fills: of the values of a key, the last one counts.
unfoldable pub to_map {ℓ κ} : {K : Type ℓ} {V : Type κ} → (K → K → Bool) → KvSlice K V → KvSlice K V
to_map same [] = []
to_map same (e ∷ s) =
    let rest : KvSlice _ _ = to_map same s in
    if any (λ x. same x.0 e.0) rest then rest else e ∷ rest

-- The second loop: `cbor.Marshal` of each key and of its value.
unfoldable pub marshal_entries {ℓ κ} :
    {K : Type ℓ} {V : Type κ} → (K → Option Bytes) → (V → Option Bytes) → KvSlice K V → Option Bytes
marshal_entries key value [] = some []
marshal_entries key value (e ∷ s) = elim (key e.0) [
  | none ↦ none
  | some k ↦ elim (value e.1) [
    | none ↦ none
    | some v ↦ elim (marshal_entries key value s) [ none ↦ none | some r ↦ some (k ++ (v ++ r)) ]
  ]
]

-- `KVSlice.MarshalCBOR`; `order` is the order in which the loop visits the map.
unfoldable pub marshal_slice {ℓ κ} :
    {K : Type ℓ} {V : Type κ}
    → (K → K → Bool)
    → (K → Option Bytes)
    → (V → Option Bytes)
    → (KvSlice K V → KvSlice K V)
    → KvSlice K V
    → Option Bytes
unfolding to_map marshal_entries
marshal_slice same key value order s = elim (marshal_entries key value (order (to_map same s))) [
  | none ↦ none
  | some b ↦ some ((160 + length (to_map same s)) % 256 ∷ b)
]

-- The map of RFC 8949: a byte with the number of entries, 23 at most, and the entries.
abbrev pub read_entries {ℓ κ} :
    {K : Type ℓ} {V : Type κ}
    → (Bytes → Option (K × Bytes))
    → (Bytes → Option (V × Bytes))
    → ℕ
    → Bytes
    → Option (KvSlice K V × Bytes)
read_entries key value zero d = some ([], d)
read_entries key value (suc n) d = elim (key d) [
  | none ↦ none
  | some k ↦ elim (value k.1) [
    | none ↦ none
    | some v ↦ elim (read_entries key value n v.1) [
      | none ↦ none
      | some r ↦ some ((k.0, v.0) ∷ r.0, r.1)
    ]
  ]
]

abbrev pub read_map {ℓ κ} :
    {K : Type ℓ} {V : Type κ}
    → (Bytes → Option (K × Bytes))
    → (Bytes → Option (V × Bytes))
    → Bytes
    → Option (KvSlice K V × Bytes)
read_map key value [] = none
read_map key value (b ∷ d) =
    if leb 160 b && ltb b 184 then read_entries key value (b - 160) d else none

-- The CBOR package reads back what it wrote.
abbrev pub Inverts {ℓ} : {A : Type ℓ} → (A → Option Bytes) → (Bytes → Option (A × Bytes)) → Type ℓ
Inverts {A} marshal unmarshal =
    (a : A) (b rest : Bytes) → marshal a ≡ some b → unmarshal (b ++ rest) ≡ some (a, rest)

-- No key stands twice.
abbrev pub IsDistinct {ℓ κ} : {K : Type ℓ} {V : Type κ} → (K → K → Bool) → KvSlice K V → Type 0
IsDistinct same [] = Unit
IsDistinct same (e ∷ s) = (any (λ x. same x.0 e.0) s ≡ false) × IsDistinct same s

-- The CBOR package takes the value.
abbrev pub Marshals {ℓ} : {A : Type ℓ} → (A → Option Bytes) → A → Type 0
Marshals marshal a = (b : Bytes) × (marshal a ≡ some b)

pub All-perm {ℓ κ} :
    {A : Type ℓ} (P : A → Type κ) {xs ys : List A} → Permᴰ xs ys → All P ys → All P xs
All-perm P Permᴰ.nil h = tt
All-perm P (Permᴰ.cons e p) h = (rw e h.0, All-perm P p h.1)
All-perm P (Permᴰ.swap e f) h = (rw e h.1.0, (rw f h.0, h.1.1))
All-perm P (Permᴰ.trans p q) h = All-perm P p (All-perm P q h)

length-perm {ℓ} : {A : Type ℓ} {xs ys : List A} → Permᴰ xs ys → length xs ≡ length ys
length-perm Permᴰ.nil = refl
length-perm (Permᴰ.cons e p) = ap suc (length-perm p)
length-perm (Permᴰ.swap e f) = refl
length-perm (Permᴰ.trans p q) = length-perm p ∙ length-perm q

module _ {K V : Type 0} (same : K → K → Bool) (key : K → Option Bytes)
    (value : V → Option Bytes) where
  to_map-IsDistinct : (s : KvSlice K V) → IsDistinct same s → to_map same s ≡ s
  unfolding to_map
  to_map-IsDistinct [] d = refl
  to_map-IsDistinct (e ∷ s) d = rw (to_map-IsDistinct s d.1, d.0) refl

  pub marshal_slice-IsDistinct :
      (order : KvSlice K V → KvSlice K V) (s : KvSlice K V) (b : Bytes)
      → IsDistinct same s
      → length s ≤ 23
      → marshal_entries key value (order s) ≡ some b
      → marshal_slice same key value order s ≡ some ((160 + length s) ∷ b)
  unfolding marshal_slice
  marshal_slice-IsDistinct order s b d few m =
      let head : (160 + length s) % 256 ≡ 160 + length s = omega (arith, few) in
      rw (marshal_slice, to_map-IsDistinct s d, m) (rw (to_map-IsDistinct s d, head) refl)

module _ {K V : Type 0} (same : K → K → Bool) (key : K → Option Bytes) (value : V → Option Bytes)
    (read_key : Bytes → Option (K × Bytes)) (read_value : Bytes → Option (V × Bytes))
    (keys : Inverts key read_key) (values : Inverts value read_value) where
  read_entries-marshal_entries :
      (s : KvSlice K V)
      → All (λ (e : K × V). Marshals key e.0 × Marshals value e.1) s
      → (b : Bytes) × (marshal_entries key value s ≡ some b)
        × (read_entries read_key read_value (length s) b ≡ some (s, []))
  unfolding marshal_entries
  read_entries-marshal_entries [] h = ([], refl, refl)
  read_entries-marshal_entries ((k, v) ∷ s) (((kb, ke), (vb, ve)), h) =
      let (b, m, r) = read_entries-marshal_entries s h in
      (
        kb ++ (vb ++ b),
        rw (marshal_entries, ke, ve, m) refl,
        rw (keys k kb (vb ++ b) ke, values v vb b ve, r) refl,
      )

  -- Where the CBOR package reads back what it wrote, a `KVSlice` of at most 23 entries, with keys
  -- that are distinct and keys and values that the package takes, is written without an error, and
  -- what is written is a CBOR map that reads back as the entries, in whatever order the map is
  -- visited.
  pub read_map-marshal_slice :
      (order : KvSlice K V → KvSlice K V) (s : KvSlice K V)
      → ((m : KvSlice K V) → Permᴰ (order m) m)
      → IsDistinct same s
      → length s ≤ 23
      → All (λ (e : K × V). Marshals key e.0 × Marshals value e.1) s
      → (out : Bytes) × (es : KvSlice K V) × (marshal_slice same key value order s ≡ some out)
        × (read_map read_key read_value out ≡ some (es, []))
        × Permᴰ es s
  read_map-marshal_slice order s perm d few h =
      let (b, m, r) =
        read_entries-marshal_entries (order s)
          (All-perm (λ (e : K × V). Marshals key e.0 × Marshals value e.1) (perm s) h) in
      (
        (160 + length s) ∷ b,
        order s,
        marshal_slice-IsDistinct same key value order s b d few m,
        rw (← length-perm (perm s)) (ground (arith, few, length-perm (perm s), r)),
        perm s,
      )
