-- ===== src/Block/Outputs.antt =====
-- block.go: the outputs of a transaction; protocol.go: `SubtypeOf` and `Optional`.
use cardano_go.Common.{
  All, Bool, Bytes, List, Option, Option-cases, [], ap, arith, false, inl, inr, none, refl, some,
  suc, true, ℕ, ◌&&◌, ◌++◌, ◌∙◌, ◌∷◌, ◌≡◌,
}

-- `AmountData`; what it maps to assets is not looked at.
pub record AmountData : Type 0 where
  pub amount : ℕ
  pub mappings : List (Bytes × List (Bytes × ℕ))

-- The types of an output, in the order of `TransactionOutput.Subtypes`.
pub data OutputType : Type 0 where
  output_a output_b output_c output_d output_e output_f output_g : OutputType

abbrev pub subtypes : List OutputType
subtypes = output_a ∷ output_b ∷ output_c ∷ output_d ∷ output_e ∷ output_f ∷ output_g ∷ []

-- A decoded subtype: one of the seven, or a value of another type.
pub data Subtype : Type 0 where
  transaction_output_a :
      (address : Bytes) (amount_data : AmountData) (extra : Option (ℕ × Bytes)) → Subtype
  transaction_output_b : (address : Bytes) (amount : ℕ) → Subtype
  transaction_output_c : (address : Bytes) (amount : ℕ) (address2 : Bytes) → Subtype
  transaction_output_d : (address : Bytes) (amount_data : AmountData) (extra : List Bytes) → Subtype
  transaction_output_e : (address : Bytes) (amount_data : AmountData) (extra : Bytes) → Subtype
  transaction_output_f : (address : Bytes) (amount_data : AmountData) → Subtype
  transaction_output_g : (address : Bytes) (amount : ℕ) → Subtype
  other : Subtype

-- `TransactionOutputGeneric`
pub record TransactionOutputGeneric : Type 0 where
  pub address : Bytes
  pub amount : ℕ

pub data OutputError {ℓ} (E : Type ℓ) : Type ℓ where
  unknown_output : OutputError E
  callback : E → OutputError E

-- `TransactionOutput.ToGeneric`; the error is `none`.
unfoldable pub to_generic : Subtype → Option TransactionOutputGeneric
to_generic (transaction_output_a address amount_data extra) =
    some (record { address = address; amount = amount_data.amount })
to_generic (transaction_output_b address amount) =
    some (record { address = address; amount = amount })
to_generic (transaction_output_c address amount address2) =
    some (record { address = address; amount = amount })
to_generic (transaction_output_d address amount_data extra) =
    some (record { address = address; amount = amount_data.amount })
to_generic (transaction_output_e address amount_data extra) =
    some (record { address = address; amount = amount_data.amount })
to_generic (transaction_output_f address amount_data) =
    some (record { address = address; amount = amount_data.amount })
to_generic (transaction_output_g address amount) =
    some (record { address = address; amount = amount })
to_generic other = none

-- `SubtypeOf.UnmarshalCBOR`: the first type that the CBOR package can decode the bytes to.
unfoldable pub unmarshal_subtype {ℓ κ} :
    {T : Type ℓ} {S : Type κ} → (T → Bytes → Option S) → List T → Bytes → Option S
unmarshal_subtype decode [] s = none
unmarshal_subtype decode (t ∷ ts) s = elim (decode t s) [
  | some x ↦ some x
  | none ↦ unmarshal_subtype decode ts s
]

-- The callback of `IterateOutputs`, with the state that it changes.
module _ {ℓ κ} {S : Type ℓ} {E : Type κ}
    (cb : ℕ → TransactionOutputGeneric → S → S × Option E) where
  -- The loop of `IterateOutputs`, from an index on, with the state after it.
  unfoldable pub iterate_from : ℕ → List Subtype → S → S × Option (OutputError E)
  unfolding to_generic
  iterate_from index [] s = (s, none)
  iterate_from index (o ∷ os) s = elim (to_generic o) [
    | none ↦ (s, some unknown_output)
    | some out ↦ elim (cb index out s).1 [
      | some x ↦ ((cb index out s).0, some (callback x))
      | none ↦ iterate_from (suc index) os (cb index out s).0
    ]
  ]

  -- `IterateOutputs`
  unfoldable pub iterate_outputs : List Subtype → S → S × Option (OutputError E)
  unfolding iterate_from
  iterate_outputs os s = iterate_from 0 os s

-- The outputs before the first one of an unknown type, with their indices.
abbrev pub known_outputs : ℕ → List Subtype → List (ℕ × TransactionOutputGeneric)
known_outputs i [] = []
known_outputs i (o ∷ os) = elim (to_generic o) [
  | some out ↦ (i, out) ∷ known_outputs (suc i) os
  | none ↦ []
]

abbrev pub is_known : Subtype → Bool
is_known o = elim (to_generic o) [ some out ↦ true | none ↦ false ]

abbrev pub all_known : List Subtype → Bool
all_known [] = true
all_known (o ∷ os) = is_known o && all_known os

-- The calls of a callback in turn, until one of them fails.
abbrev pub each {ℓ κ} :
    {S : Type ℓ} {E : Type κ}
    → (ℕ → TransactionOutputGeneric → S → S × Option E)
    → List (ℕ × TransactionOutputGeneric)
    → S
    → S × Option E
each cb [] s = (s, none)
each cb (x ∷ xs) s = elim (cb x.0 x.1 s).1 [
  | some y ↦ ((cb x.0 x.1 s).0, some y)
  | none ↦ each cb xs (cb x.0 x.1 s).0
]

-- What the loop comes to, by the error of the calls and whether all types are known.
abbrev pub finish {ℓ κ} :
    {S : Type ℓ} {E : Type κ} → S × Option E → Bool → S × Option (OutputError E)
finish (s, some y) known = (s, some (callback y))
finish (s, none) true = (s, none)
finish (s, none) false = (s, some unknown_output)

iterate_from-each :
    {S E : Type 0} (cb : ℕ → TransactionOutputGeneric → S → S × Option E) (i : ℕ)
    (os : List Subtype) (s : S)
    → iterate_from cb i os s ≡ finish (each cb (known_outputs i os) s) (all_known os)
unfolding iterate_from
iterate_from-each cb i [] s = refl
iterate_from-each cb i (o ∷ os) s = elim (Option-cases (to_generic o)) [
  | inl n ↦ rw (iterate_from, known_outputs, all_known, is_known, n) refl
  | inr (out, n) ↦ elim (Option-cases (cb i out s).1) [
    | inl k ↦
        rw (iterate_from, known_outputs, all_known, is_known, each, n, k)
          (iterate_from-each cb (suc i) os (cb i out s).0)
    | inr (x, k) ↦ rw (iterate_from, known_outputs, all_known, is_known, each, n, k) refl
  ]
]

-- `IterateOutputs` calls its callback on the outputs in their order, with their indices, up to the
-- first one of an unknown type, and ends with the first error of a call; where no call fails, it
-- fails exactly where an output has an unknown type.
iterate_outputs_lem :
    {S E : Type 0} (cb : ℕ → TransactionOutputGeneric → S → S × Option E) (os : List Subtype)
    (s : S)
    → iterate_outputs cb os s ≡ finish (each cb (known_outputs 0 os) s) (all_known os)
unfolding iterate_outputs
iterate_outputs_lem cb os s = iterate_from-each cb 0 os s

-- `UnmarshalCBOR` gives the value of a type that decodes the bytes, where no earlier type of the
-- list does.
unmarshal_subtype-some :
    {T S : Type 0} (decode : T → Bytes → Option S) (ts : List T) (s : Bytes) (x : S)
    → unmarshal_subtype decode ts s ≡ some x
    → (before : List T) × (t : T) × (after : List T) × (ts ≡ before ++ t ∷ after)
      × (decode t s ≡ some x)
      × All (λ (u : T). decode u s ≡ none) before
unfolding unmarshal_subtype
unmarshal_subtype-some decode [] s x h = cc
unmarshal_subtype-some decode (t ∷ ts) s x h = elim (Option-cases (decode t s)) [
  | inr (y, k) ↦ ([], t, ts, refl, k ∙ ground (arith, h, k), tt)
  | inl k ↦
      let (before, u, after, split, dec, none_before) =
        unmarshal_subtype-some decode ts s x (ground (arith, h, k)) in
      (t ∷ before, u, after, ap (◌∷◌ t) split, dec, (k, none_before))
]
