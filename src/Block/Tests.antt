-- ===== src/Block/Tests.antt =====
-- Runs over outputs and maps.
use cardano_go.Block.KvSlice.{Inverts, marshal_slice, read_map, read_map-marshal_slice}
use cardano_go.Common.{
  Bool, Bytes, List, Option, [], arith, if◌then◌else◌, length, ltb, map, none, refl, some, ℕ, ◌+◌,
  ◌==◌, ◌∷◌, ◌≡◌,
}
use mathlib.Core.List.{Permᴰ, reverse}
use mathlib.Core.List.Permᴰ
use cardano_go.Block.Outputs.{
  Subtype, transaction_output_b, transaction_output_g, other, TransactionOutputGeneric, OutputType,
  output_a, subtypes, iterate_outputs, unmarshal_subtype,
}

-- A callback that sums up the amounts, below a limit.
abbrev sum_up : ℕ → TransactionOutputGeneric → ℕ → ℕ × Option ℕ
sum_up i out total =
    if ltb 100 (total + out.amount) then (total, some i) else (total + out.amount, none)

abbrev outputs : List Subtype
outputs = transaction_output_b [] 30 ∷ transaction_output_g [] 40 ∷ other ∷ []

sums : (iterate_outputs sum_up outputs 0).0 ≡ 70
unfolding iterate_outputs
sums = refl

abbrev decode : OutputType → Bytes → Option ℕ
decode output_a s = none
decode _ s = some (length s)

decodes : unmarshal_subtype decode subtypes (1 ∷ []) ≡ some 1
unfolding unmarshal_subtype
decodes = refl

-- Numbers below 24, each written as one byte.
abbrev number : ℕ → Option Bytes
number n = some (n ∷ [])

abbrev read_number : Bytes → Option (ℕ × Bytes)
read_number [] = none
read_number (b ∷ d) = some (b, d)

number-Inverts : Inverts number read_number
number-Inverts n b rest h = let same : n ∷ [] ≡ b = cc in rw (← same) refl

abbrev equal : ℕ → ℕ → Bool
equal m n = m == n

abbrev slice : List (ℕ × ℕ)
slice = (1, 7) ∷ (2, 8) ∷ []

read_map-marshal_slice_example :
    (out : Bytes) × (es : List (ℕ × ℕ)) × (marshal_slice equal number number reverse slice
      ≡ some out)
    × (read_map read_number read_number out ≡ some (es, []))
    × Permᴰ es slice
read_map-marshal_slice_example =
    read_map-marshal_slice equal number number read_number read_number number-Inverts number-Inverts
      reverse slice Permᴰ.reverse (refl, (refl, tt)) (omega arith)
      (((1 ∷ [], refl), (7 ∷ [], refl)), (((2 ∷ [], refl), (8 ∷ [], refl)), tt))

-- The last value of a key counts.
last_counts :
    marshal_slice equal number number reverse ((1, 9) ∷ slice) ≡ some (162 ∷ 2 ∷ 8 ∷ 1 ∷ 7 ∷ [])
unfolding marshal_slice
last_counts = refl

abbrev many : List (ℕ × ℕ)
many =
    map (λ (n : ℕ). (n, 0))
      (0 ∷ 1 ∷ 2 ∷ 3 ∷ 4 ∷ 5 ∷ 6 ∷ 7 ∷ 8 ∷ 9 ∷ 10 ∷ 11 ∷ 12 ∷ 13 ∷ 14 ∷ 15 ∷ 16 ∷ 17 ∷ 18 ∷ 19 ∷ 20
        ∷ 21 ∷ 22 ∷ 23 ∷ [])

abbrev first : Option Bytes → Bytes
first (some (b ∷ d)) = b ∷ []
first _ = []

-- From 24 entries on the first byte is no number of entries.
too_many : first (marshal_slice equal number number reverse many) ≡ 184 ∷ []
unfolding marshal_slice
too_many = refl
