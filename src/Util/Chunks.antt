-- ===== src/Util/Chunks.antt =====
-- `ChunkString` of util.go, on the runes of the string.
use cardano_go.Common.{
  Bool-cases, List, [], ap, arith, drop, inl, inr, leb, length, length-drop, length-take, refl, suc,
  take, take-append-drop, zero, ℕ, ◌++◌, ◌<◌, ◌∙◌, ◌∷◌, ◌≡◌, ◌≤◌, ◌⊎◌,
}

module _ {ℓ} {A : Type ℓ} where
  -- The loop; a round takes a rune at least.
  unfoldable pub chunks_from : ℕ → ℕ → List A → List (List A)
  chunks_from zero n xs = []
  chunks_from (suc fuel) n [] = []
  chunks_from (suc fuel) n (x ∷ xs) = take n (x ∷ xs) ∷ chunks_from fuel n (drop n (x ∷ xs))

  -- `ChunkString`; a size of 0 stands for the negative ones too.
  unfoldable pub chunk_string : List A → ℕ → List (List A)
  unfolding chunks_from
  chunk_string xs zero = []
  chunk_string xs (suc n) = chunks_from (length xs) (suc n) xs

  abbrev pub join : List (List A) → List A
  join [] = []
  join (c ∷ cs) = c ++ join cs

  -- Every chunk has between one rune and `n`, and every one but the last has `n`.
  abbrev pub IsCut : ℕ → List (List A) → Type ℓ
  IsCut n [] = Unit
  IsCut n (c ∷ cs) = (0 < length c) × (length c ≤ n) × ((cs ≡ []) ⊎ (length c ≡ n)) × IsCut n cs

  chunks_from-join :
      (fuel n : ℕ) (xs : List A) → 0 < n → length xs ≤ fuel → join (chunks_from fuel n xs) ≡ xs
  unfolding chunks_from
  chunks_from-join zero n [] pos h = refl
  chunks_from-join zero n (x ∷ xs) pos h = absurd (omega (arith, h))
  chunks_from-join (suc fuel) n [] pos h = refl
  chunks_from-join (suc fuel) n (x ∷ xs) pos h =
      let less : length (drop n (x ∷ xs)) ≤ fuel = omega (arith, length-drop n (x ∷ xs), pos, h) in
      ap (λ (l : List A). take n (x ∷ xs) ++ l) (chunks_from-join fuel n (drop n (x ∷ xs)) pos less)
      ∙ take-append-drop n (x ∷ xs)

  chunks_from-nil : (fuel n : ℕ) (xs : List A) → length xs ≡ 0 → chunks_from fuel n xs ≡ []
  unfolding chunks_from
  chunks_from-nil zero n xs h = refl
  chunks_from-nil (suc fuel) n [] h = refl
  chunks_from-nil (suc fuel) n (x ∷ xs) h = absurd (omega (arith, h))

  whole_or_last :
      (fuel n : ℕ) (xs : List A) → (chunks_from fuel n (drop n xs) ≡ []) ⊎ (length (take n xs) ≡ n)
  whole_or_last fuel n xs = elim (Bool-cases (leb n (length xs))) [
    | inl e ↦
        let le : n ≤ length xs = ground (arith, e) in inr (omega (arith, length-take n xs, le))
    | inr e ↦
        let lt : length xs < n = ground (arith, e) in
        inl (chunks_from-nil fuel n (drop n xs) (omega (arith, length-drop n xs, lt)))
  ]

  chunks_from-IsCut : (fuel n : ℕ) (xs : List A) → 0 < n → IsCut n (chunks_from fuel n xs)
  unfolding chunks_from
  chunks_from-IsCut zero n xs pos = tt
  chunks_from-IsCut (suc fuel) n [] pos = tt
  chunks_from-IsCut (suc fuel) n (x ∷ xs) pos = (
    omega (arith, length-take n (x ∷ xs), pos),
    omega (arith, length-take n (x ∷ xs)),
    whole_or_last fuel n (x ∷ xs),
    chunks_from-IsCut fuel n (drop n (x ∷ xs)) pos,
  )

  -- With a size above 0, the chunks make up the string, each has at least one rune and at most the
  -- size, and all but the last have the size.
  pub chunk_string-join :
      (xs : List A) (n : ℕ) → 0 < n → (join (chunk_string xs n) ≡ xs) × IsCut n (chunk_string xs n)
  unfolding chunk_string
  chunk_string-join xs zero pos = absurd (omega (arith, pos))
  chunk_string-join xs (suc n) pos = (
    chunks_from-join (length xs) (suc n) xs pos (omega arith),
    chunks_from-IsCut (length xs) (suc n) xs pos,
  )
