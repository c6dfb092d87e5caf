-- ===== src/Client/Connect.antt =====
-- client.go: what the loop of `connect` does.
use cardano_go.Common.{
  Bool, Bool-cases, Result, ap, arith, err, false, if◌then◌else◌, inl, inr, ok, refl, subst, suc,
  true, zero, ℕ, ◌+◌, ◌-◌, ◌<◌, ◌==◌, ◌∙◌, ◌≡◌, ◌≤◌, ◌⊎◌,
}
use cardano_go.Client.Defs.{
  ClientError, dial_failed, open_failed, connect_from, connect, max_attempts,
}

-- Every attempt from `first` on, before `last`, fails to dial.
abbrev pub AllFail : (ℕ → Bool) → ℕ → ℕ → Type 0
AllFail dial first last = (i : ℕ) → first ≤ i → i < last → dial i ≡ false

module _ (dial opens : ℕ → Bool) where
  connect_from-dialed :
      (left k : ℕ)
      → dial k ≡ true
      → connect_from dial opens (suc left) k ≡ (0, if opens k then ok tt else err open_failed)
  unfolding connect_from
  connect_from-dialed left k e = rw (connect_from, e) refl

  connect_from-last :
      (left : ℕ)
      → dial max_attempts ≡ false
      → connect_from dial opens (suc left) max_attempts ≡ (0, err dial_failed)
  unfolding connect_from
  connect_from-last left e = rw (connect_from, e) refl

  connect_from-again :
      (left k : ℕ)
      → dial k ≡ false
      → k < max_attempts
      → connect_from dial opens (suc left) k
        ≡ (suc (connect_from dial opens left (suc k)).0, (connect_from dial opens left (suc k)).1)
  unfolding connect_from
  connect_from-again left k e l =
      let f : (k == max_attempts) ≡ false = ground arith in rw (connect_from, e, f) refl

  AllFail-suc : (k m : ℕ) → dial k ≡ false → AllFail dial (suc k) m → AllFail dial k m
  AllFail-suc k m e f i a b = elim (Bool-cases (i == k)) [
    | inl h ↦ let same : i ≡ k = ground (arith, h) in rw same e
    | inr h ↦ f i (ground (arith, h, a)) b
  ]

  -- An attempt succeeds to dial, or none does.
  abbrev Outcome : ℕ → ℕ → Type 0
  Outcome left k =
      ((j : ℕ) × (k ≤ j)
        × (j ≤ max_attempts)
        × AllFail dial k j
        × (dial j ≡ true)
        × (connect_from dial opens (suc left) k
            ≡ (j - k, if opens j then ok tt else err open_failed)))
      ⊎ (AllFail dial k (suc max_attempts)
          × (connect_from dial opens (suc left) k ≡ (left, err dial_failed)))

  outcome-dialed : (left k : ℕ) → k ≤ max_attempts → dial k ≡ true → Outcome left k
  outcome-dialed left k l e = inl (
    k,
    omega arith,
    l,
    λ i a b. absurd (omega (arith, a, b)),
    e,
    connect_from-dialed left k e
        ∙ ap (λ (n : ℕ). (n, if opens k then ok tt else err open_failed)) (omega arith),
  )

  outcome-later :
      (left k : ℕ) → k < max_attempts → dial k ≡ false → Outcome left (suc k) → Outcome (suc left) k
  outcome-later left k l e (inl (j, a, b, f, d, r)) = inl (
    j,
    omega (arith, a),
    b,
    AllFail-suc k j e f,
    d,
    connect_from-again (suc left) k e l
        ∙ ap (λ (x : ℕ × Result ClientError (Unit {0})). (suc x.0, x.1)) r
        ∙ ap (λ (n : ℕ). (n, if opens j then ok tt else err open_failed)) (omega (arith, a)),
  )
  outcome-later left k l e (inr (f, r)) = inr (
    AllFail-suc k (suc max_attempts) e f,
    connect_from-again (suc left) k e l
        ∙ ap (λ (x : ℕ × Result ClientError (Unit {0})). (suc x.0, x.1)) r,
  )

  outcome : (left k : ℕ) → suc left + k ≡ suc max_attempts → Outcome left k
  outcome zero k n = elim (Bool-cases (dial k)) [
    | inl e ↦ outcome-dialed 0 k (omega (arith, n)) e
    | inr e ↦
        let top : k ≡ max_attempts = omega (arith, n) in
        inr (
          AllFail-suc k (suc max_attempts) e (λ i a b. absurd (omega (arith, a, b, n))),
          ap (connect_from dial opens 1) top
              ∙ connect_from-last 0 (subst (λ (i : ℕ). dial i ≡ false) top e),
        )
  ]
  outcome (suc left) k n = elim (Bool-cases (dial k)) [
    | inl e ↦ outcome-dialed (suc left) k (omega (arith, n)) e
    | inr e ↦ outcome-later left k (omega (arith, n)) e (outcome left (suc k) (omega (arith, n)))
  ]

  -- `connect` dials until an attempt succeeds, with a delay between two attempts, and then its
  -- result is that of `ouroboros.New` over that connection; where none of the ten attempts
  -- succeeds, it has waited nine times and gives the error of the last one.
  pub connect_lem :
      ((j : ℕ) × (1 ≤ j)
        × (j ≤ 10)
        × AllFail dial 1 j
        × (dial j ≡ true)
        × (connect dial opens ≡ (j - 1, if opens j then ok tt else err open_failed)))
      ⊎ (AllFail dial 1 11 × (connect dial opens ≡ (9, err dial_failed)))
  unfolding connect
  connect_lem = outcome 9 1 refl
