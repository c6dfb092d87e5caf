-- ===== src/Util/Search.antt =====
-- `BinarySearchCallback` of util.go, on uint64.
use cardano_go.Common.{
  Result, ap, arith, err, if◌then◌else◌, inl, inr, leb, ok, refl, suc, zero, ℕ, ◌%◌, ◌+◌, ◌-◌, ◌/◌,
  ◌<◌, ◌^◌, ◌∙◌, ◌≡◌, ◌≤◌, ◌⊎◌,
}

-- What the callback gives back: -1, 1, 0, another number, or an error.
pub data Answer : Type 0 where
  lower higher found invalid failed : Answer

pub data SearchError : Type 0 where
  callback_failed invalid_answer no_match : SearchError
  -- The fuel of the model ran out; the code has no such error.
  no_fuel : SearchError

abbrev pub middle : ℕ → ℕ → ℕ
middle first last = first + (last - first) / 2

-- The loop, by rounds; `mid - 1` and `mid + 1` wrap.
unfoldable pub search : ℕ → ℕ → ℕ → (ℕ → Answer) → Result SearchError (Unit {0})
search zero first last callback = err no_fuel
search (suc fuel) first last callback =
    let mid : ℕ = middle first last in
    if leb first last
    then elim (callback mid) [
      | lower ↦ search fuel first ((mid + (2 ^ 64 - 1)) % 2 ^ 64) callback
      | higher ↦ search fuel ((mid + 1) % 2 ^ 64) last callback
      | found ↦ ok tt
      | invalid ↦ err invalid_answer
      | failed ↦ err callback_failed
    ]
    else err no_match

-- The callback sends the search towards `n`, and finds it there.
abbrev pub LeadsTo : ℕ → (ℕ → Answer) → Type 0
LeadsTo n callback =
    (m : ℕ)
    → ((callback m ≡ found)) ⊎ ((callback m ≡ lower) × (n < m)) ⊎ ((callback m ≡ higher) × (m < n))

middle-bounds :
    (first last : ℕ) → first ≤ last → (first ≤ middle first last) × (middle first last ≤ last)
middle-bounds first last h = (omega (arith, h), omega (arith, h))

down_wrap : (m : ℕ) → 0 < m → m < 2 ^ 64 → (m + (2 ^ 64 - 1)) % 2 ^ 64 ≡ m - 1
down_wrap m pos h = omega (arith, pos, h)

search-down :
    (fuel first last : ℕ) (callback : ℕ → Answer)
    → first ≤ last
    → last < 2 ^ 64
    → 0 < middle first last
    → callback (middle first last) ≡ lower
    → search (suc fuel) first last callback ≡ search fuel first (middle first last - 1) callback
unfolding search
search-down fuel first last callback le small pos e =
    let tail : (middle first last + (2 ^ 64 - 1)) % 2 ^ 64 ≡ middle first last - 1 =
      down_wrap (middle first last) pos (omega (arith, (middle-bounds first last le).1, small)) in
    ground (arith, le, e, ap (λ (x : ℕ). search fuel first x callback) tail)

search-up :
    (fuel first last : ℕ) (callback : ℕ → Answer)
    → first ≤ last
    → middle first last + 1 < 2 ^ 64
    → callback (middle first last) ≡ higher
    → search (suc fuel) first last callback ≡ search fuel (middle first last + 1) last callback
unfolding search
search-up fuel first last callback le small e =
    let tail : (middle first last + 1) % 2 ^ 64 ≡ middle first last + 1 = omega (arith, small) in
    ground (arith, le, e, ap (λ (x : ℕ). search fuel x last callback) tail)

-- A search succeeds where what it looks for lies between its bounds, in no more rounds than there
-- are numbers between them.
pub search-finds :
    (fuel first last n : ℕ) (callback : ℕ → Answer)
    → LeadsTo n callback
    → first ≤ n
    → n ≤ last
    → last < 2 ^ 64
    → last + 1 - first ≤ fuel
    → search fuel first last callback ≡ ok tt
unfolding search
search-finds zero first last n callback lead a b c enough = absurd (omega (arith, a, b, enough))
search-finds (suc fuel) first last n callback lead a b c enough =
    let le : first ≤ last = omega (arith, a, b) in
    let (low, high) = middle-bounds first last le in
    elim (lead (middle first last)) [
      | inl e ↦ ground (arith, le, e)
      | inr (inl (e, lt)) ↦
          search-down fuel first last callback le c (omega (arith, lt)) e
          ∙ search-finds fuel first (middle first last - 1) n callback lead a (omega (arith, lt))
              (omega (arith, high, c)) (omega (arith, high, low, enough, lt))
      | inr (inr (e, lt)) ↦
          search-up fuel first last callback le (omega (arith, lt, b, c)) e
          ∙ search-finds fuel (middle first last + 1) last n callback lead (omega (arith, lt)) b c
              (omega (arith, low, enough, a, b, c))
    ]

-- A search from 0 for what lies below every number never ends: `mid - 1` wraps at 0.
search-endless : (fuel last : ℕ) → last < 2 ^ 64 → search fuel 0 last (λ _. lower) ≡ err no_fuel
unfolding search
search-endless zero last h = refl
search-endless (suc fuel) last h =
    let next : ℕ = (middle 0 last + (2 ^ 64 - 1)) % 2 ^ 64 in
    ground (arith, search-endless fuel next (omega arith))
