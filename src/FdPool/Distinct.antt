-- ===== src/FdPool/Distinct.antt =====
-- Lists without doubles: the numbers in use and those in the queue (fd_pool.go).
use cardano_go.Common.{
  All, All-append, All-imp, All-kept, Bool, Bool-cases, List, [], any, arith, false, filterb, inl,
  inr, length, not, refl, subst, suc, sym, true, ℕ, ◌++◌, ◌+◌, ◌<◌, ◌==◌, ◌∷◌, ◌≡◌, ◌≤◌,
}

abbrev pub NotIn : ℕ → List ℕ → Type 0
NotIn x xs = All (λ (y : ℕ). ¬ (y ≡ x)) xs

abbrev pub Distinct : List ℕ → Type 0
Distinct [] = Unit
Distinct (x ∷ xs) = NotIn x xs × Distinct xs

pub any-NotIn : (x : ℕ) (xs : List ℕ) → NotIn x xs → any (λ (y : ℕ). y == x) xs ≡ false
any-NotIn x [] h = refl
any-NotIn x (y ∷ ys) h = ground (arith, h.0, any-NotIn x ys h.1)

pub any-All :
    (P : ℕ → Type 0) (x : ℕ) (xs : List ℕ) → All P xs → any (λ (y : ℕ). y == x) xs ≡ true → P x
any-All P x [] h e = cc
any-All P x (y ∷ ys) h e = elim (Bool-cases (y == x)) [
  | inl f ↦ let same : y ≡ x = ground (arith, f) in subst P same h.0
  | inr f ↦ any-All P x ys h.1 (ground (arith, e, f))
]

pub NotIn-below : (n : ℕ) (xs : List ℕ) → All (λ (f : ℕ). (3 ≤ f) × (f < n)) xs → NotIn n xs
NotIn-below n xs h =
    All-imp (λ (f : ℕ). (3 ≤ f) × (f < n)) (λ (f : ℕ). ¬ (f ≡ n)) xs
      (λ f k e. omega (arith, k.1, e)) h

pub grow :
    (n : ℕ) (xs : List ℕ)
    → All (λ (f : ℕ). (3 ≤ f) × (f < n)) xs
    → All (λ (f : ℕ). (3 ≤ f) × (f < n + 1)) xs
grow n xs h =
    All-imp (λ (f : ℕ). (3 ≤ f) × (f < n)) (λ (f : ℕ). (3 ≤ f) × (f < n + 1)) xs
      (λ f k. (k.0, omega (arith, k.1))) h

keep_Distinct :
    (b : Bool) (x : ℕ) (xs : List ℕ)
    → NotIn x xs
    → Distinct xs
    → Distinct (elim b [ true ↦ x ∷ xs | false ↦ xs ])
keep_Distinct true x xs h d = (h, d)
keep_Distinct false x xs h d = d

pub Distinct-kept : (p : ℕ → Bool) (xs : List ℕ) → Distinct xs → Distinct (filterb p xs)
Distinct-kept p [] d = tt
Distinct-kept p (x ∷ xs) d =
    keep_Distinct (p x) x (filterb p xs) (All-kept (λ (y : ℕ). ¬ (y ≡ x)) p xs d.0)
      (Distinct-kept p xs d.1)

pub Distinct-append : (xs : List ℕ) (x : ℕ) → Distinct xs → NotIn x xs → Distinct (xs ++ x ∷ [])
Distinct-append [] x d h = (tt, tt)
Distinct-append (y ∷ ys) x d h = (
  All-append (λ (z : ℕ). ¬ (z ≡ y)) ys (x ∷ []) d.0 (λ e. h.0 (sym e), tt),
  Distinct-append ys x d.1 h.1,
)

without_NotIn : (x : ℕ) (xs : List ℕ) → NotIn x xs → filterb (λ (y : ℕ). not (y == x)) xs ≡ xs
without_NotIn x [] h = refl
without_NotIn x (y ∷ ys) h = ground (arith, h.0, without_NotIn x ys h.1)

pub length-without :
    (x : ℕ) (xs : List ℕ)
    → Distinct xs
    → any (λ (y : ℕ). y == x) xs ≡ true
    → length xs ≡ suc (length (filterb (λ (y : ℕ). not (y == x)) xs))
length-without x [] d h = cc
length-without x (y ∷ ys) d h = elim (Bool-cases (y == x)) [
  | inl e ↦
      let same : y ≡ x = ground (arith, e) in
      let rest : filterb (λ (z : ℕ). not (z == x)) ys ≡ ys = without_NotIn x ys (rw (← same) d.0) in
      ground (arith, e, rest)
  | inr e ↦ ground (arith, e, length-without x ys d.1 (ground (arith, e, h)))
]
