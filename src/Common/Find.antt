-- ===== src/Common/Find.antt =====
-- Looking up in a list: what `find` finds, and that the order of the list does not matter where at
-- most one element fits.
use mathlib.Core.List.{Mem, Memᴰ, Perm}
use mathlib.Core.List.Perm
use mathlib.Core.HLevel.{⊥_prop}
use mathlib.Core.Logic.{∥∥₁_elim, ◌⊎◌, inl, inr}
use mathlib.Core.Path.{◌≡◌, refl, sym, ap, ◌∙◌}
use mathlib.Core.Bool.{Bool, true, false, not}
use mathlib.Core.Option
use mathlib.Core.Option.{none, some}
use mathlib.Core.List.{List, [], ◌∷◌, ◌++◌, map}
use native.Mathlib.Omega.{arith}
use cardano_go.Common.Tests.{Bool-cases, Option-cases}
use cardano_go.Common.Lists.{find, All, any, filterb}

clash : {b : Bool} → b ≡ false → b ≡ true → ⊥
clash e f = cc

module _ {ℓ} {A : Type ℓ} where
  pub All-mem {κ} : (P : A → Type κ) {x : A} {xs : List A} → All P xs → Memᴰ x xs → P x
  All-mem P h (Memᴰ.head e) = rw e h.0
  All-mem P h (Memᴰ.tail m) = All-mem P h.1 m

  pub any-mem : (p : A → Bool) {x : A} {xs : List A} → Memᴰ x xs → p x ≡ true → any p xs ≡ true
  any-mem p {xs = []} m h = elim m [ ]
  any-mem p {x = x} {xs = y ∷ ys} (Memᴰ.head e) h =
      let f : p y ≡ true = rw (sym e) h in ground (arith, f)
  any-mem p {x = x} {xs = y ∷ ys} (Memᴰ.tail m) h = ground (arith, any-mem p m h)

  pub mem-append-left : {x : A} {xs : List A} (ys : List A) → Memᴰ x xs → Memᴰ x (xs ++ ys)
  mem-append-left ys (Memᴰ.head e) = Memᴰ.head e
  mem-append-left ys (Memᴰ.tail m) = Memᴰ.tail (mem-append-left ys m)

  pub mem-append-right : {x : A} (xs : List A) {ys : List A} → Memᴰ x ys → Memᴰ x (xs ++ ys)
  mem-append-right [] m = m
  mem-append-right (y ∷ xs) m = Memᴰ.tail (mem-append-right xs m)

  mem-keep-head :
      {x : A} (b : Bool) (y : A) (ys : List A)
      → x ≡ y
      → b ≡ true
      → Memᴰ x (elim b [ true ↦ y ∷ ys | false ↦ ys ])
  mem-keep-head true y ys e h = Memᴰ.head e
  mem-keep-head false y ys e h = cc

  mem-keep-tail :
      {x : A} (b : Bool) (y : A) (ys : List A)
      → Memᴰ x ys
      → Memᴰ x (elim b [ true ↦ y ∷ ys | false ↦ ys ])
  mem-keep-tail true y ys m = Memᴰ.tail m
  mem-keep-tail false y ys m = m

  pub mem-filterb :
      (p : A → Bool) {x : A} {xs : List A} → Memᴰ x xs → p x ≡ true → Memᴰ x (filterb p xs)
  mem-filterb p {xs = []} m h = elim m [ ]
  mem-filterb p {x = x} {xs = y ∷ ys} (Memᴰ.head e) h =
      mem-keep-head (p y) y (filterb p ys) e (rw (sym e) h)
  mem-filterb p {x = x} {xs = y ∷ ys} (Memᴰ.tail m) h =
      mem-keep-tail (p y) y (filterb p ys) (mem-filterb p m h)

  pub find-eq-some :
      (p : A → Bool) (xs : List A) {t : A} → find p xs ≡ some t → Memᴰ t xs × (p t ≡ true)
  find-eq-some p [] h = cc
  find-eq-some p (x ∷ xs) {t} h = elim (Bool-cases (p x)) [
    | inl e ↦ let same : t ≡ x = ground arith in (Memᴰ.head same, rw same e)
    | inr e ↦
        let r : Memᴰ t xs × (p t ≡ true) = find-eq-some p xs (rw (e, find) at h) in
        (Memᴰ.tail r.0, r.1)
  ]

  find-eq-none : (p : A → Bool) {t : A} {xs : List A} → find p xs ≡ none → Memᴰ t xs → p t ≡ false
  find-eq-none p h (Memᴰ.head e) = rw e (ground arith)
  find-eq-none p h (Memᴰ.tail m) = find-eq-none p (ground arith) m

  pub find-filterb-not :
      (p : A → Bool) (xs : List A) → find p (filterb (λ (x : A). not (p x)) xs) ≡ none
  find-filterb-not p [] = refl
  find-filterb-not p (x ∷ xs) = ground (arith, find-filterb-not p xs)

  pub find-filterb-other :
      (p k : A → Bool) (xs : List A)
      → ((x : A) → p x ≡ true → k x ≡ false)
      → find p (filterb (λ (x : A). not (k x)) xs) ≡ find p xs
  find-filterb-other p k [] h = refl
  find-filterb-other p k (x ∷ xs) h = ground (arith, find-filterb-other p k xs h, h x)

  pub find-append :
      (p : A → Bool) (xs ys : List A)
      → find p (xs ++ ys) ≡ elim (find p xs) [ some x ↦ some x | none ↦ find p ys ]
  find-append p [] ys = refl
  find-append p (x ∷ xs) ys = ground (arith, find-append p xs ys)

  find-map :
      (f : A → A) (p : A → Bool) (xs : List A)
      → ((x : A) → p (f x) ≡ p x)
      → find p (map f xs) ≡ Option.map f (find p xs)
  find-map f p [] h = refl
  find-map f p (x ∷ xs) h = ground (arith, h x, find-map f p xs h)

  abbrev pub Unique : (A → Bool) → List A → Type ℓ
  Unique p xs = (x y : A) → Memᴰ x xs → Memᴰ y xs → p x ≡ true → p y ≡ true → x ≡ y

  pub find-perm :
      (isset : IsSet A) (p : A → Bool) (xs ys : List A)
      → Perm xs ys
      → Unique p ys
      → find p xs ≡ find p ys
  find-perm isset p xs ys perm uniq = go (Option-cases (find p xs)) (Option-cases (find p ys))
    where
      moved : {t : A} → Memᴰ t xs → Mem t ys
      moved m = (Perm.mem_iff perm).0 ∣ m ∣₁

      back : {t : A} → Memᴰ t ys → Mem t xs
      back m = (Perm.mem_iff perm).1 ∣ m ∣₁

      go :
          (find p xs ≡ none) ⊎ ((a : A) × (find p xs ≡ some a))
          → (find p ys ≡ none) ⊎ ((a : A) × (find p ys ≡ some a))
          → find p xs ≡ find p ys
      go (inl e) (inl f) = e ∙ sym f
      go (inl e) (inr (b, f)) =
          let r : Memᴰ b ys × (p b ≡ true) = find-eq-some p ys f in
          absurd (∥∥₁_elim (back r.0) ⊥_prop (λ m. clash (find-eq-none p e m) r.1))
      go (inr (a, e)) (inl f) =
          let r : Memᴰ a xs × (p a ≡ true) = find-eq-some p xs e in
          absurd (∥∥₁_elim (moved r.0) ⊥_prop (λ m. clash (find-eq-none p f m) r.1))
      go (inr (a, e)) (inr (b, f)) =
          let r : Memᴰ a xs × (p a ≡ true) = find-eq-some p xs e in
          let s : Memᴰ b ys × (p b ≡ true) = find-eq-some p ys f in
          let same : a ≡ b = ∥∥₁_elim (moved r.0) (isset a b) (λ m. uniq a b m s.0 r.1 s.1) in
          e ∙ ap some same ∙ sym f
