-- ===== src/Http/Fees.antt =====
-- cmd/rpc/http.go: numbers in text. What `%d` prints is read back, in a path and in the line of
-- cardano-cli that has the fee.
use cardano_go.Http.Commands.{read_fee}
use cardano_go.Common.{
  Bool-cases, Bytes, Option, [], ap, arith, codes, inl, inr, ltb, none, refl, some, suc, sym, true,
  zero, ℕ, ◌%◌, ◌*◌, ◌++◌, ◌+◌, ◌-◌, ◌/◌, ◌<◌, ◌^◌, ◌∙◌, ◌∷◌, ◌≡◌, ◌≤◌, ◌⊎◌,
}
use cardano_go.Http.Text.{
  is_digit, parse_digits, parse_uint, show_from, show, span_digits, skip_blanks, find_fee,
  match_fee, ends_fee, digits_of_fee,
}

abbrev tens : ℕ → ℕ
tens zero = 1
tens (suc f) = 10 * tens f

show_from-small : (f n : ℕ) (s : Bytes) → n < 10 → show_from (suc f) n s ≡ (n + 48) ∷ s
unfolding show_from
show_from-small f n s l = ground (arith, l)

show_from-large :
    (f n : ℕ) (s : Bytes)
    → 10 ≤ n
    → show_from (suc f) n s ≡ show_from f (n / 10) ((n % 10 + 48) ∷ s)
unfolding show_from
show_from-large f n s l = ground (arith, l)

parse_digits-cons :
    (a d : ℕ) (s : Bytes)
    → d < 10
    → a * 10 + d < 2 ^ 64
    → parse_digits a ((d + 48) ∷ s) ≡ parse_digits (a * 10 + d) s
unfolding parse_digits
parse_digits-cons a d s l b =
    let same : a * 10 + (d + 48 - 48) ≡ a * 10 + d = omega arith in
    let digit : is_digit (d + 48) ≡ true = ground (arith, l) in
    let fits : ltb (a * 10 + d) (2 ^ 64) ≡ true = ground (arith, b) in
    rw (parse_digits, same, digit, fits) refl

less_than_ten : (n : ℕ) → (n < 10) ⊎ (10 ≤ n)
less_than_ten n = elim (Bool-cases (ltb n 10)) [
  | inl e ↦ inl (ground (arith, e))
  | inr e ↦ inr (ground (arith, e))
]

parse_digits-show_from :
    (f n : ℕ) (s : Bytes)
    → n < tens f
    → n < 2 ^ 64
    → parse_digits 0 (show_from f n s) ≡ parse_digits n s
unfolding show_from
parse_digits-show_from zero n s l b = let z : n ≡ 0 = omega (arith, l) in rw (z) refl
parse_digits-show_from (suc f) n s l b = elim (less_than_ten n) [
  | inl small ↦
      ap (parse_digits 0) (show_from-small f n s small)
      ∙ parse_digits-cons 0 n s small (omega (arith, b))
      ∙ ap (λ (m : ℕ). parse_digits m s) (omega arith)
  | inr large ↦
      ap (parse_digits 0) (show_from-large f n s large)
      ∙ parse_digits-show_from f (n / 10) ((n % 10 + 48) ∷ s) (omega (arith, l)) (omega (arith, b))
      ∙ parse_digits-cons (n / 10) (n % 10) s (omega arith) (omega (arith, b))
      ∙ ap (λ (m : ℕ). parse_digits m s) (omega arith)
]

show_from-first :
    (f n : ℕ) (s : Bytes)
    → (c : ℕ) × ((r : Bytes) × (show_from (suc f) n s ≡ c ∷ r) × (is_digit c ≡ true))
unfolding show_from
show_from-first zero n s = elim (less_than_ten n) [
  | inl small ↦ (n + 48, (s, show_from-small 0 n s small, ground (arith, small)))
  | inr large ↦ (n % 10 + 48, (s, show_from-large 0 n s large, ground arith))
]
show_from-first (suc f) n s = elim (less_than_ten n) [
  | inl small ↦ (n + 48, (s, show_from-small (suc f) n s small, ground (arith, small)))
  | inr large ↦
      let (c, (r, e, d)) = show_from-first f (n / 10) ((n % 10 + 48) ∷ s) in
      (c, (r, show_from-large (suc f) n s large ∙ e, d))
]

show_from-append : (f n : ℕ) (s t : Bytes) → show_from f n s ++ t ≡ show_from f n (s ++ t)
unfolding show_from
show_from-append zero n s t = refl
show_from-append (suc f) n s t = elim (less_than_ten n) [
  | inl small ↦
      ap (λ (x : Bytes). x ++ t) (show_from-small f n s small)
      ∙ sym (show_from-small f n (s ++ t) small)
  | inr large ↦
      ap (λ (x : Bytes). x ++ t) (show_from-large f n s large)
      ∙ show_from-append f (n / 10) ((n % 10 + 48) ∷ s) t
      ∙ sym (show_from-large f n (s ++ t) large)
]

span_digits-cons :
    (c : ℕ) (s : Bytes)
    → is_digit c ≡ true
    → span_digits (c ∷ s) ≡ (c ∷ (span_digits s).0, (span_digits s).1)
span_digits-cons c s d = rw (d) refl

span_digits-show_from :
    (f n : ℕ) (s : Bytes)
    → span_digits (show_from f n s) ≡ (show_from f n (span_digits s).0, (span_digits s).1)
unfolding show_from
span_digits-show_from zero n s = refl
span_digits-show_from (suc f) n s = elim (less_than_ten n) [
  | inl small ↦
      ap span_digits (show_from-small f n s small)
      ∙ span_digits-cons (n + 48) s (ground (arith, small))
      ∙ ap (λ (x : Bytes). (x, (span_digits s).1))
          (sym (show_from-small f n (span_digits s).0 small))
  | inr large ↦
      ap span_digits (show_from-large f n s large)
      ∙ span_digits-show_from f (n / 10) ((n % 10 + 48) ∷ s)
      ∙ ap (λ (x : Bytes × Bytes). (show_from f (n / 10) x.0, x.1))
          (span_digits-cons (n % 10 + 48) s (ground arith))
      ∙ ap (λ (x : Bytes). (x, (span_digits s).1))
          (sym (show_from-large f n (span_digits s).0 large))
]

parse_uint-cons : (c : ℕ) (s : Bytes) → parse_uint (c ∷ s) ≡ parse_digits 0 (c ∷ s)
unfolding parse_uint
parse_uint-cons c s = refl

-- A number below 2^64 that `%d` prints is what `ParseUint` reads back.
pub parse_uint-show : (n : ℕ) → n < 2 ^ 64 → parse_uint (show n) ≡ some n
unfolding parse_digits
parse_uint-show n b =
    let (c, (r, e, d)) = show_from-first 19 n [] in
    ap parse_uint e
    ∙ parse_uint-cons c r
    ∙ ap (parse_digits 0) (sym e)
    ∙ parse_digits-show_from 20 n [] (omega (arith, b)) b

skip_blanks-digit : (c : ℕ) (s : Bytes) → is_digit c ≡ true → skip_blanks (c ∷ s) ≡ c ∷ s
skip_blanks-digit c s d = ground (arith, d)

skip_blanks-show_from :
    (f n : ℕ) (s : Bytes) → skip_blanks (show_from (suc f) n s) ≡ show_from (suc f) n s
skip_blanks-show_from f n s =
    let (c, (r, e, d)) = show_from-first f n s in ap skip_blanks e ∙ skip_blanks-digit c r d ∙ sym e

match_fee-at :
    (x : Bytes) → match_fee (codes "fee: " ++ x) ≡ digits_of_fee (span_digits (skip_blanks x))
unfolding match_fee
match_fee-at x = refl

or_rest :
    (o rest : Option Bytes) (d : Bytes)
    → o ≡ some d
    → elim o as (λ _. Option Bytes) [ some x ↦ some x | none ↦ rest ] ≡ some d
or_rest none rest d e = cc
or_rest (some x) rest d e = e

find_fee-fee :
    (x d : Bytes) → match_fee (codes "fee: " ++ x) ≡ some d → find_fee (codes "fee: " ++ x) ≡ some d
unfolding find_fee
find_fee-fee x d e = or_rest (match_fee (codes "fee: " ++ x)) (find_fee (codes "ee: " ++ x)) d e

find_fee-at :
    (x d : Bytes)
    → match_fee (codes "fee: " ++ x) ≡ some d
    → find_fee (codes "Estimated transaction fee: " ++ x) ≡ some d
unfolding find_fee
find_fee-at x d e = find_fee-fee x d e

digits_of_fee-some :
    (ds after : Bytes)
    → ((c : ℕ) × ((r : Bytes) × (ds ≡ c ∷ r)))
    → ends_fee after ≡ true
    → digits_of_fee (ds, after) ≡ some ds
digits_of_fee-some [] after (c, (r, e)) f = cc
digits_of_fee-some (d ∷ ds) after k f = rw (f) refl

match_fee-show : (n : ℕ) → match_fee (codes "fee: " ++ show n ++ codes " Lovelace") ≡ some (show n)
match_fee-show n =
    let t : Bytes = codes " Lovelace" in
    let (c, (r, e, d)) = show_from-first 19 n [] in
    ap (λ (x : Bytes). match_fee (codes "fee: " ++ x)) (show_from-append 20 n [] t)
    ∙ match_fee-at (show_from 20 n t)
    ∙ ap (λ (x : Bytes). digits_of_fee (span_digits x)) (skip_blanks-show_from 19 n t)
    ∙ ap digits_of_fee (span_digits-show_from 20 n t)
    ∙ digits_of_fee-some (show n) t (c, (r, e)) refl

read_fee-found :
    (l d : Bytes) (n : ℕ) → find_fee l ≡ some d → parse_uint d ≡ some n → read_fee l ≡ some n
unfolding read_fee
read_fee-found l d n e f = rw (read_fee, e) f

-- The line of cardano-cli's output that the source quotes is read: the fee in it, below 2^64, is
-- the number that is taken out of it.
pub read_fee-line :
    (n : ℕ)
    → n < 2 ^ 64
    → read_fee (codes "Estimated transaction fee: " ++ show n ++ codes " Lovelace") ≡ some n
read_fee-line n b =
    read_fee-found (codes "Estimated transaction fee: " ++ show n ++ codes " Lovelace") (show n) n
      (find_fee-at (show n ++ codes " Lovelace") (show n) (match_fee-show n)) (parse_uint-show n b)
