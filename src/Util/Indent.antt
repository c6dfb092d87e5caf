-- ===== src/Util/Indent.antt =====
-- util.go: `IndentCbor`.
use cardano_go.Common.{
  Bool, Bool-cases, Bytes, Result, [], ap, append-nil, arith, err, false, filterb, if◌then◌else◌,
  inl, inr, ltb, not, ok, panic, refl, replicate, suc, sym, true, zero, ℕ, ◌%◌, ◌&&◌, ◌*◌, ◌++◌,
  ◌+◌, ◌-◌, ◌/◌, ◌==◌, ◌||◌, ◌∙◌, ◌∷◌, ◌≡◌, ◌⊎◌,
}

abbrev pub opens : ℕ → Bool
opens c = c == 91 || c == 123

abbrev pub closes : ℕ → Bool
closes c = c == 93 || c == 125

abbrev pub space : ℕ
space = 32

abbrev pub newline_char : ℕ
newline_char = 10

abbrev pub spaces : ℕ → Bytes
spaces n = replicate (n * 2) space

-- `string(nextChar)`: a byte is taken for a character and written in UTF-8.
abbrev pub string_of : ℕ → Bytes
string_of c = if ltb c 128 then c ∷ [] else (192 + c / 64) ∷ (128 + c % 64) ∷ []

abbrev pub string_of_all : Bytes → Bytes
string_of_all [] = []
string_of_all (c ∷ s) = string_of c ++ string_of_all s

-- Text in front of what comes of the rest.
abbrev pub put : Bytes → Result (Unit {0}) Bytes → Result (Unit {0}) Bytes
put s (ok r) = ok (s ++ r)
put s (err e) = err e
put s panic = panic

-- The loop; a negative number of spaces makes `strings.Repeat` panic.
unfoldable pub indent_from : Bool → ℕ → Bytes → Result (Unit {0}) Bytes
indent_from newline indent [] = ok []
indent_from newline indent (c ∷ s) =
    let lead : Bytes = if newline then spaces indent else [] in
    let inside : Result (Unit {0}) Bytes = indent_from false (suc indent) s in
    let outside : Result (Unit {0}) Bytes = indent_from newline (indent - 1) s in
    let after_comma : Result (Unit {0}) Bytes = indent_from true indent s in
    let same : Result (Unit {0}) Bytes = indent_from newline indent s in
    let text : Result (Unit {0}) Bytes = indent_from false indent s in
    if opens c
    then put (lead ++ (string_of c ++ newline_char ∷ spaces (suc indent))) inside
    else if closes c
    then (if indent == 0
        then panic
        else put (newline_char ∷ spaces (indent - 1) ++ string_of c) outside)
    else if c == 44
    then put (c ∷ newline_char ∷ []) after_comma
    else if newline && c == space
    then same
    else put (lead ++ string_of c) text

-- `IndentCbor`
unfoldable pub indent_cbor : Bytes → Result (Unit {0}) Bytes
unfolding indent_from
indent_cbor s = indent_from false 0 s

-- The text without spaces and line breaks.
abbrev pub strip : Bytes → Bytes
strip s = filterb (λ (c : ℕ). not (c == space || c == newline_char)) s

-- No bracket closes that did not open, from a depth on.
abbrev pub is_closed : ℕ → Bytes → Bool
is_closed n [] = true
is_closed n (c ∷ s) =
    let inside : Bool = is_closed (suc n) s in
    let outside : Bool = is_closed (n - 1) s in
    let same : Bool = is_closed n s in
    if opens c then inside else if closes c then not (n == 0) && outside else same

strip-append : (xs ys : Bytes) → strip (xs ++ ys) ≡ strip xs ++ strip ys
strip-append [] ys = refl
strip-append (x ∷ xs) ys = ground (arith, strip-append xs ys)

strip-replicate : (n : ℕ) → strip (replicate n space) ≡ []
strip-replicate zero = refl
strip-replicate (suc n) = strip-replicate n

strip-spaces : (n : ℕ) → strip (spaces n) ≡ []
strip-spaces n = strip-replicate (n * 2)

-- What a run of the loop comes to.
abbrev Outcome : Bool → ℕ → Bytes → Type 0
Outcome newline n s =
    ((is_closed n s ≡ true)
      × ((out : Bytes) × (indent_from newline n s ≡ ok out)
          × (strip out ≡ strip (string_of_all s))))
    ⊎ ((is_closed n s ≡ false) × (indent_from newline n s ≡ panic))

put-Outcome :
    (pre : Bytes) (c : ℕ) (s : Bytes) (b b' : Bool) (r r' : Result (Unit {0}) Bytes)
    → strip pre ≡ strip (string_of c)
    → b' ≡ b
    → r' ≡ put pre r
    → ((b ≡ true) × ((out : Bytes) × (r ≡ ok out) × (strip out ≡ strip (string_of_all s))))
      ⊎ ((b ≡ false) × (r ≡ panic))
    → ((b' ≡ true) × ((out : Bytes) × (r' ≡ ok out) × (strip out ≡ strip (string_of_all (c ∷ s)))))
      ⊎ ((b' ≡ false) × (r' ≡ panic))
put-Outcome pre c s b b' r r' p e f (inl (h, (out, g, k))) = inl (
  e ∙ h,
  (
    pre ++ out,
    f ∙ ap (put pre) g,
    strip-append pre out
        ∙ ap (λ (x : Bytes). x ++ strip out) p
        ∙ ap (λ (x : Bytes). strip (string_of c) ++ x) k
        ∙ sym (strip-append (string_of c) (string_of_all s)),
  ),
)
put-Outcome pre c s b b' r r' p e f (inr (h, g)) = inr (e ∙ h, f ∙ ap (put pre) g)

put-nil : (r : Result (Unit {0}) Bytes) → put [] r ≡ r
put-nil (ok s) = refl
put-nil (err e) = refl
put-nil panic = refl

strip-lead :
    (newline : Bool) (n : ℕ) (x : Bytes) → strip ((if newline then spaces n else []) ++ x) ≡ strip x
strip-lead true n x = strip-append (spaces n) x ∙ ap (λ (y : Bytes). y ++ strip x) (strip-spaces n)
strip-lead false n x = refl

strip-open :
    (newline : Bool) (n : ℕ) (x : Bytes)
    → strip ((if newline then spaces n else []) ++ (x ++ newline_char ∷ spaces (suc n))) ≡ strip x
strip-open newline n x =
    strip-lead newline n (x ++ newline_char ∷ spaces (suc n))
    ∙ strip-append x (newline_char ∷ spaces (suc n))
    ∙ ap (λ (y : Bytes). strip x ++ y) (strip-spaces (suc n))
    ∙ append-nil (strip x)

strip-close : (n : ℕ) (x : Bytes) → strip (newline_char ∷ spaces n ++ x) ≡ strip x
strip-close n x = strip-append (spaces n) x ∙ ap (λ (y : Bytes). y ++ strip x) (strip-spaces n)

module _ (newline : Bool) (n c : ℕ) (s : Bytes) where
  opened : opens c ≡ true → Outcome false (suc n) s → Outcome newline n (c ∷ s)
  unfolding indent_from
  opened o h =
      put-Outcome
        ((if newline then spaces n else []) ++ (string_of c ++ newline_char ∷ spaces (suc n))) c s
        (is_closed (suc n) s) (is_closed n (c ∷ s)) (indent_from false (suc n) s)
        (indent_from newline n (c ∷ s)) (strip-open newline n (string_of c)) (rw (o) refl)
        (rw (indent_from, o) refl) h

  closed_early : opens c ≡ false → closes c ≡ true → (n == 0) ≡ true → Outcome newline n (c ∷ s)
  unfolding indent_from
  closed_early o k z = inr (rw (o, k, z) refl, rw (indent_from, o, k, z) refl)

  closed :
      opens c ≡ false
      → closes c ≡ true
      → (n == 0) ≡ false
      → Outcome newline (n - 1) s
      → Outcome newline n (c ∷ s)
  unfolding indent_from
  closed o k z h =
      put-Outcome (newline_char ∷ spaces (n - 1) ++ string_of c) c s (is_closed (n - 1) s)
        (is_closed n (c ∷ s)) (indent_from newline (n - 1) s) (indent_from newline n (c ∷ s))
        (strip-close (n - 1) (string_of c)) (rw (o, k, z) refl) (rw (indent_from, o, k, z) refl) h

  comma :
      opens c ≡ false
      → closes c ≡ false
      → (c == 44) ≡ true
      → Outcome true n s
      → Outcome newline n (c ∷ s)
  unfolding indent_from
  comma o k z h =
      put-Outcome (c ∷ newline_char ∷ []) c s (is_closed n s) (is_closed n (c ∷ s))
        (indent_from true n s) (indent_from newline n (c ∷ s)) (ground (arith, z)) (rw (o, k) refl)
        (rw (indent_from, o, k, z) refl) h

  skipped :
      opens c ≡ false
      → closes c ≡ false
      → (c == 44) ≡ false
      → (newline && c == space) ≡ true
      → Outcome newline n s
      → Outcome newline n (c ∷ s)
  unfolding indent_from
  skipped o k z w h =
      put-Outcome [] c s (is_closed n s) (is_closed n (c ∷ s)) (indent_from newline n s)
        (indent_from newline n (c ∷ s)) (ground (arith, w)) (rw (o, k) refl)
        (rw (indent_from, o, k, z, w) (sym (put-nil (indent_from newline n s)))) h

  plain :
      opens c ≡ false
      → closes c ≡ false
      → (c == 44) ≡ false
      → (newline && c == space) ≡ false
      → Outcome false n s
      → Outcome newline n (c ∷ s)
  unfolding indent_from
  plain o k z w h =
      put-Outcome ((if newline then spaces n else []) ++ string_of c) c s (is_closed n s)
        (is_closed n (c ∷ s)) (indent_from false n s) (indent_from newline n (c ∷ s))
        (strip-lead newline n (string_of c)) (rw (o, k) refl) (rw (indent_from, o, k, z, w) refl) h

outcome : (newline : Bool) (n : ℕ) (s : Bytes) → Outcome newline n s
unfolding indent_from
outcome newline n [] = inl (refl, ([], refl, refl))
outcome newline n (c ∷ s) = elim (Bool-cases (opens c)) [
  | inl o ↦ opened newline n c s o (outcome false (suc n) s)
  | inr o ↦ elim (Bool-cases (closes c)) [
    | inl k ↦ elim (Bool-cases (n == 0)) [
      | inl z ↦ closed_early newline n c s o k z
      | inr z ↦ closed newline n c s o k z (outcome newline (n - 1) s)
    ]
    | inr k ↦ elim (Bool-cases (c == 44)) [
      | inl z ↦ comma newline n c s o k z (outcome true n s)
      | inr z ↦ elim (Bool-cases (newline && c == space)) [
        | inl w ↦ skipped newline n c s o k z w (outcome newline n s)
        | inr w ↦ plain newline n c s o k z w (outcome false n s)
      ]
    ]
  ]
]

-- `IndentCbor` only adds spaces and line breaks, and leaves out spaces: without both, its text is
-- the one it was given, each byte written as a character. It gives one exactly where no bracket
-- closes that did not open; elsewhere it panics.
pub indent_cbor_lem :
    (s : Bytes)
    → ((is_closed 0 s ≡ true)
        × ((out : Bytes) × (indent_cbor s ≡ ok out) × (strip out ≡ strip (string_of_all s))))
      ⊎ ((is_closed 0 s ≡ false) × (indent_cbor s ≡ panic))
unfolding indent_cbor
indent_cbor_lem s = outcome false 0 s
