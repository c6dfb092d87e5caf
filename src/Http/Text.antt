-- ===== src/Http/Text.antt =====
-- What cmd/rpc/http.go uses of strings, strconv and regexp, on the bytes of a string; white space is
-- that of ASCII.
use cardano_go.Common.{
  Bool, Bytes, List, Option, [], codes, false, if◌then◌else◌, leb, ltb, none, some, suc, true, zero,
  ℕ, ◌%◌, ◌&&◌, ◌*◌, ◌++◌, ◌+◌, ◌-◌, ◌/◌, ◌==◌, ◌^◌, ◌||◌, ◌∷◌,
}

-- The numbers of the characters.
abbrev pub is_space : ℕ → Bool
is_space c = c == 32 || leb 9 c && leb c 13

abbrev pub is_digit : ℕ → Bool
is_digit c = leb 48 c && leb c 57

abbrev pub trim_left : Bytes → Bytes
trim_left [] = []
trim_left (c ∷ s) = let rest : Bytes = trim_left s in if is_space c then rest else c ∷ s

abbrev pub trim_right : Bytes → Bytes
trim_right [] = []
trim_right (c ∷ s) = elim (trim_right s) [
  | [] ↦ if is_space c then [] else c ∷ []
  | d ∷ r ↦ c ∷ d ∷ r
]

-- `strings.TrimSpace`
abbrev pub trim_space : Bytes → Bytes
trim_space s = trim_right (trim_left s)

abbrev pub newline : ℕ
newline = 10

abbrev pub to_first : ℕ → List Bytes → List Bytes
to_first c [] = (c ∷ []) ∷ []
to_first c (l ∷ ls) = (c ∷ l) ∷ ls

-- `strings.Split(s, "\n")`
abbrev pub split_lines : Bytes → List Bytes
split_lines [] = [] ∷ []
split_lines (c ∷ s) =
    let rest : List Bytes = split_lines s in if c == newline then [] ∷ rest else to_first c rest

-- `strings.Join`
abbrev pub join_with : Bytes → List Bytes → Bytes
join_with sep [] = []
join_with sep (l ∷ []) = l
join_with sep (l ∷ m ∷ ls) = l ++ sep ++ join_with sep (m ∷ ls)

-- All but the last element, and the last one.
abbrev pub init : List Bytes → List Bytes
init [] = []
init (l ∷ []) = []
init (l ∷ m ∷ ls) = l ∷ init (m ∷ ls)

abbrev pub last_line : List Bytes → Bytes
last_line [] = []
last_line (l ∷ []) = l
last_line (l ∷ m ∷ ls) = last_line (m ∷ ls)

-- The digits of `strconv.ParseUint(s, 10, 64)`, from a value on.
unfoldable pub parse_digits : ℕ → Bytes → Option ℕ
parse_digits n [] = some n
parse_digits n (c ∷ s) =
    let rest : Option ℕ = parse_digits (n * 10 + (c - 48)) s in
    if is_digit c && ltb (n * 10 + (c - 48)) (2 ^ 64) then rest else none

-- `strconv.ParseUint(s, 10, 64)`
unfoldable pub parse_uint : Bytes → Option ℕ
unfolding parse_digits
parse_uint [] = none
parse_uint (c ∷ s) = parse_digits 0 (c ∷ s)

-- `%d`: the digits of a number, in front of a text; a round takes a digit.
unfoldable pub show_from : ℕ → ℕ → Bytes → Bytes
show_from zero n s = s
show_from (suc fuel) n s =
    let rest : Bytes = show_from fuel (n / 10) ((n % 10 + 48) ∷ s) in
    if ltb n 10 then (n + 48) ∷ s else rest

-- A uint64 has at most 20 digits.
abbrev pub show : ℕ → Bytes
show n = show_from 20 n []

abbrev pub span_digits : Bytes → Bytes × Bytes
span_digits [] = ([], [])
span_digits (c ∷ s) =
    let rest : Bytes × Bytes = span_digits s in
    if is_digit c then (c ∷ rest.0, rest.1) else ([], c ∷ s)

-- `\s` of a pattern.
abbrev pub is_blank : ℕ → Bool
is_blank c = c == 32 || leb 9 c && leb c 10 || leb 12 c && leb c 13

abbrev pub skip_blanks : Bytes → Bytes
skip_blanks [] = []
skip_blanks (c ∷ s) = let rest : Bytes = skip_blanks s in if is_blank c then rest else c ∷ s

-- A word in lower case, in front of a text of any case.
abbrev pub strip_fold : Bytes → Bytes → Option Bytes
strip_fold [] s = some s
strip_fold (p ∷ ps) [] = none
strip_fold (p ∷ ps) (c ∷ s) =
    let rest : Option Bytes = strip_fold ps s in
    if (if leb 65 c && leb c 90 then c + 32 else c) == p then rest else none

abbrev pub starts_blank : Bytes → Bool
starts_blank [] = false
starts_blank (c ∷ s) = is_blank c

-- Behind the digits: blanks, one at least, and the currency.
abbrev pub ends_fee : Bytes → Bool
ends_fee s =
    starts_blank s
    && elim (strip_fold (codes "lovelace") (skip_blanks s)) [ some r ↦ true | none ↦ false ]

-- The digits at the start, where the currency follows.
abbrev pub digits_of_fee : Bytes × Bytes → Option Bytes
digits_of_fee ([], after) = none
digits_of_fee (d ∷ ds, after) = if ends_fee after then some (d ∷ ds) else none

-- A match of `(?i)(fee:\s*)(\d+)(\s+lovelace)` at the start, by its second group.
unfoldable pub match_fee : Bytes → Option Bytes
match_fee s = elim (strip_fold (codes "fee:") s) [
  | none ↦ none
  | some r ↦ digits_of_fee (span_digits (skip_blanks r))
]

-- The first match.
unfoldable pub find_fee : Bytes → Option Bytes
unfolding match_fee
find_fee [] = none
find_fee (c ∷ s) =
    let rest : Option Bytes = find_fee s in
    elim (match_fee (c ∷ s)) [ some d ↦ some d | none ↦ rest ]
