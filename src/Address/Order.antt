-- ===== src/Address/Order.antt =====
-- Go iterates over `AddressTypeMap` in an order that changes from run to run. At most one row fits
-- a header, and one a type, so the order does not show.
use mathlib.Core.List.{Perm}
use mathlib.Core.Path.{fun_ext}
use cardano_go.Common.{
  All, All-mem, Bytes, List, Option, Result, Unique, [], ap, arith, bytes_eq, err, find, find-perm,
  has_prefix, length, none, ok, refl, some, subst, sym, take, true, ℕ, ◌==◌, ◌>>=◌, ◌∙◌, ◌∷◌, ◌≡◌,
}
use cardano_go.Address.Bits.{to_bytes}
use cardano_go.Address.Types.{
  AddressType, AddressFormat, address_type_map, invalid_type_bits, format_of_type, AddressError,
}
use cardano_go.Address.Header.{type_of, format}

AddressFormat-set : IsSet AddressFormat
AddressFormat-set = hlevel

-- A row is found again by its header type, and by its type.
abbrev ByHeaderType : AddressFormat → Type 0
ByHeaderType f =
    (length f.header_type ≡ 4)
    × (find (λ g. bytes_eq g.header_type f.header_type) address_type_map ≡ some f)

by_header_type : All ByHeaderType address_type_map
unfolding bytes_eq
by_header_type = (
  (refl, refl),
  (
    (refl, refl),
    (
      (refl, refl),
      (
        (refl, refl),
        (
          (refl, refl),
          ((refl, refl), ((refl, refl), ((refl, refl), ((refl, refl), ((refl, refl), tt))))),
        ),
      ),
    ),
  ),
)

abbrev ByType : AddressFormat → Type 0
ByType f = find (λ g. g.typ == f.typ) address_type_map ≡ some f

by_type : All ByType address_type_map
by_type = (refl, (refl, (refl, (refl, (refl, (refl, (refl, (refl, (refl, (refl, tt))))))))))

some_unique {ℓ} : {A : Type ℓ} {o : Option A} {a b : A} → o ≡ some a → o ≡ some b → a ≡ b
some_unique e f = cc

eq_take_of_has_prefix : (s p : Bytes) → has_prefix s p ≡ true → p ≡ take (length p) s
eq_take_of_has_prefix s [] h = refl
eq_take_of_has_prefix [] (p ∷ ps) h = cc
eq_take_of_has_prefix (c ∷ s) (p ∷ ps) h = ground (arith, eq_take_of_has_prefix s ps)

header_type-Unique : (s : Bytes) → Unique (λ f. has_prefix s f.header_type) address_type_map
header_type-Unique s f g mf mg hf hg =
    let bf : ByHeaderType f = All-mem ByHeaderType by_header_type mf in
    let bg : ByHeaderType g = All-mem ByHeaderType by_header_type mg in
    let ef : f.header_type ≡ take 4 s = rw bf.0 at (eq_take_of_has_prefix s f.header_type hf) in
    let eg : g.header_type ≡ take 4 s = rw bg.0 at (eq_take_of_has_prefix s g.header_type hg) in
    let same : f.header_type ≡ g.header_type = ef ∙ sym eg in
    let found : find (λ h. bytes_eq h.header_type f.header_type) address_type_map ≡ some g =
      subst (λ b. find (λ h. bytes_eq h.header_type b) address_type_map ≡ some g) (sym same) bg.1 in
    some_unique bf.1 found

type-Unique : (t : AddressType) → Unique (λ f. f.typ == t) address_type_map
type-Unique t f g mf mg hf hg =
    let bf : ByType f = All-mem ByType by_type mf in
    let bg : ByType g = All-mem ByType by_type mg in
    let e : f.typ ≡ g.typ = ground arith in
    some_unique bf (subst (λ b. find (λ h. h.typ == b) address_type_map ≡ some g) (sym e) bg)

-- In whatever order Go visits the table, `Type` gives the same result for every header.
pub type_of-order :
    (order : List AddressFormat) (a : ℕ)
    → Perm order address_type_map
    → type_of order a ≡ type_of address_type_map a
unfolding type_of
type_of-order order a p = ap read_row (
    find-perm AddressFormat-set (λ t. has_prefix (to_bytes a) t.header_type) order address_type_map
      p (header_type-Unique (to_bytes a)))
  where
    read_row : Option AddressFormat → Result AddressError AddressType
    read_row o = elim o [ some t ↦ ok t.typ | none ↦ err (invalid_type_bits a) ]

-- So does `Format` of a type.
pub format_of_type-order :
    (order : List AddressFormat) (t : AddressType)
    → Perm order address_type_map
    → format_of_type order t ≡ format_of_type address_type_map t
unfolding format_of_type
format_of_type-order order t p =
    rw (find-perm AddressFormat-set (λ f. f.typ == t) order address_type_map p (type-Unique t))

pub format-order :
    (order : List AddressFormat) (a : ℕ)
    → Perm order address_type_map
    → format order a ≡ format address_type_map a
unfolding format
format-order order a p =
    rw (type_of-order order a p)
      (ap (λ k. type_of address_type_map a >>= k) (fun_ext (λ t. format_of_type-order order t p)))
