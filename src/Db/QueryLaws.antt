-- ===== src/Db/QueryLaws.antt =====
-- What the queries of db_sqlite.go find.
use Prim.Native.Nat.{max}
use mathlib.Core.List.{Memᴰ}
use cardano_go.Common.{
  All, All-filterb, Bool, Bytes, List, Option, Option-cases, [], ap, arith, bytes_eq, false,
  filterb, find, find-eq-some, inl, inr, ltb, none, not, ok, refl, some, true, ℕ, ◌&&◌, ◌<◌, ◌==◌,
  ◌∷◌, ◌≡◌, ◌≤◌,
}
use cardano_go.Db.Tables.{PointRef, PointRow, Tables}
use cardano_go.Db.Queries.{
  is_unset, has_height, max_height, higher, get_highest_point, get_boundary_point_behind, latest,
}

-- The height of a row, where it has one, is at most `n`.
abbrev pub HeightLe : ℕ → PointRow → Type 0
HeightLe n r = (m : ℕ) → r.height ≡ some m → m ≤ n

higher-left : (m : ℕ) (b : Option ℕ) → (k : ℕ) × (higher (some m) b ≡ some k) × (m ≤ k)
higher-left m none = (m, refl, omega arith)
higher-left m (some n) = (max m n, refl, omega arith)

higher-right : (a : Option ℕ) (n : ℕ) → (k : ℕ) × (higher a (some n) ≡ some k) × (n ≤ k)
higher-right none n = (n, refl, omega arith)
higher-right (some m) n = (max m n, refl, omega arith)

max_height-mem :
    (r : PointRow) (m : ℕ) (rows : List PointRow)
    → Memᴰ r rows
    → r.height ≡ some m
    → (k : ℕ) × (max_height rows ≡ some k) × (m ≤ k)
unfolding max_height
max_height-mem r m [] d h = elim d [ ]
max_height-mem r m (x ∷ xs) (Memᴰ.head e) h =
    let f : x.height ≡ some m = ground (arith, e, h) in rw (f) (higher-left m (max_height xs))
max_height-mem r m (x ∷ xs) (Memᴰ.tail d) h =
    let (k, e, le) = max_height-mem r m xs d h in
    let (l, f, le') = higher-right x.height k in (l, rw (e) f, omega (arith, le, le'))

max_height-le :
    (rows : List PointRow) {n : ℕ}
    → max_height rows ≡ some n
    → (r : PointRow) → Memᴰ r rows
    → HeightLe n r
max_height-le rows e r d m h =
    let (k, f, le) = max_height-mem r m rows d h in ground (arith, e, f, le)

has_height-eq :
    (n : ℕ) (h : Option ℕ) → elim h [ some m ↦ m == n | none ↦ false ] ≡ true → h ≡ some n
has_height-eq n none e = cc
has_height-eq n (some m) e = ap some (ground (arith, e))

-- A point that `GetHighestPoint` gives is no boundary point, and no row has a greater height.
get_highest_point-greatest :
    (t : Tables) (p : PointRef)
    → get_highest_point t ≡ ok p
    → (0 < p.kind) × ((r : PointRow) → Memᴰ r t.points → HeightLe p.height r)
unfolding get_highest_point
get_highest_point-greatest t p e = elim (Option-cases (max_height t.points)) [
  | inl f ↦ absurd (ground (arith, e, f))
  | inr (n, f) ↦
      elim (Option-cases (find (λ (r : PointRow). has_height n r && not (r.kind == 0)) t.points)) [
        | inl g ↦ absurd (ground (arith, e, f, g))
        | inr (r, g) ↦
            let (there, fits) =
              find-eq-some (λ (r : PointRow). has_height n r && not (r.kind == 0)) t.points g in
            let same : r.height ≡ some n = has_height-eq n r.height (ground (arith, fits)) in
            let h : p.height ≡ n = ground (arith, e, f, g, same) in
            (
              ground (arith, e, f, g, same, fits),
              λ x d m k. rw (h) (max_height-le t.points f x d m k),
            )
      ]
]

latest-unset :
    (rows : List PointRow) (r : PointRow)
    → All (λ (x : PointRow). is_unset x ≡ true) rows
    → latest rows ≡ some r
    → is_unset r ≡ true
unfolding latest
latest-unset [] r h e = cc
latest-unset (x ∷ xs) r h e = elim (Option-cases (latest xs)) [
  | inl f ↦ ground (arith, h.0, e, f)
  | inr (y, f) ↦ let u : is_unset y ≡ true = latest-unset xs y h.1 f in ground (arith, h.0, e, f, u)
]

-- `GetBoundaryPointBehind` never succeeds: the row that it looks for has height -1, which does not
-- fit the field that it is scanned into.
get_boundary_point_behind-fails :
    (t : Tables) (hash : Bytes) (p : PointRef) → ¬ (get_boundary_point_behind t hash ≡ ok p)
unfolding get_boundary_point_behind
get_boundary_point_behind-fails t hash p e =
    elim (Option-cases (find (λ (r : PointRow). bytes_eq r.hash hash) t.points)) [
      | inl f ↦ ground (arith, e, f)
      | inr (target, f) ↦
          let behind : PointRow → Bool = λ r. ltb r.slot target.slot && is_unset r in
          elim (Option-cases (latest (filterb behind t.points))) [
            | inl g ↦ ground (arith, e, f, g)
            | inr (r, g) ↦
                let u : is_unset r ≡ true =
                  latest-unset (filterb behind t.points) r
                    (All-filterb (λ (x : PointRow). is_unset x ≡ true) behind t.points
                      (λ x h. ground (arith, h)))
                    g in
                ground (arith, e, f, g, u)
          ]
    ]
