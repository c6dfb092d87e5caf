-- ===== src/FdPool/Invariant.antt =====
-- No descriptor is given out twice, and none from 3 + max on.
use cardano_go.Common.{
  All, All-append, All-both, All-filterb, All-imp, All-kept, Bool, Bool-cases, List, [], ap, arith,
  err, false, filterb, inl, inr, leb, length, length-append, not, ok, refl, subst, suc, sym, true,
  ℕ, ◌++◌, ◌+◌, ◌<◌, ◌==◌, ◌∷◌, ◌≡◌, ◌≤◌,
}
use cardano_go.FdPool.Distinct.{
  NotIn, Distinct, any-NotIn, any-All, NotIn-below, grow, Distinct-kept, Distinct-append,
  length-without,
}
use cardano_go.FdPool.Defs.{FdPool, new_fd_pool, get, release, take_fd, uses, max_reached}

-- The numbers given out so far are those in use and those in the queue, none of them twice.
pub record IsSound (p : FdPool) : Type 0 where
  pub used_once : Distinct p.in_use
  pub free_once : Distinct p.fds
  pub apart : All (λ (f : ℕ). NotIn f p.in_use) p.fds
  pub used_below : All (λ (f : ℕ). (3 ≤ f) × (f < p.next_fd)) p.in_use
  pub free_below : All (λ (f : ℕ). (3 ≤ f) × (f < p.next_fd)) p.fds
  pub counted : p.next_fd ≡ 3 + length p.in_use + length p.fds
  pub bounded : p.next_fd ≤ 3 + p.max_fds

-- The pools that calls lead to.
pub data Reached (n : ℕ) : FdPool → Type 0 where
  at_start : Reached n (new_fd_pool n)
  after_get : {p : FdPool} → Reached n p → Reached n (get p).0
  after_release : {p : FdPool} (fd : ℕ) → Reached n p → Reached n (release p fd)

take_fd-queue :
    (p : FdPool) (fd : ℕ) (rest : List ℕ)
    → p.fds ≡ fd ∷ rest
    → NotIn fd p.in_use
    → take_fd p ≡ (fd, record p { in_use = fd ∷ p.in_use; fds = rest })
unfolding take_fd
take_fd-queue p fd rest e h = rw (take_fd, e, any-NotIn fd p.in_use h) refl

take_fd-new :
    (p : FdPool)
    → p.fds ≡ []
    → NotIn p.next_fd p.in_use
    → take_fd p
      ≡ (p.next_fd, record p { in_use = p.next_fd ∷ p.in_use; next_fd = p.next_fd + 1; fds = [] })
unfolding take_fd
take_fd-new p e h = ground (arith, e, any-NotIn p.next_fd p.in_use h)

-- What `get` gives out.
pub record IsTaken (p q : FdPool) (fd : ℕ) : Type 0 where
  pub sound : IsSound q
  pub not_used : NotIn fd p.in_use
  pub in_range : (3 ≤ fd) × (fd < 3 + p.max_fds)

from_queue :
    (p : FdPool) (fd : ℕ) (rest : List ℕ)
    → IsSound p
    → p.fds ≡ fd ∷ rest
    → IsTaken p (take_fd p).1 (take_fd p).0
from_queue p fd rest s e =
    let apart : All (λ (f : ℕ). NotIn f p.in_use) (fd ∷ rest) =
      subst (All (λ (f : ℕ). NotIn f p.in_use)) e s.apart in
    let once : Distinct (fd ∷ rest) = subst Distinct e s.free_once in
    let below : All (λ (f : ℕ). (3 ≤ f) × (f < p.next_fd)) (fd ∷ rest) =
      subst (All (λ (f : ℕ). (3 ≤ f) × (f < p.next_fd))) e s.free_below in
    let n : length p.fds ≡ suc (length rest) = ap length e in
    rw (take_fd-queue p fd rest e apart.0) (record {
      sound = record {
        used_once = (apart.0, s.used_once);
        free_once = once.1;
        apart =
            All-imp (λ (f : ℕ). (¬ (f ≡ fd)) × NotIn f p.in_use)
              (λ (f : ℕ). NotIn f (fd ∷ p.in_use)) rest (λ f h. (λ k. h.0 (sym k), h.1))
              (All-both (λ (f : ℕ). ¬ (f ≡ fd)) (λ (f : ℕ). NotIn f p.in_use) rest once.0 apart.1);
        used_below = (below.0, s.used_below);
        free_below = below.1;
        counted = omega (arith, s.counted, n);
        bounded = s.bounded;
      };
      not_used = apart.0;
      in_range = (below.0.0, omega (arith, below.0.1, s.bounded));
    })

from_new :
    (p : FdPool)
    → IsSound p
    → p.fds ≡ []
    → length p.in_use < p.max_fds
    → IsTaken p (take_fd p).1 (take_fd p).0
from_new p s e free =
    let n : length p.fds ≡ 0 = ap length e in
    let fresh : NotIn p.next_fd p.in_use = NotIn-below p.next_fd p.in_use s.used_below in
    rw (take_fd-new p e fresh) (record {
      sound = record {
        used_once = (fresh, s.used_once);
        free_once = tt;
        apart = tt;
        used_below =
            ((omega (arith, s.counted), omega arith), grow p.next_fd p.in_use s.used_below);
        free_below = tt;
        counted = omega (arith, s.counted, n);
        bounded = omega (arith, s.counted, n, free);
      };
      not_used = fresh;
      in_range = (omega (arith, s.counted), omega (arith, s.counted, n, free));
    })

take_fd-IsTaken :
    (p : FdPool) → IsSound p → length p.in_use < p.max_fds → IsTaken p (take_fd p).1 (take_fd p).0
take_fd-IsTaken p s free = by_queue p.fds refl
  where
    by_queue : (l : List ℕ) → p.fds ≡ l → IsTaken p (take_fd p).1 (take_fd p).0
    by_queue [] e = from_new p s e free
    by_queue (fd ∷ rest) e = from_queue p fd rest s e

get-ok : (p : FdPool) → length p.in_use < p.max_fds → get p ≡ ((take_fd p).1, ok (take_fd p).0)
unfolding get
get-ok p free = ground (arith, free)

get-full : (p : FdPool) → p.max_fds ≤ length p.in_use → get p ≡ (p, err max_reached)
unfolding get
get-full p full = ground (arith, full)

get-IsSound : (p : FdPool) → IsSound p → IsSound (get p).0
get-IsSound p s = elim (Bool-cases (leb p.max_fds (length p.in_use))) [
  | inl e ↦ rw (get-full p (ground (arith, e))) s
  | inr e ↦
      let free : length p.in_use < p.max_fds = ground (arith, e) in
      rw (get-ok p free) (take_fd-IsTaken p s free).sound
]

used-NotIn : (p : FdPool) (fd : ℕ) → IsSound p → uses p fd ≡ true → NotIn fd p.fds
used-NotIn p fd s u =
    All-imp (λ (f : ℕ). NotIn f p.in_use) (λ (f : ℕ). ¬ (f ≡ fd)) p.fds
      (λ f h e.
        let k : uses p fd ≡ false =
          any-NotIn fd p.in_use (subst (λ (x : ℕ). NotIn x p.in_use) e h) in
        cc)
      s.apart

abbrev without : ℕ → List ℕ → List ℕ
without fd xs = filterb (λ (x : ℕ). not (x == fd)) xs

release-used :
    (p : FdPool) (fd : ℕ)
    → IsSound p
    → uses p fd ≡ true
    → release p fd ≡ record p { in_use = without fd p.in_use; fds = p.fds ++ fd ∷ [] }
unfolding release
release-used p fd s u =
    let n : length p.in_use ≡ suc (length (without fd p.in_use)) =
      length-without fd p.in_use s.used_once u in
    let room : length p.fds < p.max_fds = omega (arith, s.counted, s.bounded, n) in
    ground (arith, u, room)

release-unused : (p : FdPool) (fd : ℕ) → uses p fd ≡ false → release p fd ≡ p
unfolding release
release-unused p fd u = ground (arith, u)

released :
    (p : FdPool) (fd : ℕ)
    → IsSound p
    → uses p fd ≡ true
    → IsSound (record p { in_use = without fd p.in_use; fds = p.fds ++ fd ∷ [] })
released p fd s u =
    let keep : ℕ → Bool = λ x. not (x == fd) in
    let n : length p.in_use ≡ suc (length (without fd p.in_use)) =
      length-without fd p.in_use s.used_once u in
    let gone : NotIn fd (without fd p.in_use) =
      All-filterb (λ (x : ℕ). ¬ (x ≡ fd)) keep p.in_use (λ x k. ground (arith, k)) in
    let below : (3 ≤ fd) × (fd < p.next_fd) =
      any-All (λ (f : ℕ). (3 ≤ f) × (f < p.next_fd)) fd p.in_use s.used_below u in
    record {
      used_once = Distinct-kept keep p.in_use s.used_once;
      free_once = Distinct-append p.fds fd s.free_once (used-NotIn p fd s u);
      apart =
          All-append (λ (f : ℕ). NotIn f (without fd p.in_use)) p.fds (fd ∷ [])
            (All-imp (λ (f : ℕ). NotIn f p.in_use) (λ (f : ℕ). NotIn f (without fd p.in_use)) p.fds
              (λ f h. All-kept (λ (x : ℕ). ¬ (x ≡ f)) keep p.in_use h) s.apart)
            (gone, tt);
      used_below = All-kept (λ (f : ℕ). (3 ≤ f) × (f < p.next_fd)) keep p.in_use s.used_below;
      free_below =
          All-append (λ (f : ℕ). (3 ≤ f) × (f < p.next_fd)) p.fds (fd ∷ []) s.free_below
            (below, tt);
      counted = omega (arith, s.counted, n, length-append p.fds (fd ∷ []));
      bounded = s.bounded;
    }

release-IsSound : (p : FdPool) (fd : ℕ) → IsSound p → IsSound (release p fd)
release-IsSound p fd s = elim (Bool-cases (uses p fd)) [
  | inr u ↦ rw (release-unused p fd u) s
  | inl u ↦ rw (release-used p fd s u) (released p fd s u)
]

-- In every pool that calls of `get` and `release` lead to, whatever is released, the numbers in use
-- and those in the queue are distinct, from 3 on, and at most as many as the pool's maximum.
pub Reached-IsSound : (n : ℕ) (p : FdPool) → Reached n p → IsSound p
Reached-IsSound n _ at_start = record {
  used_once = tt;
  free_once = tt;
  apart = tt;
  used_below = tt;
  free_below = tt;
  counted = refl;
  bounded = omega arith;
}
Reached-IsSound n _ (after_get {p} r) = get-IsSound p (Reached-IsSound n p r)
Reached-IsSound n _ (after_release {p} fd r) = release-IsSound p fd (Reached-IsSound n p r)

-- In every pool that calls of `get` and `release` lead to, `get` succeeds while fewer than the maximum are in use, with a number that is not
-- in use and lies between 3 and 2 + max.
get-fresh :
    (n : ℕ) (p : FdPool)
    → Reached n p
    → length p.in_use < p.max_fds
    → (fd : ℕ) × ((get p).1 ≡ ok fd) × NotIn fd p.in_use × (3 ≤ fd) × (fd < 3 + p.max_fds)
get-fresh n p r free =
    let taken : IsTaken p (take_fd p).1 (take_fd p).0 =
      take_fd-IsTaken p (Reached-IsSound n p r) free in
    ((take_fd p).0, rw (get-ok p free) refl, taken.not_used, taken.in_range.0, taken.in_range.1)
