-- ===== src/FdPool/FileLaws.antt =====
-- cmd/rpc/cmd.go: which descriptor stands for which file.
use mathlib.Core.List.{Memᴰ}
use cardano_go.Common.{
  All, All-imp, Bool, Bool-cases, Bytes, List, [], ap, arith, bind-ok, bytes_eq, bytes_eq_refl,
  get_elem-append, get_elem-last, get_elem?, inl, inr, is_err, is_ok, is_panic, leb, length,
  length-append, ok, refl, see, some, subst, suc, sym, ℕ, ◌++◌, ◌+◌, ◌-◌, ◌∙◌, ◌∷◌, ◌≡◌, ◌≤◌,
}
use cardano_go.FdPool.Defs.{FdPool, new_fd_pool, get}
use cardano_go.FdPool.Files.{
  lookup_file, Prepared, prepare_file, prepare_from, prepare, max_file_descriptors,
}

-- A pool that gave out numbers and took none back.
abbrev IsFresh : FdPool → ℕ → Type 0
IsFresh p n = (p.fds ≡ []) × (p.next_fd ≡ 3 + n)

get-new :
    (p : FdPool) (n fd : ℕ)
    → IsFresh p n
    → (get p).1 ≡ ok fd
    → (fd ≡ 3 + n) × IsFresh (get p).0 (suc n)
unfolding get
get-new p n fd (a, b) e = elim (Bool-cases (leb p.max_fds (length p.in_use))) [
  | inl f ↦ absurd (ground (arith, f, e))
  | inr f ↦ ground (arith, a, b, f, e)
]

module _ {ℓ} {A : Type ℓ} where
  -- The child has the file of the name at the descriptor: `exec.Cmd` gives the file at the index
  -- i of `ExtraFiles` the descriptor 3 + i.
  abbrev pub IsPlaced : List (Bytes × A) → List A → Bytes × ℕ → Type ℓ
  IsPlaced files extra e =
      (3 ≤ e.1) × ((c : A) × (get_elem? extra (e.1 - 3) ≡ some c) × Memᴰ (e.0, c) files)

  IsPlaced-append :
      (files : List (Bytes × A)) (extra : List A) (c : A) (e : Bytes × ℕ)
      → IsPlaced files extra e
      → IsPlaced files (extra ++ c ∷ []) e
  IsPlaced-append files extra c e (a, (d, g, m)) =
      (a, (d, get_elem-append extra (c ∷ []) (e.1 - 3) d g, m))

  record IsReady (files : List (Bytes × A)) (p : Prepared A) : Type ℓ where
    fresh : IsFresh p.pool (length p.extra_files)
    placed : All (IsPlaced files p.extra_files) p.file_map

  abbrev extended : Bytes → A → Prepared A → ℕ → Prepared A
  extended name c p fd = record {
    pool = (get p.pool).0;
    extra_files = p.extra_files ++ c ∷ [];
    file_map = (name, fd) ∷ p.file_map;
  }

  extended-IsReady :
      (files : List (Bytes × A)) (name : Bytes) (c : A) (p : Prepared A) (fd : ℕ)
      → Memᴰ (name, c) files
      → IsReady files p
      → (get p.pool).1 ≡ ok fd
      → IsReady files (extended name c p fd)
  extended-IsReady files name c p fd m r e =
      let n : ℕ = length p.extra_files in
      let (same, fresh) = get-new p.pool n fd r.fresh e in
      let more : length (p.extra_files ++ c ∷ []) ≡ suc n =
        omega (arith, length-append p.extra_files (c ∷ [])) in
      let index : fd - 3 ≡ n = omega (arith, same) in
      record {
        fresh = subst (IsFresh (get p.pool).0) (sym more) fresh;
        placed = (
          (
            omega (arith, same),
            (c, ap (get_elem? (p.extra_files ++ c ∷ [])) index ∙ get_elem-last p.extra_files c, m),
          ),
          All-imp (IsPlaced files p.extra_files) (IsPlaced files (p.extra_files ++ c ∷ []))
              p.file_map (λ x k. IsPlaced-append files p.extra_files c x k) r.placed,
        );
      }

  prepare_file-IsReady :
      (pipe : ℕ → Bool) (files : List (Bytes × A)) (name : Bytes) (c : A) (p q : Prepared A)
      → Memᴰ (name, c) files
      → IsReady files p
      → prepare_file pipe name c p ≡ ok q
      → IsReady files q
  unfolding prepare_file
  prepare_file-IsReady pipe files name c p q m r e =
      elim (Bool-cases (pipe (length p.extra_files))) [
        | inr f ↦ absurd (ground (arith, e, f))
        | inl f ↦ elim (see (get p.pool).1) [
          | is_err x g ↦ absurd (ground (arith, e, f, g))
          | is_panic g ↦ absurd (ground (arith, e, f, g))
          | is_ok fd g ↦
              let same : extended name c p fd ≡ q = ground (arith, e, f, g) in
              subst (IsReady files) same (extended-IsReady files name c p fd m r g)
        ]
      ]

  prepare_from-IsReady :
      (pipe : ℕ → Bool) (files fs : List (Bytes × A)) (p q : Prepared A)
      → ((f : Bytes × A) → Memᴰ f fs → Memᴰ f files)
      → IsReady files p
      → prepare_from pipe fs p ≡ ok q
      → IsReady files q
  unfolding prepare_from
  prepare_from-IsReady pipe files [] p q inside r e =
      let same : p ≡ q = cc in subst (IsReady files) same r
  prepare_from-IsReady pipe files (f ∷ fs) p q inside r e =
      let (p', e1, e2) = bind-ok (prepare_file pipe f.0 f.1 p) (prepare_from pipe fs) q e in
      prepare_from-IsReady pipe files fs p' q (λ g m. inside g (Memᴰ.tail m))
        (prepare_file-IsReady pipe files f.0 f.1 p p' (inside f (Memᴰ.head refl)) r e1) e2

  pub prepare-IsPlaced :
      (pipe : ℕ → Bool) (files : List (Bytes × A)) (p : Prepared A)
      → prepare pipe files ≡ ok p
      → All (IsPlaced files p.extra_files) p.file_map
  unfolding prepare
  prepare-IsPlaced pipe files p e =
      (prepare_from-IsReady pipe files files
        (record { pool = new_fd_pool max_file_descriptors; extra_files = []; file_map = [] }) p
        (λ f m. m) (record { fresh = (refl, refl); placed = tt }) e).placed

  abbrev pub HasFd : List (Bytes × ℕ) → Bytes × A → Type 0
  HasFd fds f = (fd : ℕ) × (lookup_file f.0 fds ≡ some fd)

  HasFd-more :
      (e : Bytes × ℕ) (fds : List (Bytes × ℕ)) (f : Bytes × A) → HasFd fds f → HasFd (e ∷ fds) f
  HasFd-more e fds f (fd, h) = elim (Bool-cases (bytes_eq e.0 f.0)) [
    | inl g ↦ (e.1, rw g refl)
    | inr g ↦ (fd, rw g h)
  ]

  prepare_file-file_map :
      (pipe : ℕ → Bool) (name : Bytes) (c : A) (p q : Prepared A)
      → prepare_file pipe name c p ≡ ok q
      → (fd : ℕ) × (q.file_map ≡ (name, fd) ∷ p.file_map)
  unfolding prepare_file
  prepare_file-file_map pipe name c p q e = elim (Bool-cases (pipe (length p.extra_files))) [
    | inr f ↦ absurd (ground (arith, e, f))
    | inl f ↦ elim (see (get p.pool).1) [
      | is_err x g ↦ absurd (ground (arith, e, f, g))
      | is_panic g ↦ absurd (ground (arith, e, f, g))
      | is_ok fd g ↦
          let same : extended name c p fd ≡ q = ground (arith, e, f, g) in
          (fd, ap (λ (x : Prepared A). x.file_map) (sym same))
    ]
  ]

  prepare_from-HasFd :
      (pipe : ℕ → Bool) (fs : List (Bytes × A)) (p q : Prepared A)
      → prepare_from pipe fs p ≡ ok q
      → All (HasFd q.file_map) fs × ((f : Bytes × A) → HasFd p.file_map f → HasFd q.file_map f)
  unfolding prepare_from
  prepare_from-HasFd pipe [] p q e =
      let same : p ≡ q = cc in (tt, λ f h. subst (λ (x : Prepared A). HasFd x.file_map f) same h)
  prepare_from-HasFd pipe (f ∷ fs) p q e =
      let (r, e1, e2) = bind-ok (prepare_file pipe f.0 f.1 p) (prepare_from pipe fs) q e in
      let (fd, added) = prepare_file-file_map pipe f.0 f.1 p r e1 in
      let (later, kept) = prepare_from-HasFd pipe fs r q e2 in
      let here : HasFd r.file_map f = (fd, rw (added, bytes_eq_refl f.0) refl) in
      (
        (kept f here, later),
        λ g h. kept g (
            subst (λ (x : List (Bytes × ℕ)). HasFd x g) (sym added)
              (HasFd-more (f.0, fd) p.file_map g h)),
      )

  pub prepare-HasFd :
      (pipe : ℕ → Bool) (files : List (Bytes × A)) (p : Prepared A)
      → prepare pipe files ≡ ok p
      → All (HasFd p.file_map) files
  unfolding prepare
  prepare-HasFd pipe files p e =
      (prepare_from-HasFd pipe files
        (record { pool = new_fd_pool max_file_descriptors; extra_files = []; file_map = [] }) p e).0
