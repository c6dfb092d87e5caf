-- ===== src/FdPool/Defs.antt =====
-- The state of an `fdPool` and its operations.
use cardano_go.Common.{
  Bool, List, Result, [], any, err, filterb, if◌then◌else◌, leb, length, ltb, not, ok, ℕ, ◌++◌, ◌+◌,
  ◌==◌, ◌∷◌,
}

-- The channel `fds` is a queue that holds `max_fds` numbers; the map `inUse` is the list of its
-- keys.
pub record FdPool : Type 0 where
  pub fds : List ℕ
  pub in_use : List ℕ
  pub next_fd : ℕ
  pub max_fds : ℕ

pub data PoolError : Type 0 where
  max_reached : PoolError

-- `newFdPool`
abbrev pub new_fd_pool : ℕ → FdPool
new_fd_pool n = record { fds = []; in_use = []; next_fd = 3; max_fds = n }

-- `p.inUse[fd]`
abbrev pub uses : FdPool → ℕ → Bool
uses p fd = any (λ (x : ℕ). x == fd) p.in_use

-- `p.inUse[fd] = true`
abbrev pub mark : ℕ → List ℕ → List ℕ
mark fd xs = if any (λ (x : ℕ). x == fd) xs then xs else fd ∷ xs

-- `select` on the channel: a number that was given back, or a new one.
unfoldable pub take_fd : FdPool → ℕ × FdPool
take_fd p = elim p.fds [
  | [] ↦ (p.next_fd, record p { in_use = mark p.next_fd p.in_use; next_fd = p.next_fd + 1 })
  | fd ∷ rest ↦ (fd, record p { in_use = mark fd p.in_use; fds = rest })
]

-- `fdPool.get`
unfoldable pub get : FdPool → FdPool × Result PoolError ℕ
unfolding take_fd
get p =
    let taken : ℕ × FdPool = take_fd p in
    if leb p.max_fds (length p.in_use) then (p, err max_reached) else (taken.1, ok taken.0)

-- `fdPool.release`
unfoldable pub release : FdPool → ℕ → FdPool
release p fd =
    let freed : FdPool = record p { in_use = filterb (λ (x : ℕ). not (x == fd)) p.in_use } in
    if uses p fd
    then if ltb (length p.fds) p.max_fds then record freed { fds = p.fds ++ fd ∷ [] } else freed
    else p
