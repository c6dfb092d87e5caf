-- ===== src/FdPool/Tests.antt =====
-- Runs of the pool of descriptors.
use cardano_go.Common.{Bytes, List, [], bytes_eq, codes, ok, refl, true, ℕ, ◌∷◌, ◌≡◌}
use cardano_go.FdPool.Files.{Prepared, command_args}
use cardano_go.FdPool.Arguments.{Argument, word, file}
use cardano_go.FdPool.Defs.{new_fd_pool, get, release}
use cardano_go.FdPool.Invariant.{
  IsSound, Reached, at_start, after_get, after_release, Reached-IsSound,
}

abbrev calls : Reached 2 (release (get (new_fd_pool 2)).0 3)
calls = after_release 3 (after_get at_start)

Reached-IsSound_example : IsSound (release (get (new_fd_pool 2)).0 3)
Reached-IsSound_example = Reached-IsSound 2 (release (get (new_fd_pool 2)).0 3) calls

abbrev two_files : List (Bytes × ℕ)
two_files = (codes "tx", 70) ∷ (codes "key", 71) ∷ []

abbrev prepared : Prepared ℕ
prepared = record {
  pool = record { fds = []; in_use = 4 ∷ 3 ∷ []; next_fd = 5; max_fds = 10 };
  extra_files = 70 ∷ 71 ∷ [];
  file_map = (codes "key", 4) ∷ (codes "tx", 3) ∷ [];
}

abbrev some_args : List Argument
some_args = word (codes "sign") ∷ file (codes "key") ∷ file (codes "no") ∷ file (codes "tx") ∷ []

abbrev command_line : Bytes
command_line = codes "sign file://key file://no file://tx"

replaces :
    command_args (λ n. true) (codes "sign --key file://key --tx file://tx file://no") two_files
    ≡ ok (
      codes "sign"
          ∷ codes "--key"
          ∷ codes "/dev/fd/4"
          ∷ codes "--tx"
          ∷ codes "/dev/fd/3"
          ∷ codes "file://no"
          ∷ [],
      70 ∷ 71 ∷ [],
    )
unfolding command_args cardano_go.Common.bytes_eq cardano_go.Http.Text.show_from
replaces = refl
