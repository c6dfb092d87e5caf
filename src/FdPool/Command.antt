-- ===== src/FdPool/Command.antt =====
-- cmd/rpc/cmd.go: what `runCommandWithVirtualFiles` makes of a command line.
use cardano_go.Common.{
  Bytes, List, Option, [], codes, if◌then◌else◌, leb, length, none, some, take, ℕ, ◌++◌, ◌+◌, ◌-◌,
}
use cardano_go.FdPool.Files.{file_mark, replace_files}
use cardano_go.Http.Text.{show}

module _ (fds : List (Bytes × ℕ)) where
  abbrev replaced : Option Bytes → Option Bytes
  replaced none = none
  replaced (some s) = some (replace_files fds 0 s)

  abbrev size : Bytes × Bytes → ℕ
  size p = 7 + length p.0 + (if leb 1 (length p.1) then 1 else 0)

  abbrev inserted : Option ℕ → Bytes → Bytes
  inserted (some fd) m = codes "/dev/fd/" ++ show fd ++ codes " "
  inserted none m = m

  -- A reference and what follows, by the descriptor of its file and the length of the match.
  abbrev piece : Option ℕ → Bytes → ℕ → Bytes
  piece l t n =
      inserted l (take n (file_mark ++ t)) ++ replace_files fds (n - 1) (codes "ile://" ++ t)

  abbrev named : Option ℕ → Bytes → Bytes
  named l name = elim l [ some fd ↦ codes "/dev/fd/" ++ show fd | none ↦ file_mark ++ name ]

  -- What stands behind the replaced reference.
  abbrev after_match : Option ℕ → Option Bytes → Option Bytes
  after_match l none = elim l [ some _ ↦ some [] | none ↦ none ]
  after_match l (some s) = some (replace_files fds 0 s)
