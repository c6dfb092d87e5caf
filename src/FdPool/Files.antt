-- ===== src/FdPool/Files.antt =====
-- cmd/rpc/cmd.go: `runCommandWithVirtualFiles`, up to the start of the command.
use cardano_go.Common.{
  Bool, Bytes, List, Option, Result, [], bytes_eq, codes, drop, err, has_prefix, if◌then◌else◌, leb,
  length, none, not, ok, panic, some, suc, take, zero, ℕ, ◌++◌, ◌+◌, ◌-◌, ◌>>=◌, ◌∷◌,
}
use cardano_go.FdPool.Defs.{FdPool, PoolError, new_fd_pool, get}
use cardano_go.Http.Text.{is_blank, is_space, trim_space, show}

abbrev pub max_file_descriptors : ℕ
max_file_descriptors = 10

pub data FileError : Type 0 where
  pipe_failed : Bytes → FileError
  no_descriptor : PoolError → FileError

-- The pool, `cmd.ExtraFiles` and `fileMap`; an entry that was made later stands first.
pub record Prepared {ℓ} (A : Type ℓ) : Type ℓ where
  pub pool : FdPool
  pub extra_files : List A
  pub file_map : List (Bytes × ℕ)

-- `pipe` tells whether `os.Pipe` succeeds for a file, by the files before it.
module _ {ℓ} {A : Type ℓ} (pipe : ℕ → Bool) where
  -- A round of the loop over the files.
  unfoldable pub prepare_file : Bytes → A → Prepared A → Result FileError (Prepared A)
  unfolding get
  prepare_file name content p =
      let got : FdPool × Result PoolError ℕ = get p.pool in
      if not (pipe (length p.extra_files)) then err (pipe_failed name) else elim got.1 [
        | err e ↦ err (no_descriptor e)
        | panic ↦ panic
        | ok fd ↦ ok (record {
          pool = got.0;
          extra_files = p.extra_files ++ content ∷ [];
          file_map = (name, fd) ∷ p.file_map;
        })
      ]

  unfoldable pub prepare_from : List (Bytes × A) → Prepared A → Result FileError (Prepared A)
  unfolding prepare_file
  prepare_from [] p = ok p
  prepare_from (f ∷ fs) p = prepare_file f.0 f.1 p >>= prepare_from fs

  -- The loop over the files.
  unfoldable pub prepare : List (Bytes × A) → Result FileError (Prepared A)
  unfolding prepare_from
  prepare fs =
      prepare_from fs
        (record { pool = new_fd_pool max_file_descriptors; extra_files = []; file_map = [] })

-- The text up to a blank, and the rest.
abbrev pub span_word : Bytes → Bytes × Bytes
span_word [] = ([], [])
span_word (c ∷ s) =
    let rest : Bytes × Bytes = span_word s in
    if is_blank c then ([], c ∷ s) else (c ∷ rest.0, rest.1)

abbrev pub lookup_file : Bytes → List (Bytes × ℕ) → Option ℕ
lookup_file name [] = none
lookup_file name (e ∷ es) =
    let rest : Option ℕ = lookup_file name es in if bytes_eq e.0 name then some e.1 else rest

abbrev pub file_mark : Bytes
file_mark = codes "file://"

-- The length of a match of `file://(.*?)(?:\s|$)` at the start: the blank behind the name is in it.
abbrev pub match_length : Bytes → ℕ
match_length s =
    let name : Bytes × Bytes = span_word (drop 7 s) in
    7 + length name.0 + (if leb 1 (length name.1) then 1 else 0)

-- What a match is replaced by.
abbrev pub replacement : List (Bytes × ℕ) → Bytes → Bytes
replacement fds s = elim (lookup_file (trim_space (span_word (drop 7 s)).0) fds) [
  | some fd ↦ codes "/dev/fd/" ++ show fd ++ codes " "
  | none ↦ take (match_length s) s
]

-- `ReplaceAllStringFunc`; the number is that of the characters of a match that are still to pass.
unfoldable pub replace_files : List (Bytes × ℕ) → ℕ → Bytes → Bytes
replace_files fds n [] = []
replace_files fds (suc n) (c ∷ s) = replace_files fds n s
replace_files fds zero (c ∷ s) =
    let inside : Bytes = replace_files fds (match_length (c ∷ s) - 1) s in
    let past : Bytes = replace_files fds 0 s in
    if has_prefix (c ∷ s) file_mark then replacement fds (c ∷ s) ++ inside else c ∷ past

-- `strings.Fields`
unfoldable pub fields : Bytes → List Bytes
fields [] = []
fields (c ∷ s) =
    let rest : List Bytes = fields s in
    if is_space c then rest else elim s [
      | [] ↦ (c ∷ []) ∷ []
      | d ∷ _ ↦
          if is_space d
          then (c ∷ []) ∷ rest
          else elim rest [ [] ↦ (c ∷ []) ∷ [] | l ∷ ls ↦ (c ∷ l) ∷ ls ]
    ]

-- The arguments of the command, or the error before its start.
unfoldable pub command_args {ℓ} :
    {A : Type ℓ} → (ℕ → Bool) → Bytes → List (Bytes × A) → Result FileError (List Bytes × List A)
unfolding prepare replace_files fields
command_args pipe params files = elim (prepare pipe files) [
  | err e ↦ err e
  | panic ↦ panic
  | ok p ↦ ok (fields (replace_files p.file_map 0 params), p.extra_files)
]
