-- ===== src/Util/Directory.antt =====
-- util.go: `IterateChunkDirectory`. `filepath.Walk` and `os.ReadFile` read the file system, and
-- `sort.Slice` is a library's: they are arguments.
use cardano_go.Common.{
  All, All-imp, Bool, Bool-cases, Bytes, List, Option, Option-cases, [], ap, append-nil,
  append_assoc, arith, false, if◌then◌else◌, inl, inr, ltb, none, not, refl, some, subst, sym, true,
  ℕ, ◌*◌, ◌++◌, ◌+◌, ◌-◌, ◌==◌, ◌^◌, ◌∙◌, ◌∷◌, ◌≡◌, ◌≤◌, ◌⊎◌,
}
use mathlib.Core.List.{Permᴰ}
use cardano_go.Http.Text.{is_digit}

-- What the walk says of a path: a name with whether it is a directory, or the error for it.
pub data Visit : Type 0 where
  visited : (path name : Bytes) (is_dir : Bool) → Visit
  unreadable : Visit

-- `fileInfo`
pub record FileInfo : Type 0 where
  pub number : ℕ
  pub path : Bytes

pub data DirectoryError (E : Type 0) : Type 0 where
  walk_failed read_failed : DirectoryError E
  callback_failed : E → DirectoryError E

-- The first of the segments of a name that `-` separates.
abbrev pub first_segment : Bytes → Bytes
first_segment [] = []
first_segment (c ∷ s) = if c == 45 then [] else c ∷ first_segment s

-- `ParseUint` with its error dropped, from a value on: what is no number counts as 0, what is too
-- large as the largest uint64.
unfoldable pub chunk_number_from : ℕ → Bytes → ℕ
chunk_number_from n [] = n
chunk_number_from n (c ∷ s) =
    let rest : ℕ = chunk_number_from (n * 10 + (c - 48)) s in
    if not (is_digit c) then 0 else if ltb (n * 10 + (c - 48)) (2 ^ 64) then rest else 2 ^ 64 - 1

abbrev pub file_info : Bytes → Bytes → FileInfo
file_info path name = record { number = chunk_number_from 0 (first_segment name); path = path }

-- The function that the walk calls, over what it visits, with the files so far.
unfoldable pub collect : List Visit → List FileInfo → Option (List FileInfo)
collect [] files = some files
collect (unreadable ∷ vs) files = none
collect (visited path name true ∷ vs) files = collect vs files
collect (visited path name false ∷ vs) files = collect vs (files ++ file_info path name ∷ [])

-- The files among what is visited.
abbrev pub files_of : List Visit → List FileInfo
files_of [] = []
files_of (unreadable ∷ vs) = files_of vs
files_of (visited path name true ∷ vs) = files_of vs
files_of (visited path name false ∷ vs) = file_info path name ∷ files_of vs

abbrev pub is_readable : List Visit → Bool
is_readable [] = true
is_readable (unreadable ∷ vs) = false
is_readable (visited path name d ∷ vs) = is_readable vs

abbrev pub IsInOrder : List FileInfo → Type 0
IsInOrder [] = Unit
IsInOrder (f ∷ fs) = All (λ (g : FileInfo). f.number ≤ g.number) fs × IsInOrder fs

-- The function that `sort.Slice` is called with.
unfoldable pub less : FileInfo → FileInfo → Bool
less f g = ltb f.number g.number

-- Nothing stands in front of an element that is less.
abbrev pub IsSortedBy : (FileInfo → FileInfo → Bool) → List FileInfo → Type 0
IsSortedBy lt [] = Unit
IsSortedBy lt (f ∷ fs) = All (λ (g : FileInfo). lt g f ≡ false) fs × IsSortedBy lt fs

-- What `sort.Slice` demands of its function, as the order of those that are not less.
pub record IsOrder (lt : FileInfo → FileInfo → Bool) : Type 0 where
  pub total : (f g : FileInfo) → lt f g ≡ true → lt g f ≡ false
  pub trans : (f g h : FileInfo) → lt g f ≡ false → lt h g ≡ false → lt h f ≡ false

-- What `sort.Slice` promises, with whatever order it is called.
pub record Sorts (sort : (FileInfo → FileInfo → Bool) → List FileInfo → List FileInfo)
    : Type 0 where
  pub perm :
      (lt : FileInfo → FileInfo → Bool) (fs : List FileInfo) → IsOrder lt → Permᴰ (sort lt fs) fs
  pub in_order :
      (lt : FileInfo → FileInfo → Bool) (fs : List FileInfo)
      → IsOrder lt
      → IsSortedBy lt (sort lt fs)

less-IsOrder : IsOrder less
unfolding less
less-IsOrder = record {
  total = λ f g e. ground (arith, e);
  trans = λ f g h d e. ground (arith, d, e);
}

IsSortedBy-less : (fs : List FileInfo) → IsSortedBy less fs → IsInOrder fs
unfolding less
IsSortedBy-less [] s = tt
IsSortedBy-less (f ∷ fs) s = (
  All-imp (λ (g : FileInfo). less g f ≡ false) (λ (g : FileInfo). f.number ≤ g.number) fs
      (λ g e. ground (arith, e)) s.0,
  IsSortedBy-less fs s.1,
)

collect-readable :
    (vs : List Visit) (files : List FileInfo)
    → is_readable vs ≡ true
    → collect vs files ≡ some (files ++ files_of vs)
unfolding collect
collect-readable [] files h = ap some (sym (append-nil files))
collect-readable (unreadable ∷ vs) files h = cc
collect-readable (visited path name true ∷ vs) files h = collect-readable vs files h
collect-readable (visited path name false ∷ vs) files h =
    collect-readable vs (files ++ file_info path name ∷ []) h
    ∙ ap some (append_assoc files (file_info path name ∷ []) (files_of vs))

collect-unreadable :
    (vs : List Visit) (files : List FileInfo) → is_readable vs ≡ false → collect vs files ≡ none
unfolding collect
collect-unreadable [] files h = cc
collect-unreadable (unreadable ∷ vs) files h = refl
collect-unreadable (visited path name true ∷ vs) files h = collect-unreadable vs files h
collect-unreadable (visited path name false ∷ vs) files h =
    collect-unreadable vs (files ++ file_info path name ∷ []) h

-- A file's contents, where it can be read, and the order that `sort.Slice` finds.
module _ {S E : Type 0} (read : Bytes → Option Bytes)
    (sort : (FileInfo → FileInfo → Bool) → List FileInfo → List FileInfo)
    (cb : Bytes → Bytes → S → S × Option E) where
  -- The last loop; the error that the callback is given is nil always.
  unfoldable pub call_files : List FileInfo → S → S × Option (DirectoryError E)
  call_files [] s = (s, none)
  call_files (f ∷ fs) s = elim (read f.path) [
    | none ↦ (s, some read_failed)
    | some bytes ↦ elim (cb f.path bytes s).1 [
      | some e ↦ ((cb f.path bytes s).0, some (callback_failed e))
      | none ↦ call_files fs (cb f.path bytes s).0
    ]
  ]

  -- `IterateChunkDirectory`, by what the walk visits.
  unfoldable pub iterate_chunk_directory : List Visit → S → S × Option (DirectoryError E)
  unfolding collect call_files less
  iterate_chunk_directory vs s = elim (collect vs []) [
    | none ↦ (s, some walk_failed)
    | some files ↦ call_files (sort less files) s
  ]

  -- The callback runs on some files in turn, and each time succeeds.
  pub data Called : List FileInfo → S → S → Type 0 where
    none_called : {s : S} → Called [] s s
    called :
        {f : FileInfo} {fs : List FileInfo} {s u : S} (bytes : Bytes)
        → read f.path ≡ some bytes
        → (cb f.path bytes s).1 ≡ none
        → Called fs (cb f.path bytes s).0 u
        → Called (f ∷ fs) s u

  -- What comes after them: nothing is left, or the next file cannot be read, or the callback fails
  -- on it.
  abbrev pub Stops : List FileInfo → S → S × Option (DirectoryError E) → Type 0
  Stops [] u r = r ≡ (u, none)
  Stops (f ∷ fs) u r =
      ((read f.path ≡ none) × (r ≡ (u, some read_failed)))
      ⊎ ((bytes : Bytes) × (e : E) × (read f.path ≡ some bytes)
          × (cb f.path bytes u).1 ≡ some e
          × (r ≡ ((cb f.path bytes u).0, some (callback_failed e))))

  call_files-Stops :
      (fs : List FileInfo) (s : S)
      → (before after : List FileInfo) × (u : S) × (fs ≡ before ++ after)
        × Called before s u
        × Stops after u (call_files fs s)
  unfolding call_files
  call_files-Stops [] s = ([], [], s, refl, none_called, refl)
  call_files-Stops (f ∷ fs) s = elim (Option-cases (read f.path)) [
    | inl n ↦ ([], f ∷ fs, s, refl, none_called, inl (n, rw (call_files, n) refl))
    | inr (bytes, r) ↦ elim (Option-cases (cb f.path bytes s).1) [
      | inr (e, k) ↦
          ([], f ∷ fs, s, refl, none_called, inr (bytes, e, r, k, rw (call_files, r, k) refl))
      | inl k ↦
          let (before, after, u, split, c, stop) = call_files-Stops fs (cb f.path bytes s).0 in
          (f ∷ before, after, u, ap (◌∷◌ f) split, called bytes r k c, rw (call_files, r, k) stop)
    ]
  ]

  -- `sort.Slice` sorts by the function that it is given. Where the walk meets an error, `IterateChunkDirectory` fails and calls
  -- nothing. Otherwise the callback runs on the files of the directory in the order of their
  -- numbers, up to the first file that cannot be read or for which the callback fails, and this is
  -- the error; without one it runs on all of them.
  pub iterate_chunk_directory_lem :
      (vs : List Visit) (s : S)
      → Sorts sort
      → ((is_readable vs ≡ false) × (iterate_chunk_directory vs s ≡ (s, some walk_failed)))
        ⊎ ((is_readable vs ≡ true)
            × ((before after : List FileInfo) × (u : S) × Permᴰ (before ++ after) (files_of vs)
                × IsInOrder (before ++ after)
                × Called before s u
                × Stops after u (iterate_chunk_directory vs s)))
  unfolding iterate_chunk_directory
  iterate_chunk_directory_lem vs s sorts = elim (Bool-cases (is_readable vs)) [
    | inr h ↦ inl (h, rw (iterate_chunk_directory, collect-unreadable vs [] h) refl)
    | inl h ↦
        let (before, after, u, split, c, stop) = call_files-Stops (sort less (files_of vs)) s in
        inr (
          h,
          (
            before,
            after,
            u,
            subst (λ (x : List FileInfo). Permᴰ x (files_of vs)) split
                (sorts.perm less (files_of vs) less-IsOrder),
            subst IsInOrder split (
                IsSortedBy-less (sort less (files_of vs))
                  (sorts.in_order less (files_of vs) less-IsOrder)),
            c,
            rw (iterate_chunk_directory, collect-readable vs [] h) stop,
          ),
        )
  ]
