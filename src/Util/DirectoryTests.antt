-- ===== src/Util/DirectoryTests.antt =====
-- A run of `iterate_chunk_directory`, with an insertion sort.
use cardano_go.Common.{
  All-imp, Bool, Bool-cases, Bytes, List, Option, [], codes, false, if◌then◌else◌, inl, inr, none,
  refl, some, true, ◌++◌, ◌∷◌, ◌≡◌, ◌⊎◌,
}
use mathlib.Core.List.{Permᴰ}
use mathlib.Core.List.Permᴰ
use cardano_go.Block.KvSlice.{All-perm}
use cardano_go.Util.Directory.{
  Visit, visited, FileInfo, walk_failed, iterate_chunk_directory, chunk_number_from, files_of,
  is_readable, Called, Stops, IsInOrder, IsOrder, IsSortedBy, less, iterate_chunk_directory_lem,
}

module _ (lt : FileInfo → FileInfo → Bool) where
  abbrev insert : FileInfo → List FileInfo → List FileInfo
  insert f [] = f ∷ []
  insert f (g ∷ gs) =
      let rest : List FileInfo = insert f gs in if lt g f then g ∷ rest else f ∷ g ∷ gs

  abbrev sort : List FileInfo → List FileInfo
  sort [] = []
  sort (f ∷ fs) = insert f (sort fs)

  insert-Perm : (f : FileInfo) (gs : List FileInfo) → Permᴰ (insert f gs) (f ∷ gs)
  insert-Perm f [] = Permᴰ.refl (f ∷ [])
  insert-Perm f (g ∷ gs) = elim (Bool-cases (lt g f)) [
    | inr e ↦ rw (e) (Permᴰ.refl (f ∷ g ∷ gs))
    | inl e ↦ rw (e) (Permᴰ.trans (Permᴰ.cons refl (insert-Perm f gs)) (Permᴰ.swap refl refl))
  ]

  sort-Perm : (fs : List FileInfo) → Permᴰ (sort fs) fs
  sort-Perm [] = Permᴰ.nil
  sort-Perm (f ∷ fs) = Permᴰ.trans (insert-Perm f (sort fs)) (Permᴰ.cons refl (sort-Perm fs))

  insert-IsSortedBy :
      (f : FileInfo) (gs : List FileInfo)
      → IsOrder lt
      → IsSortedBy lt gs
      → IsSortedBy lt (insert f gs)
  insert-IsSortedBy f [] o h = (tt, tt)
  insert-IsSortedBy f (g ∷ gs) o h = elim (Bool-cases (lt g f)) [
    | inr e ↦
        rw (IsSortedBy, e)
          (
            (
              e,
              All-imp (λ (x : FileInfo). lt x g ≡ false) (λ (x : FileInfo). lt x f ≡ false) gs
                  (λ x k. o.trans f g x e k) h.0,
            ),
            h,
          )
    | inl e ↦
        rw (IsSortedBy, e)
          (
            All-perm (λ (x : FileInfo). lt x g ≡ false) (insert-Perm f gs) (o.total g f e, h.0),
            insert-IsSortedBy f gs o h.1,
          )
  ]

  sort-IsSortedBy : (fs : List FileInfo) → IsOrder lt → IsSortedBy lt (sort fs)
  sort-IsSortedBy [] o = tt
  sort-IsSortedBy (f ∷ fs) o = insert-IsSortedBy f (sort fs) o (sort-IsSortedBy fs o)

-- Two files, that sort by number and not by name.
abbrev visits : List Visit
visits =
    visited (codes "a") (codes "a") true
    ∷ visited (codes "a/10-y") (codes "10-y") false
    ∷ visited (codes "a/9-x") (codes "9-x") false
    ∷ []

abbrev read : Bytes → Option Bytes
read path = some (1 ∷ [])

abbrev note : Bytes → Bytes → List Bytes → List Bytes × Option (Unit {0})
note path bytes seen = (seen ++ path ∷ [], none)

in_order :
    iterate_chunk_directory read sort note visits [] ≡ (codes "a/9-x" ∷ codes "a/10-y" ∷ [], none)
unfolding iterate_chunk_directory chunk_number_from less
in_order = refl

iterate_chunk_directory_lem_example :
    ((is_readable visits ≡ false)
      × (iterate_chunk_directory read sort note visits [] ≡ ([], some walk_failed)))
    ⊎ ((is_readable visits ≡ true)
        × ((before after : List FileInfo) × (u : List Bytes) × Permᴰ
              (before ++ after)
              (files_of visits)
            × IsInOrder (before ++ after)
            × Called read sort note before [] u
            × Stops read sort note after u (iterate_chunk_directory read sort note visits [])))
iterate_chunk_directory_lem_example =
    iterate_chunk_directory_lem read sort note visits []
      (record { perm = λ lt fs o. sort-Perm lt fs; in_order = λ lt fs o. sort-IsSortedBy lt fs o })
