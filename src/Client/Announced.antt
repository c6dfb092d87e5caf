-- ===== src/Client/Announced.antt =====
-- client.go: what becomes of a point that chain sync announces.
use mathlib.Core.List.{Memᴰ}
use cardano_go.Common.{
  [], arith, inl, inr, mem-append-left, mem-append-right, refl, subst, sym, ℕ, ◌++◌, ◌∷◌, ◌≡◌,
}
use cardano_go.Db.Tables.{PointRef}
use cardano_go.Db.View.{lookup}
use cardano_go.Client.Defs.{Client}
use cardano_go.Client.Known.{Has, IsStored, in_points, IsRun-IsStored, store_points-new}
use cardano_go.Client.Calls.{Step-IsRun}
use cardano_go.Client.SyncLaws.{on_roll_forwards-cases, on_roll_backwards-points}
use cardano_go.Client.Sync.{
  BlockData, on_roll_forwards, on_roll_backwards, note_point, flush, point_of_data, Step, Reached,
  forward, backward, lock, unlock, leave, here, next, round,
}

-- The client or its database knows the point.
pub data IsKnown (c : Client) (p : PointRef) : Type 0 where
  waits : Memᴰ p c.points → IsKnown c p
  stored : IsStored c.processor.tables p.slot p.hash → IsKnown c p

-- A point that the noted ones hold is known after the roll forward.
forward-noted :
    (c : Client) (kind : ℕ) (block_data : BlockData) (tip : ℕ) (p : PointRef)
    → Memᴰ p (c.points ++ point_of_data kind block_data ∷ [])
    → IsKnown (on_roll_forwards c kind block_data tip) p
forward-noted c kind block_data tip p m =
    let noted : Client = note_point c kind (point_of_data kind block_data) tip in
    elim (on_roll_forwards-cases c kind block_data tip) [
      | inl (due, e) ↦
          subst (λ (d : Client). IsKnown d p) (sym e)
            (stored (in_points (store_points-new c.processor.tables noted.points p m)))
      | inr (due, e) ↦ subst (λ (d : Client). IsKnown d p) (sym e) (waits m)
    ]

Step-IsKnown : (c d : Client) (p : PointRef) → Step c d → IsKnown c p → IsKnown d p
Step-IsKnown c d p s (stored k) =
    stored (IsRun-IsStored c.processor.tables d.processor.tables p.slot p.hash (Step-IsRun c d s) k)
Step-IsKnown c d p (forward kind block_data tip g) (waits m) =
    forward-noted c kind block_data tip p (mem-append-left (point_of_data kind block_data ∷ []) m)
Step-IsKnown c d p (backward slot free) (waits m) =
    waits (subst (Memᴰ p) (sym (on_roll_backwards-points c slot).0) m)
Step-IsKnown c d p (lock w) (waits m) = waits m
Step-IsKnown c d p (round fetch w e) (waits m) = waits m
Step-IsKnown c d p (unlock fetch w e) (waits m) = waits m
Step-IsKnown c d p (leave w) (waits m) = waits m

Reached-IsKnown : (c d : Client) (p : PointRef) → IsKnown c p → Reached c d → IsKnown d p
Reached-IsKnown c d p k here = k
Reached-IsKnown c d p k (next {d = e} r s) = Step-IsKnown e d p s (Reached-IsKnown c e p k r)

-- No point is lost: from the roll forward that announces it on, whatever the handlers, the block
-- processor and rollbacks do in any order, it waits to be stored, or the database has it, or it
-- was rolled back.
pub announced-IsKnown :
    (c d : Client) (kind : ℕ) (block_data : BlockData) (tip : ℕ)
    → Reached (on_roll_forwards c kind block_data tip) d
    → IsKnown d (point_of_data kind block_data)
announced-IsKnown c d kind block_data tip r =
    let p : PointRef = point_of_data kind block_data in
    Reached-IsKnown (on_roll_forwards c kind block_data tip) d p
      (forward-noted c kind block_data tip p (mem-append-right c.points (Memᴰ.head refl))) r

flushed :
    (c : Client) (kind : ℕ) (block_data : BlockData) (tip : ℕ)
    → tip ≡ (point_of_data kind block_data).slot
    → on_roll_forwards c kind block_data tip
      ≡ flush (note_point c kind (point_of_data kind block_data) tip)
flushed c kind block_data tip at = elim (on_roll_forwards-cases c kind block_data tip) [
  | inl (due, e) ↦ e
  | inr (due, e) ↦ absurd (ground (arith, due, at))
]

-- A rollback to any slot leaves the points that wait as they are: every one of them, those behind
-- that slot included, is in the table of points after the next roll forward at the node's tip.
rolled_back-stored :
    (c : Client) (p : PointRef) (slot kind : ℕ) (block_data : BlockData) (tip : ℕ)
    → Memᴰ p c.points
    → tip ≡ (point_of_data kind block_data).slot
    → Has
        (lookup
          (on_roll_forwards
            (on_roll_backwards c slot).0
            kind
            block_data
            tip).processor.tables.points)
        p.slot
        p.hash
rolled_back-stored c p slot kind block_data tip m at =
    let d : Client = (on_roll_backwards c slot).0 in
    let q : PointRef = point_of_data kind block_data in
    let kept : Memᴰ p (d.points ++ q ∷ []) =
      mem-append-left (q ∷ []) (subst (Memᴰ p) (sym (on_roll_backwards-points c slot).0) m) in
    subst (λ (e : Client). Has (lookup e.processor.tables.points) p.slot p.hash)
      (sym (flushed d kind block_data tip at))
      (store_points-new d.processor.tables (d.points ++ q ∷ []) p kept)
