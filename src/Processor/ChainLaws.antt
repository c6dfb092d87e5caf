-- ===== src/Processor/ChainLaws.antt =====
-- What the loop over the blocks accepts, and how it numbers them.
use cardano_go.Common.{
  Bool-cases, Bytes, List, [], ap, append-nil, append_assoc, arith, bytes_eq, bytes_eq_refl,
  eq_of_bytes_eq, false, if◌then◌else◌, inl, inr, length, ok, refl, subst, true, ℕ, ◌++◌, ◌+◌, ◌<◌,
  ◌>>=◌, ◌^◌, ◌∙◌, ◌∷◌, ◌≡◌, ◌⊎◌,
}
use cardano_go.Db.Tables.{PointRef}
use cardano_go.Processor.Defs.{
  Block, Progress, is_boundary, is_linked, point_of, take_block, consume,
}
use cardano_go.Processor.Rounds.{start_height}

-- Each block that is no boundary block names, as its previous one, the last such block or the last
-- boundary block before it.
pub data IsWhole : Bytes → Bytes → List Block → Type 0 where
  whole_end : {prev bound : Bytes} → IsWhole prev bound []
  whole_boundary :
      {prev bound : Bytes} {b : Block} {bs : List Block}
      → is_boundary b ≡ true
      → IsWhole prev b.hash bs
      → IsWhole prev bound (b ∷ bs)
  whole_main :
      {prev bound : Bytes} {b : Block} {bs : List Block}
      → is_boundary b ≡ false
      → (b.prev_hash ≡ prev) ⊎ (b.prev_hash ≡ bound)
      → IsWhole b.hash bound bs
      → IsWhole prev bound (b ∷ bs)

-- Boundary blocks take the number of the block after them.
abbrev pub numbered : ℕ → List Block → List PointRef
numbered h [] = []
numbered h (b ∷ bs) = point_of h b ∷ numbered (if is_boundary b then h else h + 1) bs

take_block-boundary :
    (p : Progress) (b : Block)
    → 0 < p.height
    → is_boundary b ≡ true
    → ((take_block p b).height ≡ p.height)
      × ((take_block p b).prev_hash ≡ p.prev_hash)
      × ((take_block p b).prev_boundary ≡ b.hash)
unfolding take_block
take_block-boundary p b pos e =
    (ground (arith, e, pos), ground (arith, e, pos), ground (arith, e, pos))

take_block-main :
    (p : Progress) (b : Block)
    → p.height + 1 < 2 ^ 64
    → is_boundary b ≡ false
    → ((take_block p b).height ≡ p.height + 1)
      × ((take_block p b).prev_hash ≡ b.hash)
      × ((take_block p b).prev_boundary ≡ p.prev_boundary)
unfolding take_block
take_block-main p b small e = (ground (arith, e, small), ground (arith, e), ground (arith, e))

take_block-refs :
    (p : Progress) (b : Block)
    → (take_block p b).point_refs ≡ p.point_refs ++ point_of p.height b ∷ []
unfolding take_block
take_block-refs p b = ground arith

consume-cons :
    (b : Block) (bs : List Block) (p q : Progress)
    → consume (b ∷ bs) p ≡ ok q
    → (is_linked p b ≡ true) × (consume bs (take_block p b) ≡ ok q)
unfolding consume
consume-cons b bs p q e = (ground (arith, e), ground (arith, e))

is_linked-main :
    (p : Progress) (b : Block)
    → 0 < p.height
    → is_boundary b ≡ false
    → is_linked p b ≡ true
    → (b.prev_hash ≡ p.prev_hash) ⊎ (b.prev_hash ≡ p.prev_boundary)
is_linked-main p b pos e l = elim (Bool-cases (bytes_eq b.prev_hash p.prev_hash)) [
  | inl f ↦ inl (eq_of_bytes_eq b.prev_hash p.prev_hash f)
  | inr f ↦ inr (eq_of_bytes_eq b.prev_hash p.prev_boundary (ground (arith, pos, e, l, f)))
]

main-is_linked :
    (p : Progress) (b : Block)
    → (b.prev_hash ≡ p.prev_hash) ⊎ (b.prev_hash ≡ p.prev_boundary)
    → is_linked p b ≡ true
main-is_linked p b (inl e) =
    let f : bytes_eq b.prev_hash p.prev_hash ≡ true = rw (e) (bytes_eq_refl p.prev_hash) in
    ground (arith, f)
main-is_linked p b (inr e) =
    let f : bytes_eq b.prev_hash p.prev_boundary ≡ true = rw (e) (bytes_eq_refl p.prev_boundary) in
    ground (arith, f)

consume_sound :
    (bs : List Block) (p q : Progress) (h : ℕ) (prev bound : Bytes)
    → p.height ≡ h
    → p.prev_hash ≡ prev
    → p.prev_boundary ≡ bound
    → 0 < h
    → h + length bs < 2 ^ 64
    → consume bs p ≡ ok q
    → IsWhole prev bound bs × (q.point_refs ≡ p.point_refs ++ numbered h bs)
unfolding consume
consume_sound [] p q h prev bound eh ep eb pos small e =
    (whole_end, rw (append-nil p.point_refs) (ground (arith, e)))
consume_sound (b ∷ bs) p q h prev bound eh ep eb pos small e =
    let (linked, rest) = consume-cons b bs p q e in
    let first : (take_block p b).point_refs ≡ p.point_refs ++ point_of h b ∷ [] =
      rw (← eh) (take_block-refs p b) in
    elim (Bool-cases (is_boundary b)) [
      | inl f ↦
          let (h1, p1, b1) = take_block-boundary p b (omega (arith, eh, pos)) f in
          let (w, n) =
            consume_sound bs (take_block p b) q h prev b.hash (h1 ∙ eh) (p1 ∙ ep) b1 pos
              (omega (arith, small)) rest in
          (
            whole_boundary f w,
            n ∙ rw (first, f) (append_assoc p.point_refs (point_of h b ∷ []) (numbered h bs)),
          )
      | inr f ↦
          let (h1, p1, b1) = take_block-main p b (omega (arith, eh, small)) f in
          let (w, n) =
            consume_sound bs (take_block p b) q (h + 1) b.hash bound (h1 ∙ ap (λ (x : ℕ). x + 1) eh)
              p1 (b1 ∙ eb) (omega arith) (omega (arith, small)) rest in
          (
            whole_main f (rw (← ep, ← eb) (is_linked-main p b (omega (arith, eh, pos)) f linked)) w,
            n ∙ rw (first, f) (append_assoc p.point_refs (point_of h b ∷ []) (numbered (h + 1) bs)),
          )
    ]

-- From a height that is not 0 on, as long as the heights stay below 2^64: where the blocks are
-- taken, each of them that is no boundary block names, as its previous one, the last block before
-- it that is none or the last boundary block before it; a boundary block may name any. Each block is
-- noted behind what was noted before, with heights that go up by one with each block that is no
-- boundary block, so that a boundary block has the height of the block after it.
pub consume-IsWhole :
    (bs : List Block) (p q : Progress)
    → 0 < p.height
    → p.height + length bs < 2 ^ 64
    → consume bs p ≡ ok q
    → IsWhole p.prev_hash p.prev_boundary bs × (q.point_refs ≡ p.point_refs ++ numbered p.height bs)
consume-IsWhole bs p q pos small e =
    consume_sound bs p q p.height p.prev_hash p.prev_boundary refl refl refl pos small e

consume_complete :
    (bs : List Block) (p : Progress) (h : ℕ) (prev bound : Bytes)
    → p.height ≡ h
    → p.prev_hash ≡ prev
    → p.prev_boundary ≡ bound
    → 0 < h
    → h + length bs < 2 ^ 64
    → IsWhole prev bound bs
    → (q : Progress) × (consume bs p ≡ ok q)
unfolding consume
consume_complete [] p h prev bound eh ep eb pos small w = (p, refl)
consume_complete (b ∷ bs) p h prev bound eh ep eb pos small (whole_boundary f w) =
    let (h1, p1, b1) = take_block-boundary p b (omega (arith, eh, pos)) f in
    let (q, e) =
      consume_complete bs (take_block p b) h prev b.hash (h1 ∙ eh) (p1 ∙ ep) b1 pos
        (omega (arith, small)) w in
    (q, ground (arith, e, f))
consume_complete (b ∷ bs) p h prev bound eh ep eb pos small (whole_main f l w) =
    let (h1, p1, b1) = take_block-main p b (omega (arith, eh, small)) f in
    let (q, e) =
      consume_complete bs (take_block p b) (h + 1) b.hash bound (h1 ∙ ap (λ (x : ℕ). x + 1) eh) p1
        (b1 ∙ eb) (omega arith) (omega (arith, small)) w in
    let linked : is_linked p b ≡ true = main-is_linked p b (rw (ep, eb) l) in
    (q, ground (arith, e, linked))

-- From a height that is not 0 on, as long as the heights stay below 2^64: where the chain is
-- whole, all the blocks are taken.
consume-whole :
    (bs : List Block) (p : Progress)
    → 0 < p.height
    → p.height + length bs < 2 ^ 64
    → IsWhole p.prev_hash p.prev_boundary bs
    → (q : Progress) × (consume bs p ≡ ok q)
consume-whole bs p pos small w =
    consume_complete bs p p.height p.prev_hash p.prev_boundary refl refl refl pos small w

consume-append :
    (xs ys : List Block) (p : Progress) → consume (xs ++ ys) p ≡ (consume xs p >>= consume ys)
unfolding consume
consume-append [] ys p = refl
consume-append (x ∷ xs) ys p = ground (arith, consume-append xs ys (take_block p x))

next_start :
    (b : Block) (m : Progress)
    → 0 < m.height
    → m.height + 2 < 2 ^ 64
    → bytes_eq b.hash [] ≡ false
    → start_height (take_block m b).max_point
      ≡ (if is_boundary b then (take_block m b).height + 1 else (take_block m b).height)
unfolding take_block
next_start b m pos small named = ground (arith, pos, small, named)

-- The height at which a batch starts, against the one at which the batch before it stopped: they
-- are the same, except that after a boundary block at the end a height is left out. This is for a
-- last block with a hash, behind blocks that took the height above 0 and not to 2^64 - 2.
pub start_height-consume :
    (xs : List Block) (b : Block) (p m q : Progress)
    → consume xs p ≡ ok m
    → 0 < m.height
    → m.height + 2 < 2 ^ 64
    → bytes_eq b.hash [] ≡ false
    → consume (xs ++ b ∷ []) p ≡ ok q
    → start_height q.max_point ≡ (if is_boundary b then q.height + 1 else q.height)
unfolding consume
start_height-consume xs b p m q e pos small named f =
    let g : consume (b ∷ []) m ≡ ok q = ground (arith, f, consume-append xs (b ∷ []) p, e) in
    let same : take_block m b ≡ q = ground (arith, g) in
    subst
      (λ (x : Progress).
        start_height x.max_point ≡ (if is_boundary b then x.height + 1 else x.height))
      same (next_start b m pos small named)
