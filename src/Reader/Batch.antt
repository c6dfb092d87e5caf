-- ===== src/Reader/Batch.antt =====
-- `nextBlocks`: what it makes of blocks, of the end of a batch, and of what follows it.
use native.Mathlib.Nat.{sub-zero, suc-sub-suc}
use cardano_go.Common.{
  All, Bytes, List, [], ap, append-nil, append_assoc, arith, false, has_prefix, length,
  length-append, map, ok, refl, suc, take-append-sub, true, zero, ℕ, ◌++◌, ◌+◌, ◌-◌, ◌<◌, ◌∙◌, ◌∷◌,
  ◌≡◌, ◌≤◌,
}
use cardano_go.Reader.Defs.{Message, new_block, new_batch_done, Cbor, read_left, unexpected_eof}
use cardano_go.Reader.Blocks.{next_blocks, next_blocks_from, block_start, batch_end}

-- The bytes of one block message, which decode the same whatever follows them.
pub record IsBlock (cbor : Cbor) (b : Bytes) : Type 0 where
  pub starts : (rest : Bytes) → has_prefix (b ++ rest) block_start ≡ true
  pub not_end : (rest : Bytes) → has_prefix (b ++ rest) batch_end ≡ false
  pub decodes : (rest : Bytes) → cbor.unmarshal_block (b ++ rest) ≡ read_left rest
  pub not_empty : 0 < length b

abbrev pub concat : List Bytes → Bytes
concat [] = []
concat (b ∷ bs) = b ++ concat bs

-- The start of a block whose end has not arrived, or nothing.
pub data IsPart (cbor : Cbor) : Bytes → Type 0 where
  nothing : IsPart cbor []
  part :
      {d : Bytes}
      → has_prefix d block_start ≡ true
      → has_prefix d batch_end ≡ false
      → cbor.unmarshal_block d ≡ unexpected_eof
      → IsPart cbor d

module _ (cbor : Cbor) where
  -- A block at the front is taken off.
  next_blocks_from-block :
      (fuel : ℕ) (b rest : Bytes) (ms : List Message)
      → IsBlock cbor b
      → next_blocks_from cbor (suc fuel) (b ++ rest) ms
        ≡ next_blocks_from cbor fuel rest (ms ++ new_block b ∷ [])
  unfolding next_blocks_from
  next_blocks_from-block fuel [] rest ms h = absurd (omega (arith, h.not_empty))
  next_blocks_from-block fuel (x ∷ b) rest ms h =
      ground (arith, h.not_end rest, h.starts rest, h.decodes rest, take-append-sub (x ∷ b) rest)

  next_blocks_from-part :
      (fuel : ℕ) (d : Bytes) (ms : List Message)
      → IsPart cbor d
      → length d ≤ fuel
      → next_blocks_from cbor fuel d ms ≡ record { messages = ms; remaining = d; verdict = ok tt }
  unfolding next_blocks_from
  next_blocks_from-part fuel [] ms h f = refl
  next_blocks_from-part zero (b ∷ d) ms h f = absurd (omega arith)
  next_blocks_from-part (suc fuel) (b ∷ d) ms (part s n u) f = ground (arith, n, s, u)

  next_blocks_from-end :
      (fuel : ℕ) (junk : Bytes) (ms : List Message)
      → next_blocks_from cbor (suc fuel) (batch_end ++ junk) ms
        ≡ record { messages = ms ++ new_batch_done ∷ []; remaining = []; verdict = ok tt }
  unfolding next_blocks_from
  next_blocks_from-end fuel junk ms = refl

  next_blocks_from-concat :
      (fuel : ℕ) (bs : List Bytes) (rest : Bytes) (ms : List Message)
      → All (IsBlock cbor) bs
      → length bs ≤ fuel
      → next_blocks_from cbor fuel (concat bs ++ rest) ms
        ≡ next_blocks_from cbor (fuel - length bs) rest (ms ++ map new_block bs)
  next_blocks_from-concat fuel [] rest ms h f = rw (append-nil ms, sub-zero fuel) refl
  next_blocks_from-concat zero (b ∷ bs) rest ms h f = absurd (omega arith)
  next_blocks_from-concat (suc fuel) (b ∷ bs) rest ms h f = rw (
    append_assoc b (concat bs) rest,
    next_blocks_from-block fuel b (concat bs ++ rest) ms h.0,
    next_blocks_from-concat fuel bs rest (ms ++ new_block b ∷ []) h.1 (omega arith),
    suc-sub-suc fuel (length bs),
    append_assoc ms (new_block b ∷ []) (map new_block bs),
  )

  length-concat : (bs : List Bytes) → All (IsBlock cbor) bs → length bs ≤ length (concat bs)
  length-concat [] h = omega arith
  length-concat (b ∷ bs) h =
      omega (arith, h.0.not_empty, length-append b (concat bs), length-concat bs h.1)

  -- Whole blocks, and then nothing, or the start of one more, of its two first bytes at least, that
  -- the CBOR package finds to end too soon: the blocks come out in order, and that start is kept for
  -- the next segment.
  pub next_blocks-part :
      (bs : List Bytes) (d : Bytes)
      → All (IsBlock cbor) bs
      → IsPart cbor d
      → next_blocks cbor (concat bs ++ d)
        ≡ record { messages = map new_block bs; remaining = d; verdict = ok tt }
  unfolding next_blocks
  next_blocks-part bs d h p =
      let len : length (concat bs ++ d) ≡ length (concat bs) + length d =
        length-append (concat bs) d in
      let few : length bs ≤ length (concat bs) = length-concat bs h in
      next_blocks_from-concat (length (concat bs ++ d)) bs d [] h (omega arith)
      ∙ next_blocks_from-part _ d (map new_block bs) p (omega arith)

  -- Whole blocks, the end of the batch, and whatever stands behind it: the blocks and the end come
  -- out, nothing is left over, and what stands behind the end is lost.
  next_blocks-end :
      (bs : List Bytes) (junk : Bytes)
      → All (IsBlock cbor) bs
      → next_blocks cbor (concat bs ++ (batch_end ++ junk)) ≡ record {
        messages = map new_block bs ++ new_batch_done ∷ [];
        remaining = [];
        verdict = ok tt;
      }
  unfolding next_blocks
  next_blocks-end bs junk h =
      let d : Bytes = batch_end ++ junk in
      let len : length (concat bs ++ d) ≡ length (concat bs) + length d =
        length-append (concat bs) d in
      let few : length bs ≤ length (concat bs) = length-concat bs h in
      let more : length (concat bs ++ d) - length bs
          ≡ suc (length (concat bs ++ d) - length bs - 1) =
        omega arith in
      next_blocks_from-concat (length (concat bs ++ d)) bs d [] h (omega arith)
      ∙ ap (λ (n : ℕ). next_blocks_from cbor n d (map new_block bs)) more
      ∙ next_blocks_from-end (length (concat bs ++ d) - length bs - 1) junk (map new_block bs)
