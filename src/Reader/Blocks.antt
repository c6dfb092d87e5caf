-- ===== src/Reader/Blocks.antt =====
-- `nextBlocks`: the blocks that stand whole in the buffer of a batch, and its end.
use cardano_go.Common.{
  Bytes, List, Result, [], err, false, has_prefix, length, ok, suc, take, true, zero, ℕ, ◌++◌, ◌-◌,
  ◌∷◌,
}
use cardano_go.Reader.Defs.{
  Message, new_block, new_batch_done, read_left, unexpected_eof, read_failed, Cbor, ReadError,
  no_block_start, bad_block, no_fuel,
}

abbrev pub block_start : Bytes
block_start = 0x82 ∷ 0x04 ∷ []

abbrev pub batch_end : Bytes
batch_end = 0x81 ∷ 0x05 ∷ []

-- The messages and the bytes left over, which the deferred function sets on every return, and
-- whether an error came with them.
pub record Blocks : Type 0 where
  pub messages : List Message
  pub remaining : Bytes
  pub verdict : Result ReadError (Unit {0})

abbrev ended : List Message → Bytes → Result ReadError (Unit {0}) → Blocks
ended ms rest v = record { messages = ms; remaining = rest; verdict = v }

module _ (cbor : Cbor) where
  -- The loop of `nextBlocks` on `data[i:]`. Behind the end of a batch `i` moves to the end of the
  -- data.
  unfoldable pub next_blocks_from : ℕ → Bytes → List Message → Blocks
  next_blocks_from fuel [] messages = ended messages [] (ok tt)
  next_blocks_from zero (b ∷ data') messages = ended messages (b ∷ data') (err no_fuel)
  next_blocks_from (suc fuel) (b ∷ data') messages =
      let d : Bytes = b ∷ data' in
      elim (has_prefix d batch_end) [
        | true ↦ ended (messages ++ new_batch_done ∷ []) [] (ok tt)
        | false ↦ elim (has_prefix d block_start) [
          | false ↦ ended messages d (err no_block_start)
          | true ↦ elim (cbor.unmarshal_block d) [
            | unexpected_eof ↦ ended messages d (ok tt)
            | read_failed ↦ ended messages d (err bad_block)
            | read_left left ↦
                next_blocks_from fuel left
                  (messages ++ new_block (take (length d - length left) d) ∷ [])
          ]
        ]
      ]

  -- `nextBlocks`
  unfoldable pub next_blocks : Bytes → Blocks
  unfolding next_blocks_from
  next_blocks data' = next_blocks_from (length data') data' []
