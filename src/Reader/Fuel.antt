-- ===== src/Reader/Fuel.antt =====
-- The fuel of the loops over messages and blocks (message.go) is enough.
use cardano_go.Common.{
  Bytes, List, Option-cases, [], ap, arith, err, inl, inr, is_err, is_ok, is_panic, length,
  length-append, ok, refl, see, some, suc, take, zero, ℕ, ◌++◌, ◌+◌, ◌-◌, ◌<◌, ◌∙◌, ◌∷◌, ◌≡◌, ◌≢◌,
  ◌≤◌,
}
use cardano_go.Reader.Defs.{
  Message, Reader, Cbor, no_fuel, read_left, BlockRead, Item, shared, new_block, unexpected_eof,
  read_failed,
}
use cardano_go.Reader.Messages.{next_message, next_messages, next_messages_from, take_message}
use cardano_go.Reader.Blocks.{next_blocks, next_blocks_from}
use cardano_go.Reader.Loop.{read}

-- What the CBOR package documents: a value that was decoded took a byte at least off the front, and
-- the bytes left over are the rest.
pub record CborLaws (cbor : Cbor) : Type 0 where
  pub first_splits :
      (d rest : Bytes) (items : List Item)
      → cbor.unmarshal_first d ≡ some (items, rest)
      → (used : Bytes) × (d ≡ used ++ rest) × (0 < length used)
  pub block_splits :
      (d rest : Bytes)
      → cbor.unmarshal_block d ≡ read_left rest
      → (used : Bytes) × (d ≡ used ++ rest) × (0 < length used)

take_message-partial :
    (r : Reader) (s : ℕ) (read : Bytes) → (take_message r s read).partial_header ≡ r.partial_header
unfolding take_message
take_message-partial r s read = ground arith

module _ (cbor : Cbor) (laws : CborLaws cbor) where
  -- A message takes a byte at least.
  next_message-shorter :
      (r : Reader) (d read left : Bytes) {s : ℕ}
      → next_message cbor r d ≡ ok (s, read, left)
      → length left < length d
  unfolding next_message
  next_message-shorter r d read left h = elim (Option-cases (cbor.unmarshal_first d)) [
    | inl e ↦ absurd (ground (arith, e))
    | inr ((items, rest), e) ↦
        let (used, split, pos) = laws.first_splits d rest items e in
        let same : left ≡ rest = ground (arith, e) in
        let len : length d ≡ length used + length rest =
          ap length split ∙ length-append used rest in
        rw same (omega arith)
  ]

  next_message-fuel : (r : Reader) (d : Bytes) → next_message cbor r d ≢ err no_fuel
  unfolding next_message
  next_message-fuel r d h = ground arith

  next_messages_from-fuel :
      (fuel : ℕ) (r : Reader) (d : Bytes) (ms : List Message) (rem : Bytes)
      → length d ≤ fuel
      → (next_messages_from cbor fuel r d ms rem).1 ≢ err no_fuel
  unfolding next_messages_from
  next_messages_from-fuel fuel r [] ms rem h e = cc
  next_messages_from-fuel zero r (b ∷ d) ms rem h e = absurd (omega arith)
  next_messages_from-fuel (suc fuel) r (b ∷ d) ms rem h e =
      elim (see (next_message cbor r (b ∷ d))) [
        | is_err x f ↦ next_message-fuel r (b ∷ d) (f ∙ ap err (ground (arith, f)))
        | is_panic f ↦ ground (arith, f)
        | is_ok (s, read, left) f ↦ ground (
          arith,
          f,
          next_message-shorter r (b ∷ d) read left f,
          next_messages_from-fuel fuel (take_message r s read) left (ms ++ shared r.protocol s ∷ [])
              left,
        )
      ]

  next_messages_from-partial :
      (fuel : ℕ) (r : Reader) (d : Bytes) (ms : List Message) (rem : Bytes)
      → (next_messages_from cbor fuel r d ms rem).0.partial_header ≡ r.partial_header
  unfolding next_messages_from
  next_messages_from-partial fuel r [] ms rem = refl
  next_messages_from-partial zero r (b ∷ d) ms rem = refl
  next_messages_from-partial (suc fuel) r (b ∷ d) ms rem =
      elim (see (next_message cbor r (b ∷ d))) [
        | is_err x f ↦ ground (arith, f)
        | is_panic f ↦ ground (arith, f)
        | is_ok (s, read, left) f ↦ ground (
          arith,
          f,
          take_message-partial r s read,
          next_messages_from-partial fuel (take_message r s read) left
              (ms ++ shared r.protocol s ∷ []) left,
        )
      ]

  next_blocks_from-fuel :
      (fuel : ℕ) (d : Bytes) (ms : List Message)
      → length d ≤ fuel
      → (next_blocks_from cbor fuel d ms).verdict ≢ err no_fuel
  unfolding next_blocks_from
  next_blocks_from-fuel fuel [] ms h e = cc
  next_blocks_from-fuel zero (b ∷ d) ms h e = absurd (omega arith)
  next_blocks_from-fuel (suc fuel) (b ∷ d) ms h e =
      go (cbor.unmarshal_block (b ∷ d)) refl (next_blocks_from-fuel fuel)
    where
      go :
          (x : BlockRead)
          → cbor.unmarshal_block (b ∷ d) ≡ x
          → ((d' : Bytes) (ms' : List Message)
              → length d' ≤ fuel
              → (next_blocks_from cbor fuel d' ms').verdict ≢ err no_fuel)
          → ⊥
      go (read_left left) f ih =
          let (used, split, pos) = laws.block_splits (b ∷ d) left f in
          let len : suc (length d) ≡ length used + length left =
            ap length split ∙ length-append used left in
          let rest : (next_blocks_from cbor fuel left
                (ms ++ new_block (take (suc (length d) - length left) (b ∷ d)) ∷ [])).verdict
              ≢ err no_fuel =
            ih left _ (omega arith) in
          ground (arith, f, rest)
      go unexpected_eof f ih = ground (arith, f)
      go read_failed f ih = ground (arith, f)

  pub next_messages-fuel : (r : Reader) (d : Bytes) → (next_messages cbor r d).1 ≢ err no_fuel
  unfolding next_messages
  next_messages-fuel r d = next_messages_from-fuel (length d) r d [] [] (omega arith)

  pub next_messages-partial :
      (r : Reader) (d : Bytes) → (next_messages cbor r d).0.partial_header ≡ r.partial_header
  unfolding next_messages
  next_messages-partial r d = next_messages_from-partial (length d) r d [] []

  pub next_blocks-fuel : (d : Bytes) → (next_blocks cbor d).verdict ≢ err no_fuel
  unfolding next_blocks
  next_blocks-fuel d = next_blocks_from-fuel (length d) d [] (omega arith)
