-- ===== src/Reader/Tests.antt =====
-- Runs of the reader, with a stand-in for the CBOR package that has its laws.
use cardano_go.Common.{
  Bytes, List, Option, [], ap, arith, err, inl, length, none, ok, panic, refl, replicate, some,
  true, ◌++◌, ◌<◌, ◌∷◌, ◌≡◌, ◌≢◌,
}
use cardano_go.Protocol.{protocol_to_message}
use cardano_go.Reader.Defs.{
  shared, new_block, Store, raw_of, Reader, new_reader, Item, uint, Cbor, read_left, unexpected_eof,
  no_fuel, BlockRead,
}
use cardano_go.Reader.Header.{read_header}
use cardano_go.Reader.Messages.{known, next_messages}
use cardano_go.Reader.Blocks.{next_blocks}
use cardano_go.Reader.Loop.{read}
use cardano_go.Reader.Fuel.{CborLaws}
use cardano_go.Reader.Progress.{IsSettled, read-IsSettled}
use cardano_go.Reader.Batch.{IsBlock, IsPart, part, concat, next_blocks-part}
use cardano_go.Reader.Alias.{Encoded, Decodes, wire, pointers, last_bytes, next_messages-last}
use cardano_go.Segment.Wire.{put_u16, put_u32}
use cardano_go.Reader.Frames.{read-in_parts}
use cardano_go.Reader.Whole.{idle, after, read-frame}

-- Every byte is an array of one number; a block takes three bytes.
toy_block : Bytes → BlockRead
toy_block (a ∷ b ∷ c ∷ rest) = read_left rest
toy_block _ = unexpected_eof

toy_first : Bytes → Option (List Item × Bytes)
toy_first [] = none
toy_first (b ∷ rest) = some (uint b ∷ [], rest)

abbrev toy : Cbor
toy = record { unmarshal_first = toy_first; unmarshal = λ p s b. true; unmarshal_block = toy_block }

toy_first-splits :
    (d rest : Bytes) (items : List Item)
    → toy_first d ≡ some (items, rest)
    → (used : Bytes) × (d ≡ used ++ rest) × (0 < length used)
unfolding toy_first
toy_first-splits [] rest items e = cc
toy_first-splits (b ∷ d) rest items e = (b ∷ [], ap (◌∷◌ b) (ground (arith, e)), omega arith)

toy_block-splits :
    (d rest : Bytes)
    → toy_block d ≡ read_left rest
    → (used : Bytes) × (d ≡ used ++ rest) × (0 < length used)
unfolding toy_block
toy_block-splits (a ∷ b ∷ c ∷ d) rest e =
    (a ∷ b ∷ c ∷ [], ap (λ (l : Bytes). a ∷ b ∷ c ∷ l) (ground (arith, e)), omega arith)
toy_block-splits [] rest e = cc
toy_block-splits (a ∷ []) rest e = cc
toy_block-splits (a ∷ b ∷ []) rest e = cc

toy-CborLaws : CborLaws toy
toy-CborLaws = record { first_splits = toy_first-splits; block_splits = toy_block-splits }

abbrev no_objects : Store
no_objects = λ p s. []

-- The start of a keep-alive frame, and one byte too few.
abbrev some_bytes : Bytes
some_bytes = 0 ∷ 0 ∷ 0 ∷ 7 ∷ 0 ∷ 2 ∷ 0 ∷ 2 ∷ 1 ∷ []

new-IsSettled : IsSettled (new_reader no_objects)
new-IsSettled = inl refl

read-IsSettled_example :
    ((read toy (new_reader no_objects) some_bytes).verdict ≢ err no_fuel)
    × IsSettled (read toy (new_reader no_objects) some_bytes).reader
read-IsSettled_example =
    read-IsSettled toy toy-CborLaws (new_reader no_objects) some_bytes new-IsSettled

abbrev chain_reader : Reader
chain_reader = record (new_reader no_objects) { protocol = 2; seg_length = 2 }

abbrev await : Encoded
await = record { sub = 1; items = []; bytes = 1 ∷ [] }

await-Decodes : Decodes toy 2 await
unfolding toy_first known protocol_to_message
await-Decodes = record {
  first = λ rest. refl;
  in_range = omega arith;
  is_known = refl;
  fills = refl;
  no_batch = refl;
  not_empty = omega arith;
}

next_messages-last_example :
    ((next_messages toy chain_reader (wire (await ∷ await ∷ []))).1
      ≡ ok (pointers 2 (await ∷ await ∷ []), []))
    × (raw_of (next_messages toy chain_reader (wire (await ∷ await ∷ []))).0.store (shared 2 1)
        ≡ last_bytes 1 [] (await ∷ await ∷ []))
next_messages-last_example =
    next_messages-last toy chain_reader (await ∷ await ∷ []) 1 (await-Decodes, (await-Decodes, tt))
      refl

abbrev frame_bytes : List Encoded → Bytes
frame_bytes es = put_u32 7 ++ (put_u16 2 ++ (put_u16 (length (wire es)) ++ wire es))

read-frame_example : read toy (idle chain_reader) (frame_bytes (await ∷ await ∷ [])) ≡ record {
  reader = after chain_reader 2 (await ∷ await ∷ []);
  messages = shared 2 1 ∷ shared 2 1 ∷ [];
  verdict = ok tt;
}
read-frame_example =
    read-frame toy chain_reader 7 2 2 (await ∷ await ∷ []) (omega arith) (inl refl) (omega arith)
      (omega arith) (await-Decodes, (await-Decodes, tt))

abbrev block : Bytes
block = 0x82 ∷ 0x04 ∷ 9 ∷ []

block-IsBlock : IsBlock toy block
unfolding toy_block
block-IsBlock = record {
  starts = λ rest. refl;
  not_end = λ rest. refl;
  decodes = λ rest. refl;
  not_empty = omega arith;
}

half-IsPart : IsPart toy (0x82 ∷ 0x04 ∷ [])
unfolding toy_block
half-IsPart = part refl refl refl

next_blocks-part_example :
    next_blocks toy (concat (block ∷ block ∷ []) ++ (0x82 ∷ 0x04 ∷ [])) ≡ record {
      messages = new_block block ∷ new_block block ∷ [];
      remaining = 0x82 ∷ 0x04 ∷ [];
      verdict = ok tt;
    }
next_blocks-part_example =
    next_blocks-part toy (block ∷ block ∷ []) (0x82 ∷ 0x04 ∷ [])
      (block-IsBlock, (block-IsBlock, tt)) half-IsPart

-- What is left after eight bytes and then one more of a frame of ten bytes that came in parts.
abbrev split_reader : Reader
split_reader = record (new_reader no_objects) {
  partial_header = 0 ∷ 0 ∷ 0 ∷ 7 ∷ 0 ∷ 2 ∷ 0 ∷ 9 ∷ 1 ∷ [];
}

split_header :
    read_header (split_reader.partial_header ++ replicate 9 1)
    ≡ (record { timestamp = 0 ∷ 0 ∷ 0 ∷ 7 ∷ []; protocol = 2; byte_len = 9 }, ok tt)
unfolding read_header
split_header = refl

read-in_parts_example :
    ((read toy chain_reader (0 ∷ 0 ∷ 0 ∷ 7 ∷ 0 ∷ [])).verdict ≡ ok tt)
    × ((read toy
          (read toy chain_reader (0 ∷ 0 ∷ 0 ∷ 7 ∷ 0 ∷ [])).reader
          (2 ∷ 0 ∷ 9 ∷ 1 ∷ [])).verdict
        ≡ ok tt)
    × ((read toy
          (read toy
            (read toy chain_reader (0 ∷ 0 ∷ 0 ∷ 7 ∷ 0 ∷ [])).reader
            (2 ∷ 0 ∷ 9 ∷ 1 ∷ [])).reader
          (replicate 9 1)).verdict
        ≡ panic)
read-in_parts_example =
    read-in_parts toy chain_reader (0 ∷ 0 ∷ 0 ∷ 7 ∷ 0 ∷ []) (2 ∷ 0 ∷ 9 ∷ 1 ∷ []) (replicate 9 1)
      (record { timestamp = 0 ∷ 0 ∷ 0 ∷ 7 ∷ []; protocol = 2; byte_len = 9 }) refl refl
      (omega arith) (omega arith) (omega arith) (omega arith) (omega arith) (omega arith)
      split_header
