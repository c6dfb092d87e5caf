-- ===== src/Reader/Defs.antt =====
-- The state of a `MessageReader`, the objects its messages point to, and the CBOR decoder.
use cardano_go.Common.{Bool, Bytes, List, Option, [], false, if◌then◌else◌, true, ℕ, ◌&&◌, ◌==◌}
use cardano_go.Protocol.{Protocol, Subprotocol, ProtocolError}

-- `ProtocolToMessage` gives out pointers into one table, so every message with the same numbers is
-- one object. Blocks and the ends of batches are allocated where they are read.
pub data Message : Type 0 where
  shared : Protocol → Subprotocol → Message
  new_block : Bytes → Message
  new_batch_done : Message

-- What the objects of the table were last filled from (`SetRaw`).
abbrev pub Store : Type 0
Store = Protocol → Subprotocol → Bytes

abbrev pub store_set : Store → Protocol → Subprotocol → Bytes → Store
store_set st p s raw q t = if p == q && s == t then raw else st q t

-- The bytes that a message shows when it is looked at.
abbrev pub raw_of : Store → Message → Bytes
raw_of st (shared p s) = st p s
raw_of st (new_block b) = []
raw_of st new_batch_done = []

-- `msg.(*MessageStartBatch)`
abbrev pub is_start_batch : Message → Bool
is_start_batch (shared p s) = p == 3 && s == 2
is_start_batch _ = false

-- `msg.(*MessageBatchDone)`
abbrev pub is_batch_done : Message → Bool
is_batch_done (shared p s) = p == 3 && s == 5
is_batch_done (new_block b) = false
is_batch_done new_batch_done = true

pub record Reader : Type 0 where
  pub timestamp : Bytes
  pub protocol : ℕ
  pub seg_length : ℕ
  pub buffer : Bytes
  pub partial_header : Bytes
  pub batch_buffer : Bytes
  pub batching : Bool
  pub store : Store

-- `NewMessageReader`
abbrev pub new_reader : Store → Reader
new_reader st = record {
  timestamp = [];
  protocol = 0;
  seg_length = 0;
  buffer = [];
  partial_header = [];
  batch_buffer = [];
  batching = false;
  store = st;
}

-- `MessageReader.reset`
abbrev pub reset : Reader → Reader
reset r = record r { buffer = []; timestamp = []; protocol = 0; seg_length = 0 }

-- An element of a decoded CBOR array, as far as it is looked at.
pub data Item : Type 0 where
  uint : ℕ → Item
  other : Item

-- What `cbor.UnmarshalFirst` of a block gives: the bytes left over, "unexpected EOF", or another
-- error.
pub data BlockRead : Type 0 where
  read_left : Bytes → BlockRead
  unexpected_eof read_failed : BlockRead

-- The calls of the CBOR package.
pub record Cbor : Type 0 where
  -- `UnmarshalFirst` into a list: its elements and the bytes left over.
  pub unmarshal_first : Bytes → Option (List Item × Bytes)
  -- Whether `Unmarshal` into the message of these numbers succeeds.
  pub unmarshal : Protocol → Subprotocol → Bytes → Bool
  -- `UnmarshalFirst` into a `MessageBlock`.
  pub unmarshal_block : Bytes → BlockRead

pub data ReadError : Type 0 where
  short_header : ℕ → ReadError
  wrong_protocol : ℕ → ReadError
  bad_cbor empty_array not_uint bad_message no_block_start bad_block : ReadError
  protocol_error : ProtocolError → ReadError
  batch_left_over read_past_end : ReadError
  -- The fuel of the model ran out; the code has no such error.
  no_fuel : ReadError
