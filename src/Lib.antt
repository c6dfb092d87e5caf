-- ===== src/Lib.antt =====
-- A model of cardano-go: a client of Cardano nodes that reads their wire protocol, follows the
-- chain, and keeps points and transactions in a database.
--
-- Bytes go in through `MessageReader` (message.go), which cuts them into segments and these into
-- messages; the tables of protocol.go tell which numbers stand for which message, and segment.go
-- writes segments. The client stores the points of the chain through `Database` (db.go,
-- db_sqlite.go); `BlockProcessor` (block_processor.go) takes the points that have no height yet,
-- fetches their blocks, checks the chain, and writes heights and transactions back. The client
-- (client.go) collects the points that chain sync announces, stores them in batches, starts the
-- processor, rolls back, and answers queries; the HTTP server (cmd/rpc/http.go) answers requests
-- from the client, the database and cardano-cli, and the RPC client (rpcclient) reads its answers.
-- address.go and network.go encode and decode addresses. The files and the modules:
--
--   network.go                       Network
--   era.go                           Era
--   address.go                       Address: Types and Bits (the table and the bits of a header),
--                                    Header, Codec (encoding, decoding and text), and the laws
--   protocol.go                      Protocol, and Protocol.Optional
--   protocol_handshake.go            Protocol.Handshake
--   segment.go                       Segment, with the byte order in Segment.Wire, and
--                                    Segment.Messages
--   message.go                       Reader: Defs (the state), Header, Messages, Blocks, Loop (Read)
--   db.go, db_sqlite.go              Db: Tables, Updates and Queries; View has what the interface of
--                                    db.go promises of the points, Refinement that it is kept
--   block_processor.go               Processor: Defs (the goroutine over the blocks) and Rounds
--   client.go                        Client: Defs (options, start), Sync (the handlers and the steps
--                                    of a started client), Queries, and the laws
--   error.go, cmd/rpc/http.go,       Http: Errors (also the end of the RPC client's `req`), Blocks,
--   rpcclient/rpcclient.go           Commands, Estimate, Sign and Status (the handlers), Text
--                                    (numbers and the pattern of the fee), and the laws
--   cmd/rpc/http.go, rpcclient       Rpc: Routes, Client (the requests), Server (a call from the
--                                    client to its result), and the laws
--   cmd/rpc/main.go                  Rpc.Start: the flags, the start and the end of the program
--   block.go, protocol.go            Block: Header, Outputs, Points, KvSlice; AuxValue and AuxData
--                                    (auxiliary data and its CBOR), AuxSpec (what that CBOR is to
--                                    be), Memo (the memo in a response)
--   util.go                          Util: Search, Chunks, Indent, Tags, Periodic with Ticks, and
--                                    Directory
--   cmd/rpc/cmd.go                   FdPool: Defs (the pool), Files (the files and the arguments of a command)
--   cmd/addr_build, cmd/addr_decode, Tools: Defs (the commands) and Trim
--   cmd/addr_gen
--
-- A function of the source has the same name here in snake case, and takes the state that its
-- receiver holds and gives back the state after the call. An error is `err`, a run-time panic is
-- `panic`. Bytes and strings are lists of numbers; integers are natural numbers, with the
-- wrap-around of their width written out where the source computes. Slots and heights that reach
-- the database are below 2^63, which its driver demands.
--
-- Third-party code is an argument: the bech32 and blake2b packages (`Bech32`, with `IsFaithful` for
-- what they document), the CBOR decoder (`Cbor`, with `CborLaws`), the block-fetch client
-- (`fetch`), the node behind the connections (`dial`, `opens`, `get_block`, `get_utxos`), cardano-cli
-- (`cli`), gjson, flags and log levels
-- (`parse_level`), the file system (`Visit`, `read`) with `sort.Slice` (`Sorts`), and the CBOR form of
-- messages (`marshal`). A third-party block or transaction is a
-- record of what is asked of it. The order in which Go visits
-- `AddressTypeMap` and the map of a `KVSlice` is an argument as well. The statements of
-- db_sqlite.go are written out as operations on lists of rows; where a statement asks for no
-- order, the order of the list stands for the engine's. A
-- transaction that `AddTxsForBlock` leaves open keeps SQLite's write lock (`left_open`), and makes
-- every later call that writes fail; how many parameters a statement takes is an argument. Other
-- failures of the engine are left out.
--
-- The loops of `Read`, `nextMessages` and `nextBlocks` run on fuel that the length of their input
-- gives, and `Read` is shown to need no more. The loop of `processBlocks` has no bound in the code;
-- its fuel is an argument, and the properties are about a round. The chunks of `AddTxsForBlock` and
-- of `ChunkString` run on the number of their elements.
--
-- A started client takes steps: a roll forward, a roll backward, and the rounds of the goroutine
-- that `TryProcessBlocks` starts, which holds `processingMutex` from the first round to the last. A
-- round is one step, though `onRollForwards` may store points while it runs.
--
-- Not modelled: the network connections and what runs over them, the events of the HTTP server, the
-- records of transactions and of the messages with their CBOR tags, JSON and text forms but those of
-- auxiliary data, logs, locks beyond the order that they impose, and vendor.
mod Common
pub mod Network
pub mod Era
pub mod Address
pub mod Protocol
pub mod Segment
pub mod Db
pub mod Reader
pub mod Processor
pub mod Util
pub mod Tools
pub mod FdPool
pub mod Client
pub mod Http
pub mod Block
pub mod Rpc
mod BasicTests
