-- ===== src/Processor/Defs.antt =====
-- The goroutine of `processBlocks` that takes the blocks from the channel.
use cardano_go.Common.{
  Bool, Bytes, List, Result, [], bytes_eq, err, if◌then◌else◌, ltb, map, not, ok, ℕ, ◌%◌, ◌++◌, ◌+◌,
  ◌==◌, ◌^◌, ◌||◌, ◌∷◌,
}
use cardano_go.Db.Tables.{PointRef, TxRef}

-- What is asked of a `ledger.Block`.
pub record Block : Type 0 where
  pub kind : ℕ
  pub hash : Bytes
  pub prev_hash : Bytes
  pub slot : ℕ
  pub txs : List Bytes

pub data ProcessError : Type 0 where
  broken : Bytes → Bytes → Bytes → ProcessError
  fetch_failed no_boundary no_heights no_txs rollback_failed no_highest : ProcessError
  -- The fuel of the model ran out; the code has no such error.
  no_fuel : ProcessError

-- The variables that the goroutine changes.
pub record Progress : Type 0 where
  pub height : ℕ
  pub prev_hash : Bytes
  pub prev_boundary : Bytes
  pub point_refs : List PointRef
  pub tx_refs : List TxRef
  pub max_point : PointRef

abbrev pub zero_point : PointRef
zero_point = record { slot = 0; hash = []; kind = 0; height = 0 }

-- `height++` on uint64.
abbrev pub next_height : ℕ → ℕ
next_height h = (h + 1) % 2 ^ 64

abbrev pub is_boundary : Block → Bool
is_boundary b = b.kind == 0

abbrev pub point_of : ℕ → Block → PointRef
point_of h b = record { slot = b.slot; hash = b.hash; kind = b.kind; height = h }

abbrev pub refs_of : ℕ → Block → List TxRef
refs_of h b = map (λ (x : Bytes). record { hash = x; block_height = h }) b.txs

-- The check that the chain is whole: it spares boundary blocks and the start of the chain.
abbrev pub is_linked : Progress → Block → Bool
is_linked p b =
    not (ltb 0 p.height)
    || is_boundary b
    || bytes_eq b.prev_hash p.prev_hash
    || bytes_eq b.prev_hash p.prev_boundary

-- The block's transactions and point are noted, and the height moves on.
unfoldable pub take_block : Progress → Block → Progress
take_block p b =
    let noted : Progress = record p {
      point_refs = p.point_refs ++ point_of p.height b ∷ [];
      tx_refs = p.tx_refs ++ refs_of p.height b;
      max_point = point_of p.height b;
    } in
    if is_boundary b
    then if p.height == 0
      then record noted { height = next_height p.height; prev_boundary = b.hash }
      else record noted { prev_boundary = b.hash }
    else record noted { height = next_height p.height; prev_hash = b.hash }

-- The loop over the channel.
unfoldable pub consume : List Block → Progress → Result ProcessError Progress
unfolding take_block
consume [] p = ok p
consume (b ∷ bs) p =
    let rest : Result ProcessError Progress = consume bs (take_block p b) in
    if is_linked p b then rest else err (broken p.prev_hash p.prev_boundary b.prev_hash)
