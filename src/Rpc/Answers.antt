-- ===== src/Rpc/Answers.antt =====
-- What the calls of the RPC client (rpcclient/rpcclient.go) give back, from the database, the node
-- and cardano-cli behind the server (cmd/rpc/http.go).
use cardano_go.Block.AuxValue.{Kept}
use cardano_go.Db.Queries.{get_point_by_height, get_block_num_for_tx}
use mathlib.Core.List.{Memᴰ}
use cardano_go.Common.{
  Bool-cases, Bytes, List, Result, [], ap, arith, bind-ok, bytes_eq, eq_of_bytes_eq, err, false,
  inl, inr, ok, panic, refl, sym, ℕ, ◌<◌, ◌>>=◌, ◌^◌, ◌↔◌, ◌∙◌, ◌∷◌, ◌≡◌,
}
use cardano_go.Db.Tables
use cardano_go.Db.Tables.{PointRef, Tables}
use cardano_go.Client.Queries
use cardano_go.Client.Queries.{
  QueryError, LedgerBlock, LedgerTx, of_db, db_error, node_error, get_block_by_height,
}
use cardano_go.Client.QueryLaws.{of_db-ok}
use cardano_go.Http.Errors.{ApiError, Reply, of_query, error_response, is_success}
use cardano_go.Http.Blocks
use cardano_go.Http.Blocks.{
  Found, reply_with, get_block_by_number, first_tx, tx_response, block_response,
}
use cardano_go.Http.BlockLaws.{get_block_at-show}
use cardano_go.Rpc.Client.{Call, block_by_height, payload, transaction}
use cardano_go.Rpc.Server.{Server, Body, perform, serve, req, of_found, found}
use cardano_go.Rpc.RouteLaws.{IsWord, IsSafe, dispatch-request, handler_of}

pub perform-serve :
    (s : Server) (c : Call) → IsSafe c → perform s c ≡ req (serve s (handler_of c) (payload c))
unfolding perform
perform-serve s c h = rw (perform, dispatch-request c h) refl

module _ (describe : ApiError → Bytes × Bytes) where
  -- No error is answered with a status of success.
  of_query-fails :
      (q : QueryError) → is_success (error_response describe (of_query q)).status ≡ false
  unfolding error_response
  of_query-fails Queries.point_not_found = refl
  of_query-fails Queries.tx_not_found = refl
  of_query-fails (node_error e) = refl
  of_query-fails (db_error Tables.constraint) = refl
  of_query-fails (db_error Tables.no_rows) = refl
  of_query-fails (db_error Tables.bad_scan) = refl
  of_query-fails (db_error Tables.point_not_found) = refl
  of_query-fails (db_error Tables.block_not_found) = refl
  of_query-fails (db_error Tables.tx_not_found) = refl
  of_query-fails (db_error Tables.busy) = refl
  of_query-fails (db_error Tables.too_many_parameters) = refl
  of_query-fails (db_error Tables.no_points) = refl

  -- A call that succeeds, through `reply_with`.
  reply_with-ok :
      {A : Type 0} (r : Result QueryError A) (f : A → Reply Found) (b : Body)
      → req (of_found (reply_with describe r f)) ≡ ok b
      → (a : A) × (r ≡ ok a) × (req (of_found (f a)) ≡ ok b)
  unfolding req
  reply_with-ok (ok a) f b e = (a, refl, e)
  reply_with-ok (err q) f b e = absurd (ground (arith, of_query-fails q, e))
  reply_with-ok panic f b e = cc

  first_tx-ok :
      (raw_json : Kept → Bytes) (get_block : PointRef → Result QueryError LedgerBlock) (t : Tables)
      (h : Bytes) (xs : List LedgerTx) (b : Body)
      → req (of_found (first_tx describe raw_json get_block t h xs)) ≡ ok b
      → (x : LedgerTx) × Memᴰ x xs × (x.hash ≡ h) × (b ≡ found (Blocks.tx (tx_response raw_json x)))
  unfolding req first_tx error_response
  first_tx-ok raw_json get_block t h [] b e = cc
  first_tx-ok raw_json get_block t h (x ∷ xs) b e = elim (Bool-cases (bytes_eq x.hash h)) [
    | inl f ↦ (x, Memᴰ.head refl, eq_of_bytes_eq x.hash h f, ground (arith, e, f))
    | inr f ↦
        let (y, m, k, g) = first_tx-ok raw_json get_block t h xs b (ground (arith, e, f)) in
        (y, Memᴰ.tail m, k, g)
  ]

module _ (s : Server) where
  -- `GetBlockByHeight` succeeds exactly where the database has a point of that height and the node
  -- gives its block, and then with that block as the server puts it, for every height below 2^64.
  pub block_by_height-ok :
      (n : ℕ) (b : Body)
      → n < 2 ^ 64
      → (perform s (block_by_height n) ≡ ok b) ↔ (
          (p : PointRef) × (lb : LedgerBlock) × (get_point_by_height s.tables n ≡ ok p)
          × (s.get_block p ≡ ok lb)
          × (b ≡ found (Blocks.block (block_response s.raw_json lb p))))
  unfolding serve get_block_by_number req
  block_by_height-ok n b small = (there, back)
    where
      answered :
          perform s (block_by_height n)
          ≡ req (of_found (get_block_by_number s.describe s.raw_json s.get_block s.tables n))
      answered =
          perform-serve s (block_by_height n) small
          ∙ ap (λ (r : Reply Found). req (of_found r))
              (get_block_at-show s.describe s.raw_json s.get_block s.tables n small)

      there :
          perform s (block_by_height n) ≡ ok b
          → (p : PointRef) × (lb : LedgerBlock) × (get_point_by_height s.tables n ≡ ok p)
            × (s.get_block p ≡ ok lb)
            × (b ≡ found (Blocks.block (block_response s.raw_json lb p)))
      there e =
          let (p, f, g) =
            reply_with-ok s.describe (of_db (get_point_by_height s.tables n)) _ b
              (sym answered ∙ e) in
          let (lb, k, l) = reply_with-ok s.describe (s.get_block p) _ b g in
          (p, lb, of_db-ok (get_point_by_height s.tables n) p f, k, ground (arith, l))

      back :
          (p : PointRef) × (lb : LedgerBlock) × (get_point_by_height s.tables n ≡ ok p)
            × (s.get_block p ≡ ok lb)
            × (b ≡ found (Blocks.block (block_response s.raw_json lb p)))
          → perform s (block_by_height n) ≡ ok b
      back (p, lb, f, g, same) = answered ∙ rw (f, g, same) refl

  -- `GetTransaction` succeeds only with a transaction of the hash that was asked for, as the server
  -- puts it, out of the block that the node gives for the point at the height that the database has
  -- for that hash; this is for a hash of letters, digits and underscores.
  pub transaction-ok :
      (h : Bytes) (b : Body)
      → IsWord h
      → perform s (transaction h) ≡ ok b
      → (x : LedgerTx) × (lb : LedgerBlock) × (n : ℕ) × (p : PointRef) × (b
          ≡ found (Blocks.tx (tx_response s.raw_json x)))
        × (x.hash ≡ h)
        × Memᴰ x lb.transactions
        × (get_block_num_for_tx s.tables h ≡ ok n)
        × (get_point_by_height s.tables n ≡ ok p)
        × (s.get_block p ≡ ok lb)
  unfolding serve Blocks.get_transaction get_block_by_height
  transaction-ok h b safe e =
      let (lb, f, g) =
        reply_with-ok s.describe
          (of_db (get_block_num_for_tx s.tables h) >>= get_block_by_height s.get_block s.tables) _ b
          (sym (perform-serve s (transaction h) safe) ∙ e) in
      let (n, f1, g1) =
        bind-ok (of_db (get_block_num_for_tx s.tables h)) (get_block_by_height s.get_block s.tables)
          lb f in
      let (p, f2, g2) = bind-ok (of_db (get_point_by_height s.tables n)) s.get_block lb g1 in
      let (x, m, k, same) =
        first_tx-ok s.describe s.raw_json s.get_block s.tables h lb.transactions b g in
      (
        x,
        lb,
        n,
        p,
        same,
        k,
        m,
        of_db-ok (get_block_num_for_tx s.tables h) n f1,
        of_db-ok (get_point_by_height s.tables n) p f2,
        g2,
      )
