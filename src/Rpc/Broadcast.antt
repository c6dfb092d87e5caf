-- ===== src/Rpc/Broadcast.antt =====
-- What `BroadcastTx` of the RPC client (rpcclient/rpcclient.go) comes to at cardano-cli.
use cardano_go.Http.Text.{trim_space}
use cardano_go.Common.{
  Bool-cases, Bytes, List, arith, bytes_eq, false, inl, inr, not, ok, refl, sym, ◌||◌, ◌∙◌, ◌≡◌,
}
use cardano_go.Network.{NetworkParams}
use cardano_go.Http.Commands
use cardano_go.Http.Commands.{
  Command, Output, Answer, finish_broadcast, broadcast, sent, unmarshal_json, submit_command,
  submitted, broadcast_files, txid_command, run_cardano_binary,
}
use cardano_go.Http.CommandLaws.{broadcast-sent}
use cardano_go.Rpc.Client.{broadcast_tx}
use cardano_go.Rpc.Server.{Server, Body, perform, serve, req, of_answer, posted}
use cardano_go.Rpc.Answers.{perform-serve}

-- Only the answer with a hash has a status of success.
finish_broadcast-ok :
    (res hashed : Output × List Command) (b : Body)
    → req (of_answer (finish_broadcast res hashed).0) ≡ ok b
    → (h : Bytes) × ((finish_broadcast res hashed).0.body ≡ sent h) × (b ≡ posted (sent h))
unfolding finish_broadcast req
finish_broadcast-ok res hashed b e =
    elim (Bool-cases (res.0.1 || not (bytes_eq (trim_space res.0.0) submitted))) [
      | inl f ↦ absurd (ground (arith, e, f))
      | inr f ↦ elim (Bool-cases hashed.0.1) [
        | inl g ↦ absurd (ground (arith, e, f, g))
        | inr g ↦ (trim_space hashed.0.0, rw (f, g) refl, ground (arith, e, f, g))
      ]
    ]

-- `BroadcastTx` succeeds only with a hash, and only where cardano-cli submitted the transaction that
-- it was called with: the submission did not fail and said that it succeeded, and the hash is what
-- cardano-cli gives for the same file.
pub broadcast_tx-ok :
    (s : Server) (tx : Bytes) (b : Body)
    → perform s (broadcast_tx tx) ≡ ok b
    → (h : Bytes) × (p : NetworkParams) × (b ≡ posted (sent h))
      × ((s.cli p (submit_command, broadcast_files tx)).1 ≡ false)
      × (trim_space (s.cli p (submit_command, broadcast_files tx)).0 ≡ submitted)
      × (h ≡ trim_space (s.cli p (txid_command, broadcast_files tx)).0)
unfolding serve Commands.post_transaction_broadcast unmarshal_json broadcast
broadcast_tx-ok s tx b e =
    let (h, sent_h, same) =
      finish_broadcast-ok (run_cardano_binary s.network s.cli (submit_command, broadcast_files tx))
        (run_cardano_binary s.network s.cli (txid_command, broadcast_files tx)) b
        (sym (perform-serve s (broadcast_tx tx) tt) ∙ e) in
    let (p, _, ran, said, hash) = broadcast-sent s.network s.cli tx h sent_h in
    (h, p, same, ran, said, hash)
