-- ===== src/Http/CommandLaws.antt =====
-- cmd/rpc/http.go: what the handlers that run cardano-cli do.
use cardano_go.Common.{
  Bool-cases, Bytes, List, [], ap, arith, bytes_eq, eq_of_bytes_eq, false, inl, inr, refl, sym,
  true, ◌++◌, ◌∙◌, ◌∷◌, ◌≡◌, ◌⊎◌,
}
use cardano_go.Network.{Network, NetworkParams, params_total}
use cardano_go.Http.Text.{trim_space}
use cardano_go.Http.Commands.{
  Command, Output, Request, sent, txid_command, submit_command, submitted, run_cardano_binary,
  post_transaction_broadcast, unmarshal_json, broadcast, broadcast_files, finish_broadcast,
}

clash_bool : ¬ (false ≡ true)
clash_bool e = cc

finish_broadcast-sent :
    (res hashed : Output × List Command) (h : Bytes)
    → (finish_broadcast res hashed).0.body ≡ sent h
    → (res.0.1 ≡ false)
      × (trim_space res.0.0 ≡ submitted)
      × (hashed.0.1 ≡ false)
      × (h ≡ trim_space hashed.0.0)
      × ((finish_broadcast res hashed).1 ≡ res.1 ++ hashed.1)
unfolding finish_broadcast
finish_broadcast-sent res hashed h e = elim (Bool-cases res.0.1) [
  | inl f ↦ absurd (ground (arith, e, f))
  | inr f ↦ elim (Bool-cases (bytes_eq (trim_space res.0.0) submitted)) [
    | inr g ↦ absurd (ground (arith, e, f, g))
    | inl g ↦ elim (Bool-cases hashed.0.1) [
      | inl k ↦ absurd (ground (arith, e, f, g, k))
      | inr k ↦ (
        f,
        eq_of_bytes_eq (trim_space res.0.0) submitted g,
        k,
        ground (arith, e, f, g, k),
        ground (arith, f, g, k),
      )
    ]
  ]
]

module _ (network : Network) (cli : NetworkParams → Command → Output) where
  run_cardano_binary-cases :
      ((p : NetworkParams) × ((c : Command) → run_cardano_binary network cli c ≡ (cli p c, c ∷ [])))
      ⊎ ((c : Command) → run_cardano_binary network cli c ≡ (([], true), []))
  unfolding run_cardano_binary
  run_cardano_binary-cases = elim (params_total network) [
    | inl (v, (p, e, n)) ↦ inl (p, λ c. rw (run_cardano_binary, e) refl)
    | inr (v, e) ↦ inr (λ c. rw (run_cardano_binary, e) refl)
  ]

  -- A broadcast is answered with a hash only where cardano-cli was run twice, on one file with the
  -- transaction: the submission, which did not fail and said that it succeeded, and then the
  -- command that gives the hash.
  pub broadcast-sent :
      (tx h : Bytes)
      → (broadcast network cli tx).0.body ≡ sent h
      → (p : NetworkParams) × ((broadcast network cli tx).1
          ≡ (submit_command, broadcast_files tx) ∷ (txid_command, broadcast_files tx) ∷ [])
        × ((cli p (submit_command, broadcast_files tx)).1 ≡ false)
        × (trim_space (cli p (submit_command, broadcast_files tx)).0 ≡ submitted)
        × (h ≡ trim_space (cli p (txid_command, broadcast_files tx)).0)
  unfolding broadcast
  broadcast-sent tx h e =
      let first : Command = (submit_command, broadcast_files tx) in
      let second : Command = (txid_command, broadcast_files tx) in
      let (ran, said, hashed, same, log) =
        finish_broadcast-sent (run_cardano_binary network cli first)
          (run_cardano_binary network cli second) h e in
      elim run_cardano_binary-cases [
        | inr none_run ↦
            absurd
              (clash_bool (sym ran ∙ ap (λ (o : Output × List Command). o.0.1) (none_run first)))
        | inl (p, run) ↦ (
          p,
          log
              ∙ ap (λ (l : List Command). l ++ (run_cardano_binary network cli second).1)
                  (ap (λ (o : Output × List Command). o.1) (run first))
              ∙ ap (λ (l : List Command). first ∷ l)
                  (ap (λ (o : Output × List Command). o.1) (run second)),
          sym (ap (λ (o : Output × List Command). o.0.1) (run first)) ∙ ran,
          sym (ap (λ (o : Output × List Command). trim_space o.0.0) (run first)) ∙ said,
          same ∙ ap (λ (o : Output × List Command). trim_space o.0.0) (run second),
        )
      ]

  -- The test of the content type does not stop a broadcast: a body of any other type is answered,
  -- and cardano-cli is run, as for a request to broadcast the empty transaction.
  post_transaction_broadcast-any_type :
      (r : Request Bytes)
      → r.is_json ≡ false
      → post_transaction_broadcast network cli r ≡ broadcast network cli []
  unfolding post_transaction_broadcast unmarshal_json
  post_transaction_broadcast-any_type r e = rw (e) refl
