-- ===== src/Client/Options.antt =====
-- client.go: what `NewClient` makes of its options.
use cardano_go.Common.{
  Bytes, Option, Option-cases, [], arith, bytes_eq, inl, inr, none, ok, refl, some, ℕ, ◌∙◌, ◌∷◌,
  ◌≡◌, ◌≢◌,
}
use cardano_go.Network.{NetworkParams, params_total}
use cardano_go.Client.Defs.{
  ClientOptions, NewClient, ℤ, pos, negsuc, set_defaults, new_client, zero_options, or_default,
  default_client_options, or_window, create,
}

abbrev base : Option ClientOptions → ClientOptions
base none = zero_options
base (some o) = o

new_client-base :
    (given : Option ClientOptions) → create (set_defaults (base given)) ≡ new_client given
unfolding new_client
new_client-base none = refl
new_client-base (some o) = refl

or_default-some : (s d : Bytes) → d ≢ [] → or_default s d ≢ []
unfolding bytes_eq
or_default-some [] d h = h
or_default-some (x ∷ s) d h = λ e. cc

ports :
    (o : ClientOptions)
    → ((set_defaults o).ntn_host_port ≢ []) × ((set_defaults o).ntc_host_port ≢ [])
unfolding set_defaults
ports o = (
  or_default-some o.ntn_host_port default_client_options.ntn_host_port (λ e. cc),
  or_default-some o.ntc_host_port default_client_options.ntc_host_port (λ e. cc),
)

or_window-pos : (w : ℤ) → (n : ℕ) × (or_window w ≡ pos n)
or_window-pos (pos n) = (n, refl)
or_window-pos (negsuc n) = (6, refl)

create-ok :
    (o : ClientOptions) (c : NewClient)
    → create o ≡ ok c
    → (c.options ≡ o) × ((p : NetworkParams) × (c.params ≡ some p) × (p.name ≡ o.network))
unfolding create
create-ok o c e = elim (Option-cases o.database) [
  | inl d ↦ absurd (ground (arith, d, e))
  | inr (db, d) ↦ elim (params_total o.network) [
    | inl (v, (p, f, n)) ↦ (ground (arith, d, e, f), (p, ground (arith, d, e, f), n))
    | inr (v, f) ↦ absurd (ground (arith, d, e, f))
  ]
]

-- Where `NewClient` succeeds, the client has parameters, those of its network; both of its
-- addresses are not empty, and its reorganisation window is not negative, whatever the options
-- were.
new_client-ok :
    (given : Option ClientOptions) (c : NewClient)
    → new_client given ≡ ok c
    → ((p : NetworkParams) × (c.params ≡ some p) × (p.name ≡ c.options.network))
      × (c.options.ntn_host_port ≢ [])
      × (c.options.ntc_host_port ≢ [])
      × ((n : ℕ) × (c.options.reorg_window ≡ pos n))
unfolding set_defaults
new_client-ok given c e =
    let o : ClientOptions = base given in
    let (same, (p, f, n)) = create-ok (set_defaults o) c (new_client-base given ∙ e) in
    rw (same) ((p, f, n), (ports o).0, (ports o).1, or_window-pos o.reorg_window)
