-- ===== src/Rpc/Routes.antt =====
-- cmd/rpc/http.go: the routes of `HttpRpcServer.Start`, and how fiber finds the one of a path: by
-- its segments, in the order of the routes, without heed to the case of the words.
use Prim.Native.String.{String}
use cardano_go.Common.{
  Bool, Bytes, List, Option, [], bytes_eq, codes, false, if◌then◌else◌, map, none, some, true, ℕ,
  ◌==◌, ◌∷◌,
}
use cardano_go.Http.Errors.{fold_case}

pub data Method : Type 0 where
  get post : Method

-- The handlers; those of a path with a parameter have it.
pub data Handler : Type 0 where
  get_utxo_for_address : Bytes → Handler
  get_latest_block : Handler
  get_block : Bytes → Handler
  get_transaction : Bytes → Handler
  get_transaction_block : Bytes → Handler
  post_transaction_build post_transaction_sign post_transaction_broadcast : Handler
  post_transaction_estimate_fee get_status get_height post_pubkey_to_address : Handler

-- A part of a route's path: a word, or a parameter.
pub data Part : Type 0 where
  word : Bytes → Part
  parameter : Part

pub record Route : Type 0 where
  pub method : Method
  pub parts : List Part
  -- The handler of the parameter's text.
  pub handler : Bytes → Handler

abbrev slash : ℕ
slash = 47

abbrev onto_first : ℕ → List Bytes → List Bytes
onto_first c [] = (c ∷ []) ∷ []
onto_first c (s ∷ ss) = (c ∷ s) ∷ ss

-- The segments of a path.
abbrev pub segments : Bytes → List Bytes
segments [] = [] ∷ []
segments (c ∷ s) =
    let rest : List Bytes = segments s in if c == slash then [] ∷ rest else onto_first c rest

abbrev pub same_method : Method → Method → Bool
same_method get get = true
same_method post post = true
same_method _ _ = false

-- The parameter of a path that fits, which no segment without a byte does; `[]` where the route has
-- no parameter.
abbrev pub match_parts : Bytes → List Part → List Bytes → Option Bytes
match_parts found [] [] = some found
match_parts found (word w ∷ ps) (s ∷ ss) =
    let rest : Option Bytes = match_parts found ps ss in
    if bytes_eq (map fold_case s) w then rest else none
match_parts found (parameter ∷ ps) ((c ∷ s) ∷ ss) = match_parts (c ∷ s) ps ss
match_parts _ _ _ = none

abbrev at : Method → List Part → (Bytes → Handler) → Route
at m ps h = record { method = m; parts = word [] ∷ ps; handler = h }

abbrev w : String → Part
w s = word (codes s)

-- `HttpRpcServer.Start`
abbrev pub routes : List Route
routes =
    at get (w "utxo" ∷ parameter ∷ []) get_utxo_for_address
    ∷ at get (w "block" ∷ w "latest" ∷ []) (λ p. get_latest_block)
    ∷ at get (w "block" ∷ parameter ∷ []) get_block
    ∷ at get (w "tx" ∷ parameter ∷ []) get_transaction
    ∷ at get (w "tx" ∷ parameter ∷ w "block" ∷ []) get_transaction_block
    ∷ at post (w "tx" ∷ w "build" ∷ []) (λ p. post_transaction_build)
    ∷ at post (w "tx" ∷ w "sign" ∷ []) (λ p. post_transaction_sign)
    ∷ at post (w "tx" ∷ w "broadcast" ∷ []) (λ p. post_transaction_broadcast)
    ∷ at post (w "tx" ∷ w "estimate-fee" ∷ []) (λ p. post_transaction_estimate_fee)
    ∷ at get (w "status" ∷ []) (λ p. get_status)
    ∷ at get (w "height" ∷ []) (λ p. get_height)
    ∷ at post (w "tools" ∷ w "pubkey-to-address" ∷ []) (λ p. post_pubkey_to_address)
    ∷ []

-- The handler of a request's path without its query; `none` is fiber's own answer, 404.
abbrev pub find_route : Method → List Bytes → List Route → Option Handler
find_route m ss [] = none
find_route m ss (r ∷ rs) =
    let rest : Option Handler = find_route m ss rs in
    if same_method m r.method
    then elim (match_parts [] r.parts ss) [ some p ↦ some (r.handler p) | none ↦ rest ]
    else rest

unfoldable pub dispatch : Method → Bytes → Option Handler
unfolding bytes_eq
dispatch m path = find_route m (segments path) routes
