-- ===== src/Rpc/RouteLaws.antt =====
-- rpcclient/rpcclient.go against cmd/rpc/http.go: each call reaches its handler.
use cardano_go.Common.{
  All, All-imp, Bool, Bool-cases, Bytes, List, [], ap, arith, bytes_eq, codes, false, if◌then◌else◌,
  inl, inr, leb, ltb, map, refl, some, suc, true, zero, ℕ, ◌%◌, ◌&&◌, ◌++◌, ◌+◌, ◌/◌, ◌<◌, ◌==◌,
  ◌^◌, ◌||◌, ◌∙◌, ◌∷◌, ◌≡◌, ◌≢◌,
}
use cardano_go.Http.Errors.{fold_case}
use cardano_go.Http.Text.{show, is_digit, parse_uint, show_from}
use cardano_go.Http.Fees.{parse_uint-show}
use cardano_go.Rpc.Routes.{
  get, Handler, segments, get_height, dispatch, get_utxo_for_address, get_transaction,
  get_latest_block, get_block, post_transaction_broadcast, find_route, routes, get_status,
  post_transaction_build,
}
use cardano_go.Rpc.Client.{
  Call, transaction, utxos_for_address, request, block_by_hash, block_by_height, height,
  broadcast_tx, status, build_tx,
}

-- A letter, a digit or an underscore: what hashes, numbers and addresses consist of.
abbrev pub is_word_char : ℕ → Bool
is_word_char c = is_digit c || leb 65 c && leb c 90 || leb 97 c && leb c 122 || c == 95

-- A text of such characters, one at least.
abbrev pub IsWord : Bytes → Type 0
IsWord [] = ⊥
IsWord (c ∷ s) = (is_word_char c ≡ true) × All (λ (d : ℕ). is_word_char d ≡ true) s

-- The handler that a call is meant for.
abbrev pub handler_of : Call → Handler
handler_of height = get_height
handler_of (transaction h) = get_transaction h
handler_of (broadcast_tx t) = post_transaction_broadcast
handler_of (utxos_for_address a) = get_utxo_for_address a
handler_of status = get_status
handler_of (build_tx i) = post_transaction_build
handler_of (block_by_hash h) =
    if bytes_eq (map fold_case h) (codes "latest") then get_latest_block else get_block h
handler_of (block_by_height n) = get_block (show n)

abbrev pub IsSafe : Call → Type 0
IsSafe (transaction h) = IsWord h
IsSafe (utxos_for_address a) = IsWord a
IsSafe (block_by_hash h) = IsWord h
IsSafe (block_by_height n) = n < 2 ^ 64
IsSafe _ = Unit

segments-chars :
    (c : ℕ) (s : Bytes)
    → is_word_char c ≡ true
    → All (λ (d : ℕ). is_word_char d ≡ true) s
    → segments (c ∷ s) ≡ (c ∷ s) ∷ []
segments-chars c [] e h = ground (arith, e)
segments-chars c (d ∷ s) e h =
    let plain : (c == 47) ≡ false = ground (arith, e) in
    rw (segments, plain, segments-chars d s h.0 h.1) refl

segments-word : (s : Bytes) → IsWord s → segments s ≡ s ∷ []
segments-word [] h = absurd h
segments-word (c ∷ s) h = segments-chars c s h.0 h.1

-- A path of a word and a parameter.
dispatch-transaction :
    (h : Bytes) → IsWord h → dispatch get (codes "/tx/" ++ h) ≡ some (get_transaction h)
unfolding dispatch
dispatch-transaction [] i = absurd i
dispatch-transaction (c ∷ s) i =
    ap (λ (ss : List Bytes). find_route get ([] ∷ codes "tx" ∷ ss) routes) (segments-word (c ∷ s) i)

dispatch-utxo :
    (a : Bytes) → IsWord a → dispatch get (codes "/utxo/" ++ a) ≡ some (get_utxo_for_address a)
unfolding dispatch
dispatch-utxo [] i = absurd i
dispatch-utxo (c ∷ s) i =
    ap (λ (ss : List Bytes). find_route get ([] ∷ codes "utxo" ∷ ss) routes)
      (segments-word (c ∷ s) i)

dispatch-block :
    (h : Bytes)
    → IsWord h
    → dispatch get (codes "/block/" ++ h)
      ≡ some (if bytes_eq (map fold_case h) (codes "latest") then get_latest_block else get_block h)
unfolding dispatch
dispatch-block [] i = absurd i
dispatch-block (c ∷ s) i =
    ap (λ (ss : List Bytes). find_route get ([] ∷ codes "block" ∷ ss) routes)
      (segments-word (c ∷ s) i)
    ∙ elim (Bool-cases (bytes_eq (map fold_case (c ∷ s)) (codes "latest"))) [
      | inl e ↦ rw e refl
      | inr e ↦ rw e refl
    ]

show_from-digits :
    (f n : ℕ) (s : Bytes)
    → All (λ (c : ℕ). is_digit c ≡ true) s
    → All (λ (c : ℕ). is_digit c ≡ true) (show_from f n s)
unfolding show_from
show_from-digits zero n s h = h
show_from-digits (suc f) n s h = elim (Bool-cases (ltb n 10)) [
  | inl e ↦ rw e (ground (arith, e), h)
  | inr e ↦ rw e (show_from-digits f (n / 10) ((n % 10 + 48) ∷ s) (ground arith, h))
]

digits-IsWord : (s : Bytes) → All (λ (c : ℕ). is_digit c ≡ true) s → s ≢ [] → IsWord s
digits-IsWord [] h n = absurd (n refl)
digits-IsWord (c ∷ s) h n = (
  ground (arith, h.0),
  All-imp (λ (d : ℕ). is_digit d ≡ true) (λ (d : ℕ). is_word_char d ≡ true) s
      (λ d e. ground (arith, e)) h.1,
)

digits-latest :
    (s : Bytes)
    → All (λ (c : ℕ). is_digit c ≡ true) s
    → bytes_eq (map fold_case s) (codes "latest") ≡ false
unfolding bytes_eq
digits-latest [] h = refl
digits-latest (c ∷ s) h = ground (arith, h.0)

show-digits : (n : ℕ) → All (λ (c : ℕ). is_digit c ≡ true) (show n)
show-digits n = show_from-digits 20 n [] tt

show-ne-nil : (n : ℕ) → n < 2 ^ 64 → show n ≢ []
unfolding parse_uint
show-ne-nil n b e =
    let p : parse_uint (show n) ≡ some n = parse_uint-show n b in ground (arith, p, e)

-- Every call of the RPC client whose hash or address consists of letters, digits and underscores
-- reaches the handler that it is meant for, with its argument as it was given, and every height its
-- digits; a block asked for by the hash "latest", in any case, is the latest one.
pub dispatch-request :
    (c : Call) → IsSafe c → dispatch (request c).0 (request c).1 ≡ some (handler_of c)
unfolding dispatch request
dispatch-request height h = refl
dispatch-request (transaction t) h = dispatch-transaction t h
dispatch-request (broadcast_tx t) h = refl
dispatch-request (utxos_for_address a) h = dispatch-utxo a h
dispatch-request status h = refl
dispatch-request (build_tx i) h = refl
dispatch-request (block_by_hash t) h = dispatch-block t h
dispatch-request (block_by_height n) h =
    dispatch-block (show n) (digits-IsWord (show n) (show-digits n) (show-ne-nil n h))
    ∙ rw (digits-latest (show n) (show-digits n)) refl
