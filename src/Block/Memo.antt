-- ===== src/Block/Memo.antt =====
-- block.go: `AuxData.MarshalJSON`; cmd/rpc/http.go: the memo that `txResponse` reads out of it. A
-- value stands for the JSON that `json.Marshal` makes of it and that gjson reads.
use cardano_go.Block.Points.{list}
use cardano_go.Common.{
  Bytes, List, Option, [], bytes_eq, codes, false, if◌then◌else◌, none, some, suc, true, zero, ℕ,
  ◌++◌, ◌∷◌,
}
use cardano_go.Http.Text.{show, parse_uint}
use cardano_go.Block.AuxValue.{
  Scalar, uint, Kept, Kepts, negative, plain, cons, nil, Pairs, list, Decoded, boolean, pair, slice,
  text, end, byte_key,
}
use cardano_go.Block.AuxData.{AuxData, as_tag, raw, unmarshal_cbor, kept, unset}
use cardano_go.Util.Chunks.{join}

-- `fmt.Sprint` of a key, and gjson's `String` of a value.
abbrev pub sprint : Scalar → Bytes
sprint (uint n) = show n
sprint (negative n) = codes "-" ++ show (suc n)
sprint (boolean true) = codes "true"
sprint (boolean false) = codes "false"
sprint (text s) = s
sprint (byte_key s) = s

-- `AuxData.MarshalJSON`: of a tag, its content; `none` is a value without fields.
unfoldable pub marshal_json : AuxData → Option Kept
marshal_json unset = none
marshal_json (raw b) = none
marshal_json (kept v) = elim (as_tag v) [ some (n, c) ↦ some c | none ↦ some v ]

-- The map that `KVSlice.MarshalJSON` fills: of the values of a name, the last one counts.
abbrev pub last_value : Bytes → Option Kept → Pairs → Option Kept
last_value name found end = found
last_value name found (pair k v ps) =
    last_value name (if bytes_eq (sprint k) name then some v else found) ps

abbrev pub nth_value : ℕ → Kepts → Option Kept
nth_value n nil = none
nth_value zero (cons v vs) = some v
nth_value (suc n) (cons v vs) = nth_value n vs

-- A step of a path of gjson: a name in an object, a number in an array.
abbrev pub get_step : Bytes → Option Kept → Option Kept
get_step name none = none
get_step name (some (plain s)) = none
get_step name (some (list vs)) = elim (parse_uint name) [ some n ↦ nth_value n vs | none ↦ none ]
get_step name (some (slice ps)) = last_value name none ps

-- `Array` of gjson: nothing and null are empty, another value is an array of one.
abbrev pub array_of : Option Kept → Kepts
array_of none = nil
array_of (some (plain s)) = cons (plain s) nil
array_of (some (list vs)) = vs
array_of (some (slice ps)) = cons (slice ps) nil

-- gjson's text of an array or an object is an argument.
module _ (raw_json : Kept → Bytes) where
  abbrev pub string_of : Kept → Bytes
  string_of (plain s) = sprint s
  string_of v = raw_json v

  abbrev pub strings_of : Kepts → List Bytes
  strings_of nil = []
  strings_of (cons v vs) = string_of v ∷ strings_of vs

  -- The loop over `0.0.6676.memo`.
  unfoldable pub memo_of : AuxData → Bytes
  unfolding marshal_json
  memo_of a = join (
      strings_of (
        array_of (
          get_step (codes "memo") (
            get_step (codes "6676")
              (get_step (codes "0") (get_step (codes "0") (marshal_json a)))))))

  -- `memo` of `txResponse`, on the decoded metadata of a transaction.
  unfoldable pub tx_memo : Option (Option Decoded) → Bytes
  unfolding memo_of unmarshal_cbor
  tx_memo none = []
  tx_memo (some metadata) = elim (unmarshal_cbor metadata) [ none ↦ [] | some a ↦ memo_of a ]
