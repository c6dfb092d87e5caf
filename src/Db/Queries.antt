-- ===== src/Db/Queries.antt =====
-- The operations of db_sqlite.go that only read the tables.
use Prim.Native.Nat.{max}
use cardano_go.Common.{
  Bool, Bytes, List, Option, Result, [], any, bytes_eq, err, false, filterb, find, if◌then◌else◌,
  leb, length, ltb, map, none, not, ok, some, take, true, ℕ, ◌&&◌, ◌==◌, ◌∷◌,
}
use cardano_go.Db.Tables.{
  too_many_parameters, PointRef, TxRef, PointRow, Tables, DbError, no_rows, point_not_found,
  block_not_found, tx_not_found, no_points, scan_point, scan_height,
}

abbrev pub is_unset : PointRow → Bool
is_unset r = elim r.height [ some h ↦ false | none ↦ true ]

abbrev pub has_height : ℕ → PointRow → Bool
has_height n r = elim r.height [ some h ↦ h == n | none ↦ false ]

-- `ORDER BY slot ASC`
unfoldable pub insert_by_slot : PointRow → List PointRow → List PointRow
insert_by_slot r [] = r ∷ []
insert_by_slot r (x ∷ xs) =
    let rest : List PointRow = insert_by_slot r xs in
    if leb r.slot x.slot then r ∷ x ∷ xs else x ∷ rest

unfoldable pub order_by_slot : List PointRow → List PointRow
unfolding insert_by_slot
order_by_slot [] = []
order_by_slot (x ∷ xs) = insert_by_slot x (order_by_slot xs)

-- `GetPointsForProcessing`
unfoldable pub get_points_for_processing : Tables → ℕ → List PointRef
unfolding order_by_slot
get_points_for_processing t batch_size =
    map scan_point (take batch_size (order_by_slot (filterb is_unset t.points)))

-- `GetTxs`
abbrev pub get_txs : ℕ → Tables → List Bytes → Result DbError (List TxRef)
get_txs max_parameters t hashes =
    if ltb max_parameters (length hashes)
    then err too_many_parameters
    else ok (filterb (λ (x : TxRef). any (bytes_eq x.hash) hashes) t.txs)

-- `GetBlockNumForTx`
unfoldable pub get_block_num_for_tx : Tables → Bytes → Result DbError ℕ
get_block_num_for_tx t hash = elim (find (λ (x : TxRef). bytes_eq x.hash hash) t.txs) [
  | some x ↦ ok x.block_height
  | none ↦ err tx_not_found
]

abbrev pub higher : Option ℕ → Option ℕ → Option ℕ
higher none b = b
higher (some m) none = some m
higher (some m) (some n) = some (max m n)

-- `SELECT MAX(height) FROM point WHERE height >= 0`
unfoldable pub max_height : List PointRow → Option ℕ
max_height [] = none
max_height (r ∷ rs) = higher r.height (max_height rs)

-- `GetHighestPoint`
unfoldable pub get_highest_point : Tables → Result DbError PointRef
unfolding max_height
get_highest_point t = elim (max_height t.points) [
  | none ↦ err no_rows
  | some n ↦ elim (find (λ (r : PointRow). has_height n r && not (r.kind == 0)) t.points) [
    | some r ↦ scan_height r
    | none ↦ err no_rows
  ]
]

-- `GetPointByHash`
unfoldable pub get_point_by_hash : Tables → Bytes → Result DbError PointRef
get_point_by_hash t hash = elim (find (λ (r : PointRow). bytes_eq r.hash hash) t.points) [
  | some r ↦ scan_height r
  | none ↦ err block_not_found
]

-- `GetPointByHeight`
unfoldable pub get_point_by_height : Tables → ℕ → Result DbError PointRef
get_point_by_height t n =
    elim (find (λ (r : PointRow). has_height n r && not (r.kind == 0)) t.points) [
      | some r ↦ scan_height r
      | none ↦ err point_not_found
    ]

-- `ORDER BY slot DESC LIMIT 1`
unfoldable pub latest : List PointRow → Option PointRow
latest [] = none
latest (r ∷ rs) = elim (latest rs) [
  | none ↦ some r
  | some x ↦ if ltb r.slot x.slot then some x else some r
]

-- `GetBoundaryPointBehind`
unfoldable pub get_boundary_point_behind : Tables → Bytes → Result DbError PointRef
unfolding latest
get_boundary_point_behind t hash = elim (find (λ (r : PointRow). bytes_eq r.hash hash) t.points) [
  | none ↦ err point_not_found
  | some target ↦
      elim (latest (filterb (λ (r : PointRow). ltb r.slot target.slot && is_unset r) t.points)) [
        | none ↦ err no_rows
        | some r ↦ scan_height r
      ]
]

-- `GetPointsBySlot`
unfoldable pub get_points_by_slot : Tables → ℕ → Result DbError (List PointRef)
get_points_by_slot t slot = elim (filterb (λ (r : PointRow). r.slot == slot) t.points) [
  | [] ↦ err block_not_found
  | r ∷ rs ↦ ok (map scan_point (r ∷ rs))
]

-- `SELECT MAX(slot) FROM point`
unfoldable pub max_slot : List PointRow → ℕ
max_slot [] = 0
max_slot (r ∷ rs) = max r.slot (max_slot rs)

-- `GetPointsForLastSlot`
unfoldable pub get_points_for_last_slot : Tables → Result DbError (List PointRef)
unfolding max_slot
get_points_for_last_slot t =
    elim (filterb (λ (r : PointRow). r.slot == max_slot t.points) t.points) [
      | [] ↦ err no_points
      | r ∷ rs ↦ ok (map scan_point (r ∷ rs))
    ]
