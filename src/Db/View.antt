-- ===== src/Db/View.antt =====
-- db.go: what the Database interface promises of the points, without tables: which points are
-- there and which height each has; and the calls of the interface that write.
use mathlib.Core.Option
use cardano_go.Common.{
  Bool, Bytes, List, Option, Result, [], bytes_eq, err, false, find, if◌then◌else◌, ltb, none, ok,
  panic, some, true, ℕ, ◌∷◌,
}
use cardano_go.Db.Tables.{PointRef, TxRef, PointRow, Tables, DbError, same_key, has_key}
use cardano_go.Db.Updates.{handle_rollback, add_points, set_point_heights, add_txs_for_block}

-- A point's height, `some none` where it has none yet; `none` where the point is not there.
abbrev pub View : Type 0
View = ℕ → Bytes → Option (Option ℕ)

abbrev pub height : PointRow → Option ℕ
height r = r.height

abbrev pub lookup : List PointRow → View
lookup rows s h = Option.map height (find (has_key s h) rows)

pub data Call : Type 0 where
  add : List PointRef → Call
  set_heights : List PointRef → Call
  add_txs : List TxRef → Call
  roll_back : ℕ → Call

abbrev pub succeeds : Result DbError (Unit {0}) → Bool
succeeds (ok x) = true
succeeds (err e) = false
succeeds panic = false

-- A call on the tables, with whether it succeeds.
unfoldable pub call : Tables → Call → Tables × Bool
call t (add ps) = ((add_points t ps).0, succeeds (add_points t ps).1)
call t (set_heights us) = ((set_point_heights t us).0, succeeds (set_point_heights t us).1)
call t (add_txs xs) = ((add_txs_for_block t xs).0, succeeds (add_txs_for_block t xs).1)
call t (roll_back n) = ((handle_rollback t n).0, succeeds (handle_rollback t n).1)

-- The calls in turn, and the same calls with their outcomes.
unfoldable pub run : List Call → Tables → Tables
unfolding call
run [] t = t
run (c ∷ cs) t = run cs (call t c).0

unfoldable pub log : List Call → Tables → List (Call × Bool)
unfolding call
log [] t = []
log (c ∷ cs) t = (c, (call t c).1) ∷ log cs (call t c).0

-- A point that is there keeps its height, a new one has none.
abbrev pub add_one : PointRef → View → View
add_one p f s h =
    if same_key s h p.slot p.hash then some (elim (f s h) [ some o ↦ o | none ↦ none ]) else f s h

abbrev pub add_all : List PointRef → View → View
add_all [] f = f
add_all (p ∷ ps) f = add_all ps (add_one p f)

abbrev pub set_one : PointRef → View → View
set_one u f s h =
    if bytes_eq u.hash h then Option.map (λ (_ : Option ℕ). some u.height) (f s h) else f s h

abbrev pub set_all : List PointRef → View → View
set_all [] f = f
set_all (u ∷ us) f = set_all us (set_one u f)

abbrev pub keep_before : ℕ → View → View
keep_before n f s h = if ltb s n then f s h else none

-- The calls on the view: transactions do not touch it, nor does a call that fails.
abbrev pub replay : List (Call × Bool) → View → View
replay [] f = f
replay ((add ps, b) ∷ cs) f = replay cs (if b then add_all ps f else f)
replay ((set_heights us, b) ∷ cs) f = replay cs (if b then set_all us f else f)
replay ((add_txs xs, b) ∷ cs) f = replay cs f
replay ((roll_back n, b) ∷ cs) f = replay cs (if b then keep_before n f else f)
