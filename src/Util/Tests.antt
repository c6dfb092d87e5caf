-- ===== src/Util/Tests.antt =====
-- Runs of the routines.
use cardano_go.Util.Indent.{is_closed, indent_cbor, strip, indent_cbor_lem, string_of_all}
use cardano_go.Util.Periodic.{
  World, Reached, here, next, postpones, ticks, after, postpone, tick, stop, at_start, IsSpaced,
  Reached-IsSpaced, new_periodic_caller,
}
use cardano_go.Util.Ticks.{play, play-length}
use cardano_go.Util.Tags.{WithCborTag, IntLaws, unmarshal_cbor}
use cardano_go.Common.{
  Bool-cases, Bytes, List, Option, [], arith, codes, err, false, if◌then◌else◌, inl, inr, ltb, none,
  ok, panic, refl, some, true, ℕ, ◌==◌, ◌∷◌, ◌≡◌, ◌≤◌, ◌⊎◌,
}
use cardano_go.Util.Search.{Answer, lower, higher, found, LeadsTo, search, search-finds}
use cardano_go.Util.Chunks.{chunk_string, join, IsCut, chunk_string-join}

-- Towards 5.
abbrev to_five : ℕ → Answer
to_five m = if m == 5 then found else if ltb 5 m then lower else higher

to_five-leads : LeadsTo 5 to_five
to_five-leads m = elim (Bool-cases (m == 5)) [
  | inl e ↦ inl (ground (arith, e))
  | inr e ↦ elim (Bool-cases (ltb 5 m)) [
    | inl f ↦ inr (inl (ground (arith, e, f), ground (arith, f)))
    | inr f ↦ inr (inr (ground (arith, e, f), ground (arith, e, f)))
  ]
]

search-finds_example : search 10 0 9 to_five ≡ ok tt
search-finds_example =
    search-finds 10 0 9 5 to_five to_five-leads (omega arith) (omega arith) (omega arith)
      (omega arith)

chunk_string-join_example :
    (join (chunk_string (codes "memos") 2) ≡ codes "memos")
    × IsCut 2 (chunk_string (codes "memos") 2)
chunk_string-join_example = chunk_string-join (codes "memos") 2 (omega arith)

indent_cbor_lem_example :
    ((is_closed 0 (codes "[1, {2}]") ≡ true)
      × ((out : Bytes) × (indent_cbor (codes "[1, {2}]") ≡ ok out)
          × (strip out ≡ strip (string_of_all (codes "[1, {2}]")))))
    ⊎ ((is_closed 0 (codes "[1, {2}]") ≡ false) × (indent_cbor (codes "[1, {2}]") ≡ panic))
indent_cbor_lem_example = indent_cbor_lem (codes "[1, {2}]")

panics : indent_cbor (codes "1]") ≡ panic
unfolding indent_cbor
panics = refl

abbrev first_world : World
first_world = after (at_start 5) 7 7 (postpone 7 (at_start 5).caller)

abbrev second_world : World
second_world = after first_world 12 13 (tick 12 13 first_world.caller)

two_calls : second_world.calls ≡ 12 ∷ 7 ∷ []
unfolding postpone tick
two_calls = refl

runs : Reached (at_start 5) second_world
unfolding postpone
runs = next (next here (postpones 7 (omega arith))) (ticks 12 13 (omega arith) (omega arith))

Reached-IsSpaced_example : IsSpaced 5 second_world.calls
Reached-IsSpaced_example = Reached-IsSpaced 5 second_world runs

-- The second of four ticks comes too early for the time that the first one noted.
abbrev four_ticks : List (ℕ × ℕ)
four_ticks = (5, 6) ∷ (10, 10) ∷ (15, 16) ∷ (21, 21) ∷ []

three_calls : (play (new_periodic_caller 5) four_ticks).1 ≡ 3
unfolding play
three_calls = refl

play-length_example : 2 ≤ (play (new_periodic_caller 5) four_ticks).1
play-length_example =
    play-length (new_periodic_caller 5) four_ticks refl
      (
        omega arith,
        omega arith,
        omega arith,
        (
          omega arith,
          omega arith,
          omega arith,
          (omega arith, omega arith, omega arith, omega arith),
        ),
      )
      (omega arith)

abbrev stopped_world : World
stopped_world = record { caller = stop second_world.caller; clock = 13; calls = 12 ∷ 7 ∷ [] }

abbrev later_world : World
later_world = after stopped_world 40 40 (postpone 40 stopped_world.caller)

abbrev marshal_int : ℕ → Bytes
marshal_int n = 25 ∷ n ∷ []

abbrev first_int : Bytes → Option (ℕ × Bytes)
first_int [] = none
first_int (b ∷ []) = none
first_int (b ∷ n ∷ s) = if b == 25 then some (n, s) else none

laws : IntLaws marshal_int first_int
laws = record { head = λ n p. (25, (n ∷ [], refl, omega arith, omega arith)); back = λ n s. refl }

abbrev tagged : WithCborTag Bytes
tagged = record { tag = 258; value = 0x80 ∷ [] }

-- A value without a tag is not read back: its first byte is taken for that of a tag.
untagged :
    unmarshal_cbor marshal_int first_int (λ (v : Bytes). some v) (λ s. some s) 0 (0x80 ∷ [])
    ≡ err tt
unfolding unmarshal_cbor
untagged = refl
