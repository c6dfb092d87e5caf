-- ===== src/Util/Ticks.antt =====
-- util.go: how often the ticker of a `PeriodicCaller` gets its action started.
use cardano_go.Common.{
  Bool-cases, List, [], arith, false, if◌then◌else◌, inl, inr, leb, length, refl, suc, true, ◌*◌,
  ◌+◌, ◌-◌, ◌/◌, ◌∷◌, ◌≡◌, ◌≤◌,
}
use cardano_go.Util.Periodic.{PeriodicCaller, tick}
-- A tick comes with the time of its test and that of its last line.
use cardano_go.Util.Periodic.{tick, PeriodicCaller}
use Prim.Native.Nat.{ℕ}

unfoldable pub play : PeriodicCaller → List (ℕ × ℕ) → PeriodicCaller × ℕ
unfolding tick
play pc [] = (pc, 0)
play pc ((now, later) ∷ ts) =
    let (pc', run) = tick now later pc in
    let (end, n) = play pc' ts in (end, if run then suc n else n)

-- The ticks are an interval apart, and each one is over when the next one comes.
abbrev pub IsPaced : ℕ → List (ℕ × ℕ) → Type 0
IsPaced i [] = Unit
IsPaced i ((now, later) ∷ []) = now ≤ later
IsPaced i ((now, later) ∷ (next, after) ∷ ts) =
    (now ≤ later) × (later ≤ next) × (now + i ≤ next) × IsPaced i ((next, after) ∷ ts)

-- A tick that comes an interval after the last call starts the action.
abbrev IsDue : PeriodicCaller → List (ℕ × ℕ) → Type 0
IsDue pc [] = Unit
IsDue pc (t ∷ ts) = pc.last_call_time + pc.interval ≤ t.0

abbrev pub IsPast : PeriodicCaller → List (ℕ × ℕ) → Type 0
IsPast pc [] = Unit
IsPast pc (t ∷ ts) = pc.last_call_time ≤ t.0

tick-due :
    (now later : ℕ) (pc : PeriodicCaller)
    → pc.stopped ≡ false
    → leb pc.interval (now - pc.last_call_time) ≡ true
    → tick now later pc ≡ (record pc { last_call_time = later }, true)
unfolding tick
tick-due now later pc s d = ground (arith, s, d)

tick-early :
    (now later : ℕ) (pc : PeriodicCaller)
    → leb pc.interval (now - pc.last_call_time) ≡ false
    → tick now later pc ≡ (pc, false)
unfolding tick
tick-early now later pc d = ground (arith, d)

play-run :
    (now later : ℕ) (pc : PeriodicCaller) (ts : List (ℕ × ℕ))
    → pc.stopped ≡ false
    → leb pc.interval (now - pc.last_call_time) ≡ true
    → (play pc ((now, later) ∷ ts)).1 ≡ suc (play (record pc { last_call_time = later }) ts).1
unfolding play
play-run now later pc ts s d = rw (tick-due now later pc s d) refl

play-skip :
    (now later : ℕ) (pc : PeriodicCaller) (ts : List (ℕ × ℕ))
    → leb pc.interval (now - pc.last_call_time) ≡ false
    → (play pc ((now, later) ∷ ts)).1 ≡ (play pc ts).1
unfolding play
play-skip now later pc ts d = rw (tick-early now later pc d) refl

IsPaced-tail : (i : ℕ) (t : ℕ × ℕ) (ts : List (ℕ × ℕ)) → IsPaced i (t ∷ ts) → IsPaced i ts
IsPaced-tail i t [] p = tt
IsPaced-tail i t (u ∷ ts) p = p.3

IsPast-next :
    (pc : PeriodicCaller) (now later : ℕ) (ts : List (ℕ × ℕ))
    → IsPaced pc.interval ((now, later) ∷ ts)
    → IsPast (record pc { last_call_time = later }) ts
IsPast-next pc now later [] p = tt
IsPast-next pc now later (u ∷ ts) p = p.1

IsDue-next :
    (pc : PeriodicCaller) (now later : ℕ) (ts : List (ℕ × ℕ))
    → IsPaced pc.interval ((now, later) ∷ ts)
    → pc.last_call_time ≤ now
    → IsDue pc ts
IsDue-next pc now later [] p c = tt
IsDue-next pc now later (u ∷ ts) p c = omega (arith, p.2, c)

counts :
    (pc : PeriodicCaller) (ts : List (ℕ × ℕ))
    → pc.stopped ≡ false
    → IsPaced pc.interval ts
    → (IsPast pc ts → length ts ≤ 2 * (play pc ts).1 + 1)
      × (IsDue pc ts → length ts ≤ 2 * (play pc ts).1)
unfolding play
counts pc [] s p = (λ h. omega arith, λ h. omega arith)
counts pc ((now, later) ∷ ts) s p = elim (Bool-cases (leb pc.interval (now - pc.last_call_time))) [
  | inl d ↦
      let pc' : PeriodicCaller = record pc { last_call_time = later } in
      let rest : length ts ≤ 2 * (play pc' ts).1 + 1 =
        (counts pc' ts s (IsPaced-tail pc.interval (now, later) ts p)).0
          (IsPast-next pc now later ts p) in
      rw (play-run now later pc ts s d) (λ h. omega (arith, rest), λ h. omega (arith, rest))
  | inr d ↦
      let rest : IsDue pc ts → length ts ≤ 2 * (play pc ts).1 =
        (counts pc ts s (IsPaced-tail pc.interval (now, later) ts p)).1 in
      rw (play-skip now later pc ts d) (
        λ h. omega (arith, rest (IsDue-next pc now later ts p h)),
        λ h. absurd (ground (arith, d, h)),
      )
]

-- A caller that was not stopped and not called after the first of the ticks, which come an interval
-- apart or later: of any two ticks in a row one at least starts the action, so that of `n` ticks
-- n / 2 do, rounded down. It need not be every tick, since the time of the call is noted after that
-- of the tick.
pub play-length :
    (pc : PeriodicCaller) (ts : List (ℕ × ℕ))
    → pc.stopped ≡ false
    → IsPaced pc.interval ts
    → IsPast pc ts
    → length ts / 2 ≤ (play pc ts).1
play-length pc ts s p h = omega (arith, (counts pc ts s p).0 h)
