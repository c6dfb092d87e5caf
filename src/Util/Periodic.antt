-- ===== src/Util/Periodic.antt =====
-- util.go: `PeriodicCaller`. Times count from the zero time; the clock does not go back.
use cardano_go.Common.{
  Bool, Bool-cases, List, [], arith, false, if◌then◌else◌, inl, inr, leb, not, refl, subst, sym,
  true, ℕ, ◌&&◌, ◌+◌, ◌-◌, ◌∙◌, ◌∷◌, ◌≡◌, ◌≤◌, ◌⊎◌,
}

pub record PeriodicCaller : Type 0 where
  pub last_call_time : ℕ
  pub interval : ℕ
  pub stopped : Bool

-- `NewPeriodicCaller`
abbrev pub new_periodic_caller : ℕ → PeriodicCaller
new_periodic_caller interval = record { last_call_time = 0; interval = interval; stopped = false }

-- `Postpone` at a time, with whether it starts the action.
unfoldable pub postpone : ℕ → PeriodicCaller → PeriodicCaller × Bool
postpone now pc =
    if pc.stopped
    then (pc, false)
    else (record pc { last_call_time = now }, leb pc.interval (now - pc.last_call_time))

-- A tick of `Start`, with the time of its test and that of its last line.
unfoldable pub tick : ℕ → ℕ → PeriodicCaller → PeriodicCaller × Bool
tick now later pc =
    if not pc.stopped && leb pc.interval (now - pc.last_call_time)
    then (record pc { last_call_time = later }, true)
    else (pc, false)

-- `Stop`
abbrev pub stop : PeriodicCaller → PeriodicCaller
stop pc = record pc { stopped = true }

-- A caller, the time, and the times at which the action was started, the last one first.
pub record World : Type 0 where
  pub caller : PeriodicCaller
  pub clock : ℕ
  pub calls : List ℕ

abbrev pub after : World → ℕ → ℕ → PeriodicCaller × Bool → World
after w now later res = record {
  caller = res.0;
  clock = later;
  calls = if res.1 then now ∷ w.calls else w.calls;
}

-- The mutex lets one of them run at a time.
pub data Step : World → World → Type 0 where
  postpones :
      {w : World} (now : ℕ) → w.clock ≤ now → Step w (after w now now (postpone now w.caller))
  ticks :
      {w : World} (now later : ℕ)
      → w.clock ≤ now
      → now ≤ later
      → Step w (after w now later (tick now later w.caller))
  stops : {w : World} → Step w (record w { caller = stop w.caller })

pub data Reached (w : World) : World → Type 0 where
  here : Reached w w
  next : {v u : World} → Reached w v → Step v u → Reached w u

abbrev pub at_start : ℕ → World
at_start interval = record { caller = new_periodic_caller interval; clock = 0; calls = [] }

-- Between a call and the one before it, the interval passes.
abbrev pub IsSpaced : ℕ → List ℕ → Type 0
IsSpaced i [] = Unit
IsSpaced i (a ∷ []) = Unit
IsSpaced i (a ∷ b ∷ cs) = (b + i ≤ a) × IsSpaced i (b ∷ cs)

abbrev NotLater : List ℕ → ℕ → Type 0
NotLater [] t = Unit
NotLater (a ∷ cs) t = a ≤ t

record IsTimed (i : ℕ) (w : World) : Type 0 where
  same : w.caller.interval ≡ i
  spaced : IsSpaced i w.calls
  last : NotLater w.calls w.caller.last_call_time
  past : w.caller.last_call_time ≤ w.clock

IsSpaced-cons :
    (i t a : ℕ) (cs : List ℕ) → i + t ≤ a → NotLater cs t → IsSpaced i cs → IsSpaced i (a ∷ cs)
IsSpaced-cons i t a [] l n s = tt
IsSpaced-cons i t a (b ∷ cs) l n s = (omega (arith, l, n), s)

NotLater-imp : (cs : List ℕ) (t u : ℕ) → t ≤ u → NotLater cs t → NotLater cs u
NotLater-imp [] t u l n = tt
NotLater-imp (a ∷ cs) t u l n = omega (arith, l, n)

after-IsTimed :
    (i : ℕ) (w : World) (now later : ℕ) (pc : PeriodicCaller) (b : Bool)
    → IsTimed i w
    → pc.interval ≡ i
    → w.clock ≤ now
    → now ≤ later
    → pc.last_call_time ≤ later
    → ((b ≡ true) × (i + w.caller.last_call_time ≤ now) × (now ≤ pc.last_call_time))
      ⊎ ((b ≡ false) × (w.caller.last_call_time ≤ pc.last_call_time))
    → IsTimed i (after w now later (pc, b))
after-IsTimed i w now later pc b t same c l p (inl (e, spaced, last)) = rw (e) (record {
  same = same;
  spaced = IsSpaced-cons i w.caller.last_call_time now w.calls spaced t.last t.spaced;
  last = last;
  past = p;
})
after-IsTimed i w now later pc b t same c l p (inr (e, last)) = rw (e) (record {
  same = same;
  spaced = t.spaced;
  last = NotLater-imp w.calls w.caller.last_call_time pc.last_call_time last t.last;
  past = p;
})

postpone-stopped :
    (now : ℕ) (pc : PeriodicCaller) → pc.stopped ≡ true → postpone now pc ≡ (pc, false)
unfolding postpone
postpone-stopped now pc s = ground (arith, s)

postpone-running :
    (now : ℕ) (pc : PeriodicCaller)
    → pc.stopped ≡ false
    → postpone now pc
      ≡ (record pc { last_call_time = now }, leb pc.interval (now - pc.last_call_time))
unfolding postpone
postpone-running now pc s = ground (arith, s)

tick-stopped :
    (now later : ℕ) (pc : PeriodicCaller) → pc.stopped ≡ true → tick now later pc ≡ (pc, false)
unfolding tick
tick-stopped now later pc s = ground (arith, s)

postpone-IsTimed :
    (i now : ℕ) (w : World)
    → IsTimed i w
    → w.clock ≤ now
    → IsTimed i (after w now now (postpone now w.caller))
unfolding postpone
postpone-IsTimed i now w t c = elim (Bool-cases w.caller.stopped) [
  | inl s ↦
      subst (λ (r : PeriodicCaller × Bool). IsTimed i (after w now now r))
        (sym (postpone-stopped now w.caller s))
        (after-IsTimed i w now now w.caller false t t.same c (omega arith)
          (omega (arith, t.past, c)) (inr (refl, omega arith)))
  | inr s ↦
      subst (λ (r : PeriodicCaller × Bool). IsTimed i (after w now now r))
        (sym (postpone-running now w.caller s))
        (after-IsTimed i w now now (record w.caller { last_call_time = now })
          (leb w.caller.interval (now - w.caller.last_call_time)) t t.same c (omega arith)
          (omega arith)
          (waited (Bool-cases (leb w.caller.interval (now - w.caller.last_call_time)))))
]
  where
    waited :
        (leb w.caller.interval (now - w.caller.last_call_time) ≡ true)
          ⊎ (leb w.caller.interval (now - w.caller.last_call_time) ≡ false)
        → ((leb w.caller.interval (now - w.caller.last_call_time) ≡ true)
            × (i + w.caller.last_call_time ≤ now)
            × (now ≤ now))
          ⊎ ((leb w.caller.interval (now - w.caller.last_call_time) ≡ false)
              × (w.caller.last_call_time ≤ now))
    waited (inl k) = inl (k, ground (arith, k, t.same, t.past, c), omega arith)
    waited (inr k) = inr (k, omega (arith, t.past, c))

tick-IsTimed :
    (i now later : ℕ) (w : World)
    → IsTimed i w
    → w.clock ≤ now
    → now ≤ later
    → IsTimed i (after w now later (tick now later w.caller))
unfolding tick
tick-IsTimed i now later w t c l =
    elim (Bool-cases
      (not w.caller.stopped && leb w.caller.interval (now - w.caller.last_call_time))) [
        | inl k ↦
            rw (tick, k)
              (after-IsTimed i w now later (record w.caller { last_call_time = later }) true t
                t.same c l (omega arith) (inl (refl, ground (arith, k, t.same, t.past, c), l)))
        | inr k ↦
            rw (tick, k)
              (after-IsTimed i w now later w.caller false t t.same c l (omega (arith, t.past, c, l))
                (inr (refl, omega arith)))
      ]

Step-IsTimed : (i : ℕ) (w u : World) → Step w u → IsTimed i w → IsTimed i u
Step-IsTimed i w u (postpones now c) t = postpone-IsTimed i now w t c
Step-IsTimed i w u (ticks now later c l) t = tick-IsTimed i now later w t c l
Step-IsTimed i w u stops t = record {
  same = t.same;
  spaced = t.spaced;
  last = t.last;
  past = t.past;
}

Reached-IsTimed : (i : ℕ) (w u : World) → IsTimed i w → Reached w u → IsTimed i u
Reached-IsTimed i w u t here = t
Reached-IsTimed i w u t (next {v} r s) = Step-IsTimed i v u s (Reached-IsTimed i w v t r)

-- Whatever calls of `Postpone` and `Stop` and ticks there are, at whatever times, two starts of the
-- action are the interval apart at least.
pub Reached-IsSpaced :
    (interval : ℕ) (w : World) → Reached (at_start interval) w → IsSpaced interval w.calls
Reached-IsSpaced interval w r =
    (Reached-IsTimed interval (at_start interval) w
      (record { same = refl; spaced = tt; last = tt; past = omega arith }) r).spaced

abbrev Unchanged : World → ℕ → ℕ → PeriodicCaller × Bool → Type 0
Unchanged w now later r =
    ((after w now later r).caller.stopped ≡ true) × ((after w now later r).calls ≡ w.calls)

stopped-Step :
    (w u : World)
    → Step w u
    → w.caller.stopped ≡ true
    → (u.caller.stopped ≡ true) × (u.calls ≡ w.calls)
unfolding postpone tick
stopped-Step w u (postpones now c) s =
    subst (Unchanged w now now) (sym (postpone-stopped now w.caller s)) (s, refl)
stopped-Step w u (ticks now later c l) s =
    subst (Unchanged w now later) (sym (tick-stopped now later w.caller s)) (s, refl)
stopped-Step w u stops s = (refl, refl)

-- After `Stop` no action is started any more.
stopped-calls :
    (w u : World)
    → w.caller.stopped ≡ true
    → Reached w u
    → (u.caller.stopped ≡ true) × (u.calls ≡ w.calls)
stopped-calls w u s here = (s, refl)
stopped-calls w u s (next {v} r step) =
    let (a, b) = stopped-calls w v s r in let (c, d) = stopped-Step v u step a in (c, d ∙ b)
