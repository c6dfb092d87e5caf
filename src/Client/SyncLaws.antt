-- ===== src/Client/SyncLaws.antt =====
-- client.go: what holds of the points that a client collects and of its database in every state.
use cardano_go.Common.{
  Bool, Bool-cases, [], arith, false, inl, inr, is_err, is_ok, is_panic, length, ltb, ok, refl, see,
  subst, sym, true, ℕ, ◌<◌, ◌∙◌, ◌≡◌, ◌⊎◌,
}
use cardano_go.Processor.Rounds.{block_batch_size, new_block_processor}
use cardano_go.Client.Defs.{Client, NewClient, start, holding, leaving, window, connect, idle}
use cardano_go.Client.Sync.{
  unlock, BlockData, on_roll_forwards, note_point, is_due, flush, point_of_data, on_roll_backwards,
  Step, Reached, next, forward, backward, here, lock, round, leave,
}

-- Fewer points than a batch wait, and none once the tip was reached.
pub record IsFlushed (c : Client) : Type 0 where
  few : length c.points < block_batch_size
  at_tip : c.tip_reached ≡ true → c.points ≡ []

flush-IsFlushed : (c : Client) → IsFlushed (flush c)
flush-IsFlushed c = record { few = omega arith; at_tip = λ e. refl }

kept-IsFlushed : (c : Client) → is_due c ≡ false → IsFlushed c
kept-IsFlushed c e = record { few = ground (arith, e); at_tip = λ t. ground (arith, e, t) }

pub on_roll_forwards-cases :
    (c : Client) (kind : ℕ) (data' : BlockData) (tip : ℕ)
    → ((is_due (note_point c kind (point_of_data kind data') tip) ≡ true)
        × (on_roll_forwards c kind data' tip
            ≡ flush (note_point c kind (point_of_data kind data') tip)))
      ⊎ ((is_due (note_point c kind (point_of_data kind data') tip) ≡ false)
          × (on_roll_forwards c kind data' tip ≡ note_point c kind (point_of_data kind data') tip))
unfolding on_roll_forwards
on_roll_forwards-cases c kind data' tip =
    elim (Bool-cases (is_due (note_point c kind (point_of_data kind data') tip))) [
      | inl e ↦ inl (e, rw (e) refl)
      | inr e ↦ inr (e, rw (e) refl)
    ]

pub on_roll_backwards-points :
    (c : Client) (slot : ℕ)
    → ((on_roll_backwards c slot).0.points ≡ c.points)
      × ((on_roll_backwards c slot).0.tip_reached ≡ c.tip_reached)
unfolding on_roll_backwards
on_roll_backwards-points c slot = elim (Bool-cases (ltb c.start_point.slot slot)) [
  | inl e ↦ rw (on_roll_backwards, e) (refl, refl)
  | inr e ↦ rw (on_roll_backwards, e) (refl, refl)
]

IsFlushed-like :
    (c d : Client) → d.points ≡ c.points → d.tip_reached ≡ c.tip_reached → IsFlushed c → IsFlushed d
IsFlushed-like c d e f h = record { few = rw (e) h.few; at_tip = λ t. e ∙ h.at_tip (sym f ∙ t) }

Step-IsFlushed : (c d : Client) → Step c d → IsFlushed c → IsFlushed d
Step-IsFlushed c d (forward kind block_data tip g) h =
    elim (on_roll_forwards-cases c kind block_data tip) [
      | inl (due, e) ↦
          subst IsFlushed (sym e)
            (flush-IsFlushed (note_point c kind (point_of_data kind block_data) tip))
      | inr (due, e) ↦
          subst IsFlushed (sym e)
            (kept-IsFlushed (note_point c kind (point_of_data kind block_data) tip) due)
    ]
Step-IsFlushed c d (backward slot free) h =
    let same = on_roll_backwards-points c slot in
    IsFlushed-like c (on_roll_backwards c slot).0 same.0 same.1 h
Step-IsFlushed c d (lock w) h = IsFlushed-like c (record c { phase = holding }) refl refl h
Step-IsFlushed c d (round {bp} fetch w e) h =
    IsFlushed-like c (record c { processor = bp }) refl refl h
Step-IsFlushed c d (unlock {bp} fetch w e) h =
    IsFlushed-like c (record c { processor = bp; phase = leaving }) refl refl h
Step-IsFlushed c d (leave w) h = IsFlushed-like c (record c { phase = idle }) refl refl h

Reached-IsFlushed_from : (c d : Client) → IsFlushed c → Reached c d → IsFlushed d
Reached-IsFlushed_from c d h here = h
Reached-IsFlushed_from c d h (next {d = e} r s) =
    Step-IsFlushed e d s (Reached-IsFlushed_from c e h r)

start-fresh :
    (dial opens : ℕ → Bool) (n : NewClient) (c : Client)
    → start dial opens n ≡ ok c
    → (c.points ≡ []) × (c.tip_reached ≡ false)
unfolding start
start-fresh dial opens n c e =
    elim (see (new_block_processor n.db (window n.options.reorg_window))) [
      | is_err x f ↦ absurd (ground (arith, e, f))
      | is_panic f ↦ absurd (ground (arith, e, f))
      | is_ok bp f ↦ elim (see (connect dial opens).1) [
        | is_err x g ↦ absurd (ground (arith, e, f, g))
        | is_panic g ↦ absurd (ground (arith, e, f, g))
        | is_ok u g ↦ ground (arith, e, f, g)
      ]
    ]

start-IsFlushed :
    (dial opens : ℕ → Bool) (n : NewClient) (c : Client) → start dial opens n ≡ ok c → IsFlushed c
start-IsFlushed dial opens n c e =
    let h : (c.points ≡ []) × (c.tip_reached ≡ false) = start-fresh dial opens n c e in
    record { few = rw (h.0) (omega arith); at_tip = λ t. h.0 }

-- In every state that a started client comes to, by the chain sync's calls, the rounds of the
-- block processor and rollbacks in any order, fewer points than a batch of 10000 wait to be
-- stored, and none waits once the node's tip was reached.
pub Reached-IsFlushed :
    (dial opens : ℕ → Bool) (n : NewClient) (c d : Client)
    → start dial opens n ≡ ok c
    → Reached c d
    → (length d.points < 10000) × (d.tip_reached ≡ true → d.points ≡ [])
Reached-IsFlushed dial opens n c d e r =
    let h : IsFlushed d = Reached-IsFlushed_from c d (start-IsFlushed dial opens n c e) r in
    (h.few, h.at_tip)
