-- ===== src/Autonomous/Trigger.antt =====
-- When a poll of native/src/services/autonomous.rs triggers a round.
use txodds_agent_desk.Prelude.{
  ℕ, ◌-◌, ◌≤◌, ◌≡◌, ◌↔◌, refl, true, false, Option, none, some, List, [], ◌∷◌, arith, inl, inr,
  Bool-cases, is_empty,
}
use txodds_agent_desk.Prelude.Int.{ℤ}
use txodds_agent_desk.Text.{Text}
use txodds_agent_desk.Float.{Float}
use txodds_agent_desk.Event.{TxLineEvent}
use txodds_agent_desk.Autonomous.{
  LoopMemory, OddsTick, Quote, Poll, Move, enter_ticks, diff, rate_limited, poll_fixture,
  latest_per_outcome, too_soon,
}
use txodds_agent_desk.Autonomous.Distinct.{IsWalk, latest_per_outcome-IsDistinct}
use txodds_agent_desk.Autonomous.Moved.{IsMoved, diff-IsMoved, diff-none}
use txodds_agent_desk.Autonomous.Told.{IsTold, move_event-IsTold}

-- The last trigger, if any, lies an hour or more back.
abbrev pub IsRested : ℕ → Option ℕ → Type 0
IsRested asked none = Unit
IsRested asked (some last) = 3_600_000_000_000 ≤ asked - last

IsRested-not_too_soon :
    (asked : ℕ) (last : Option ℕ) → too_soon asked last ≡ false → IsRested asked last
IsRested-not_too_soon asked none h = tt
IsRested-not_too_soon asked (some last) h = ground arith

too_soon-IsRested :
    (asked : ℕ) (last : Option ℕ) → too_soon asked last ≡ true → ¬ IsRested asked last
too_soon-IsRested asked none h = absurd cc
too_soon-IsRested asked (some last) h = λ r. ground arith

is_empty-quotes :
    {F : Type 0} (ticks : List (OddsTick F)) → is_empty ticks ≡ true → latest_per_outcome ticks ≡ []
unfolding latest_per_outcome enter_ticks
is_empty-quotes [] h = refl
is_empty-quotes (t ∷ ts) h = absurd cc

module _ {F : Type 0} ⦃d : Float F⦄ (trigger_pct : F) (ts_to_iso : ℤ → Text)
    (walk : List (Quote F) → List (Quote F)) (memory : LoopMemory F) (p : Poll F) where
  -- The latest odds of the poll have moved.
  abbrev pub Moves : Move F → Type 0
  Moves = IsMoved trigger_pct (memory.last_seen p.fixture.fixture_id) (latest_per_outcome p.ticks)

  abbrev pub Rests : Type 0
  Rests = IsRested p.asked (memory.last_triggered p.fixture.fixture_id)

  -- A poll triggers on a move of a fixture that rests, with an event that tells of such a move; and it
  -- does not trigger only where the fixture does not rest or nothing has moved.
  abbrev pub IsDecided : Option (TxLineEvent F) → Type 0
  IsDecided none = ¬ (Rests × ((m : Move F) × Moves m))
  IsDecided (some event) =
      Rests
      × ((m : Move F) × (Moves m
            × IsTold ts_to_iso p.fixture (walk (latest_per_outcome p.ticks)) m event))

  rate_limited-IsDecided :
      (seen : ℕ → Text → Option F) (found : Option (Move F))
      → ((m : Move F) → found ≡ some m → Moves m)
      → (found ≡ none → (m : Move F) → ¬ Moves m)
      → IsDecided
          (rate_limited trigger_pct ts_to_iso walk
            (record memory { last_seen = seen })
            p
            (walk (latest_per_outcome p.ticks))
            found).1
  rate_limited-IsDecided seen none moved still = λ (rest, (m, k)). still refl m k
  rate_limited-IsDecided seen (some m) moved still =
      elim (Bool-cases (too_soon p.asked (memory.last_triggered p.fixture.fixture_id))) [
        | inl soon ↦ rw soon (λ (rest, _).
            too_soon-IsRested p.asked (memory.last_triggered p.fixture.fixture_id) soon rest)
        | inr late ↦ rw late (
          IsRested-not_too_soon p.asked (memory.last_triggered p.fixture.fixture_id) late,
          (
            m,
            (
              moved m refl,
              move_event-IsTold ts_to_iso p.id_time p.ts_time p.fixture
                  (walk (latest_per_outcome p.ticks)) m,
            ),
          ),
        )
      ]

  from_walk :
      IsWalk walk
      → (m : Move F)
      → IsMoved trigger_pct
          (memory.last_seen p.fixture.fixture_id)
          (walk (latest_per_outcome p.ticks))
          m
        ↔ Moves m
  from_walk w m = (
    λ k. record {
      quoted = w.none_added (latest_per_outcome p.ticks) m.outcome m.current k.quoted;
      seen = k.seen;
      positive = k.positive;
      measured = k.measured;
      enough = k.enough;
    },
    λ k. record {
      quoted = w.none_lost (latest_per_outcome p.ticks) m.outcome m.current k.quoted;
      seen = k.seen;
      positive = k.positive;
      measured = k.measured;
      enough = k.enough;
    },
  )

  -- In whatever order the map of latest quotes is walked, a poll triggers a round exactly if the last
  -- round of the fixture was triggered an hour or more ago, or none was, and an outcome whose latest
  -- odds it quotes was seen before at odds above zero and has changed by the configured percentage of
  -- those or more. The event of the round is then an odds move of the fixture, tells of such an outcome
  -- with its change, its previous and its current odds, gives every quote of the map with the inverse
  -- of its odds, and brings no score and no proof.
  pub poll_fixture-IsDecided :
      IsWalk walk → IsDecided (poll_fixture trigger_pct ts_to_iso walk memory p).1
  unfolding poll_fixture
  poll_fixture-IsDecided w = elim (Bool-cases (is_empty p.ticks)) [
    | inl e ↦ rw e (λ (rest, (m, k)).
        let none_quoted = is_empty-quotes p.ticks e in absurd (rw none_quoted at k.quoted))
    | inr e ↦
        let quotes = walk (latest_per_outcome p.ticks) in
        let fixture_id = p.fixture.fixture_id in
        let distinct =
          w.distinct (latest_per_outcome p.ticks) (latest_per_outcome-IsDistinct p.ticks) in
        let found = diff trigger_pct fixture_id quotes memory.last_seen none in
        rw e (
          rate_limited-IsDecided found.0 found.1
            (λ m h.
              elim (diff-IsMoved trigger_pct fixture_id quotes memory.last_seen none m distinct h) [
                | inl none_is ↦ absurd cc
                | inr k ↦ (from_walk w m).0 k
              ])
            (λ h m k.
              (diff-none trigger_pct fixture_id quotes memory.last_seen none distinct h).1 m
                ((from_walk w m).1 k)))
  ]
