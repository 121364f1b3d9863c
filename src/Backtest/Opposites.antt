-- ===== src/Backtest/Opposites.antt =====
-- The two agents of a replay in native/src/services/backtest.rs, over all ticks.
use txodds_agent_desk.Prelude.{
  ℕ, ◌+◌, ◌%◌, ◌^◌, ◌≡◌, refl, Bool, true, false, Option, none, some, List, [], ◌∷◌, arith, length,
  inl, inr, Bool-cases, Option-cases,
}
use txodds_agent_desk.Prelude.Int.{ℤ}
use txodds_agent_desk.Text.{Text, text_eq}
use txodds_agent_desk.Float.{Float, nought, one, clamp}
use txodds_agent_desk.Float.Order.{IsOrdered, clamp_total}
use txodds_agent_desk.Arena.{keep, from_positions, follow_sharp, fade_sharp}
use txodds_agent_desk.Autonomous.{OddsTick}
use txodds_agent_desk.ToolLoop.{Attempt, success, failure}
use txodds_agent_desk.Backtest.{
  ReplayState, MovementResult, follow_agent, fade_agent, on_movement, compare_tick, replay_tick,
  replay_ticks, replay_fixture, fresh_replay, tally, and_then, compute_sharp_movement, see_tick,
  confidence_of,
}
use txodds_agent_desk.Backtest.Pairs.{IsPaired, IsPaired-append, the_pair, the_pair-IsPaired}

module _ {F : Type 0} ⦃d : Float F⦄ where
  -- Odds above zero, as the parser keeps them.
  abbrev pub ArePositive : List (OddsTick F) → Type 0
  ArePositive [] = Unit
  ArePositive (t ∷ ts) = (d.le t.decimal nought ≡ false) × ArePositive ts

  -- The tallies of a replay: as many positions of each agent as signals, and one winner each.
  abbrev pub AreOpposite : Option (Attempt (ReplayState F)) → Type 0
  AreOpposite none = ⊥
  AreOpposite (some (failure e)) = ⊥
  AreOpposite (some (success s)) =
      let n = s.signals_detected % 2 ^ 32 in
      let follow = tally follow_agent follow_sharp s.positions in
      let fade = tally fade_agent fade_sharp s.positions in
      (follow.positions_taken ≡ n)
      × (fade.positions_taken ≡ n)
      × ((follow.positions_won + fade.positions_won) % 2 ^ 32 ≡ n)

module _ {F : Type 0} ⦃d : Float F⦄ (threshold_pct : F) (uuid now : ℕ → Text) (ts_to_iso : ℤ → Text)
    (fixture_id : ℕ) (winner final_score : Text) where
  abbrev Seen : ReplayState F → Type 0
  Seen s = (o : Text) (p : F) → s.last_seen o ≡ some p → d.le p nought ≡ false

  -- The step succeeds, and both invariants hold after it.
  abbrev Ends : Option (Attempt (ReplayState F)) → Type 0
  Ends none = ⊥
  Ends (some (failure e)) = ⊥
  Ends (some (success s)) = IsPaired s.positions s.signals_detected × Seen s

  on_movement-Ends :
      (tick : OddsTick F) (previous : F) (s : ReplayState F) (movement : MovementResult F)
      → IsPaired s.positions s.signals_detected
      → Seen s
      → Ends (
          on_movement threshold_pct uuid now ts_to_iso fixture_id winner final_score tick previous s
            movement)
  unfolding on_movement
  on_movement-Ends tick previous s movement h seen = elim (Bool-cases movement.is_sharp_move) [
    | inl t ↦ rw t (
      IsPaired-append s.positions
          (the_pair threshold_pct uuid now ts_to_iso fixture_id winner final_score tick movement
            (d.lt tick.decimal previous) (length s.positions))
          s.signals_detected h
          (the_pair-IsPaired threshold_pct uuid now ts_to_iso fixture_id winner final_score tick
            movement (d.lt tick.decimal previous) (length s.positions)),
      seen,
    )
    | inr t ↦ rw t (h, seen)
  ]

  module _ (laws : IsOrdered F) where
    open laws use {le_of_lt, nought_lt_one}

    confidence_of-some :
        (b : Bool) (pct : F) → (c : F) × (confidence_of b threshold_pct pct ≡ some c)
    confidence_of-some false pct = (_, refl)
    confidence_of-some true pct =
        let x = d.div (d.sub pct threshold_pct) threshold_pct in
        elim (Option-cases (clamp x nought one)) [
          | inl e ↦
              absurd (
                ground
                  (arith, e, clamp_total laws x nought one (le_of_lt nought one nought_lt_one)))
          | inr (c, e) ↦ (d.add (d.mul c (d.dec 5 10)) (d.dec 5 10), rw e refl)
        ]

    compute_sharp_movement-success :
        (current previous : F)
        → d.le current nought ≡ false
        → d.le previous nought ≡ false
        → (r : MovementResult F) × (compute_sharp_movement threshold_pct current previous
            ≡ some (success r))
    unfolding compute_sharp_movement
    compute_sharp_movement-success current previous hc hp =
        let pct = d.abs (d.mul (d.div (d.sub current previous) previous) (d.dec 100 1)) in
        let (c, e) = confidence_of-some (d.le threshold_pct pct) pct in rw (hp, hc, e) (_, refl)

    compare_tick-Ends :
        (tick : OddsTick F) (before : Option F) (s : ReplayState F)
        → d.le tick.decimal nought ≡ false
        → ((p : F) → before ≡ some p → d.le p nought ≡ false)
        → IsPaired s.positions s.signals_detected
        → Seen s
        → Ends (
            compare_tick threshold_pct uuid now ts_to_iso fixture_id winner final_score tick before
              s)
    compare_tick-Ends tick none s pos before h seen = (h, seen)
    compare_tick-Ends tick (some previous) s pos before h seen =
        let (r, e) =
          compute_sharp_movement-success tick.decimal previous pos (before previous refl) in
        elim (Bool-cases (d.lt (d.abs (d.sub tick.decimal previous)) d.epsilon)) [
          | inl t ↦ rw t (h, seen)
          | inr t ↦ rw (t, e) (on_movement-Ends tick previous s r h seen)
        ]

    replay_tick-Ends :
        (s : ReplayState F) (tick : OddsTick F)
        → d.le tick.decimal nought ≡ false
        → IsPaired s.positions s.signals_detected
        → Seen s
        → Ends (replay_tick threshold_pct uuid now ts_to_iso fixture_id winner final_score s tick)
    unfolding replay_tick
    replay_tick-Ends s tick pos h seen =
        compare_tick-Ends tick (s.last_seen tick.outcome) (see_tick tick s) pos (seen tick.outcome)
          h
          λ o p e. elim (Bool-cases (text_eq o tick.outcome)) [
            | inl t ↦ ground (arith, e, t, pos)
            | inr t ↦ seen o p (ground (arith, e, t))
          ]

    Ends-and_then :
        (m : Option (Attempt (ReplayState F)))
        (f : ReplayState F → Option (Attempt (ReplayState F)))
        → Ends m
        → ((s : ReplayState F) → IsPaired s.positions s.signals_detected → Seen s → Ends (f s))
        → Ends (and_then m f)
    Ends-and_then none f h k = h
    Ends-and_then (some (failure e)) f h k = h
    Ends-and_then (some (success s)) f h k = k s h.0 h.1

    replay_ticks-Ends :
        (s : ReplayState F) (ticks : List (OddsTick F))
        → ArePositive ticks
        → IsPaired s.positions s.signals_detected
        → Seen s
        → Ends (replay_ticks threshold_pct uuid now ts_to_iso fixture_id winner final_score s ticks)
    unfolding replay_ticks
    replay_ticks-Ends s [] pos h seen = (h, seen)
    replay_ticks-Ends s (t ∷ ts) pos h seen =
        Ends-and_then
          (replay_tick threshold_pct uuid now ts_to_iso fixture_id winner final_score s t)
          (λ s'. replay_ticks threshold_pct uuid now ts_to_iso fixture_id winner final_score s' ts)
          (replay_tick-Ends s t pos.0 h seen) λ s' h' seen'. replay_ticks-Ends s' ts pos.1 h' seen'

    Ends-AreOpposite : (m : Option (Attempt (ReplayState F))) → Ends m → AreOpposite m
    unfolding tally from_positions
    Ends-AreOpposite none h = h
    Ends-AreOpposite (some (failure e)) h = h
    Ends-AreOpposite (some (success s)) h = omega (arith, h.0.follows, h.0.fades, h.0.winners)

    -- A replay of ticks whose odds are above zero succeeds, without an error or a panic, and its two agents
    -- mirror each other: up to the wrap of the 32-bit counts, each has taken one position per signal,
    -- and exactly one of the two has won each.
    pub replay_fixture-AreOpposite :
        (ticks : List (OddsTick F))
        → ArePositive ticks
        → AreOpposite
            (replay_fixture threshold_pct uuid now ts_to_iso fixture_id winner final_score ticks)
    unfolding replay_fixture keep
    replay_fixture-AreOpposite ticks pos =
        Ends-AreOpposite
          (replay_fixture threshold_pct uuid now ts_to_iso fixture_id winner final_score ticks)
          (replay_ticks-Ends fresh_replay ticks pos
            (record { follows = refl; fades = refl; winners = omega arith }) λ o p e. absurd cc)
