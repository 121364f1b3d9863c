-- ===== src/Backtest.antt =====
-- native/src/services/backtest.rs: the replay of a completed fixture's odds from its parsed ticks and
-- final score on, with `compute_sharp_movement` of crates/rig-venice/src/tools.rs. Fresh identifiers and
-- times are functions of the number of positions so far; the formatting of a time is a parameter.
pub mod Pairs
pub mod Opposites
use txodds_agent_desk.Prelude.{
  ℕ, ◌+◌, Bool, true, false, not, ◌||◌, Option, none, some, List, [], ◌∷◌, ◌++◌, if◌then◌else◌,
  length, is_empty, ◌>>=◌, ltb, leb, ◌&&◌,
}
use txodds_agent_desk.Prelude.Int.{ℤ, ltb_ℤ}
use txodds_agent_desk.Text.{Text, lit, text_eq}
use txodds_agent_desk.Float.{Float, nought, one, clamp}
use txodds_agent_desk.Arena.{
  Strategy, follow_sharp, fade_sharp, PositionDirection, with, against, ArenaPosition,
  AgentLeaderboardEntry, from_positions,
}
use txodds_agent_desk.Autonomous.{OddsTick}
use txodds_agent_desk.ToolLoop.{Attempt, success, failure}

pub record MovementResult (F : Type 0) : Type 0 where
  pub pct_change : F
  pub is_sharp_move : Bool
  pub direction : Text
  pub confidence : F

pub record StrategyTally (F : Type 0) : Type 0 where
  pub agent_id : Text
  pub positions_taken : ℕ
  pub positions_won : ℕ
  pub total_pnl_points : F
  pub win_rate : F

pub record ReplayState (F : Type 0) : Type 0 where
  pub last_seen : Text → Option F
  pub positions : List (ArenaPosition F)
  pub signals_detected : ℕ

abbrev pub follow_agent : Text
follow_agent = lit "match-intelligence-backtest"

abbrev pub fade_agent : Text
fade_agent = lit "contrarian-backtest"

-- `winner`
unfoldable pub winner_of : ℤ → ℤ → Text
winner_of home_score away_score =
    if ltb_ℤ away_score home_score
    then lit "home"
    else if ltb_ℤ home_score away_score
    then lit "away"
    else lit "draw"

abbrev to_ascii_lowercase : ℕ → ℕ
to_ascii_lowercase c = if leb b'A' c && leb c b'Z' then c + 32 else c

unfoldable pub eq_ignore_ascii_case : Text → Text → Bool
eq_ignore_ascii_case [] [] = true
eq_ignore_ascii_case [] (_ ∷ _) = false
eq_ignore_ascii_case (_ ∷ _) [] = false
eq_ignore_ascii_case (a ∷ s) (b ∷ t) =
    text_eq (to_ascii_lowercase a ∷ []) (to_ascii_lowercase b ∷ []) && eq_ignore_ascii_case s t

abbrev pub wins : PositionDirection → Bool → Bool
wins with selection_won = selection_won
wins against selection_won = not selection_won

abbrev pub follow_direction : Bool → PositionDirection
follow_direction shortened = if shortened then with else against

abbrev pub fade_direction : Bool → PositionDirection
fade_direction shortened = if shortened then against else with

module _ {F : Type 0} where
  abbrev pub fresh_replay : ReplayState F
  fresh_replay = record { last_seen = λ o. none; positions = []; signals_detected = 0 }

  abbrev see_tick : OddsTick F → ReplayState F → ReplayState F
  see_tick tick s = record s {
    last_seen = λ o. if text_eq o tick.outcome then some tick.decimal else s.last_seen o;
  }

-- An error, or a panic, or a result to go on with.
abbrev and_then {ℓ κ} :
    {A : Type ℓ} {B : Type κ} → Option (Attempt A) → (A → Option (Attempt B)) → Option (Attempt B)
and_then none f = none
and_then (some (failure e)) f = some (failure e)
and_then (some (success a)) f = f a

-- The error of the tool as the replay reports it.
abbrev task_error {ℓ} : {A : Type ℓ} → Option (Attempt A) → Option (Attempt A)
task_error none = none
task_error (some (failure e)) = some (failure (lit "compute_sharp_movement failed: " ++ e))
task_error (some (success a)) = some (success a)

module _ {F : Type 0} ⦃d : Float F⦄ where
  open d use {lt, le, is_finite, add, sub, mul, div, abs, dec, epsilon}

  -- A number that is not finite is `null` in JSON, and read as the default.
  abbrev as_f64_or : F → F → F
  as_f64_or default x = if is_finite x then x else default

  abbrev pub confidence_of : Bool → F → F → Option F
  confidence_of false threshold_pct pct_change =
      some (mul (div pct_change threshold_pct) (dec 5 10))
  confidence_of true threshold_pct pct_change = do
    scaled ← clamp (div (sub pct_change threshold_pct) threshold_pct) nought one
    some (add (mul scaled (dec 5 10)) (dec 5 10))

  unfoldable pub compute_sharp_movement : F → F → F → Option (Attempt (MovementResult F))
  compute_sharp_movement threshold_pct current previous =
      let pct_change = abs (mul (div (sub current previous) previous) (dec 100 1)) in
      let is_sharp = le threshold_pct pct_change in
      if le previous nought || le current nought
      then some (failure (lit "odds must be positive decimals"))
      else do
        confidence ← confidence_of is_sharp threshold_pct pct_change
        some (
            success (record {
              pct_change = pct_change;
              is_sharp_move = is_sharp;
              direction = if lt current previous then lit "shortening" else lit "drifting";
              confidence = confidence;
            }))

  unfoldable pub settle_position :
      (uuid now : Text) (agent_id : Text)
      → Strategy
      → (fixture_id : ℕ) (selection : Text) (odds_at_entry odds_move_pct : F) → PositionDirection
      → F
      → (recorded_at winner final_score : Text) → ArenaPosition F
  settle_position uuid now agent_id strategy fixture_id selection odds_at_entry odds_move_pct
        direction confidence recorded_at winner final_score =
      let won = wins direction (eq_ignore_ascii_case winner selection) in
      record {
        position_id = uuid;
        agent_id = agent_id;
        strategy = strategy;
        fixture_id = fixture_id;
        market_key = lit "1x2";
        selection = selection;
        odds_at_entry = odds_at_entry;
        odds_move_pct = odds_move_pct;
        direction = direction;
        confidence = confidence;
        recorded_at = recorded_at;
        tx_signature = none;
        outcome = some (record {
          selection_won = won;
          final_score = final_score;
          pnl_points = if won then sub odds_at_entry one else sub nought one;
          settled_at = now;
          settlement_tx = none;
        });
      }

  unfoldable pub tally : Text → Strategy → List (ArenaPosition F) → StrategyTally F
  tally agent_id strategy positions =
      let entry = from_positions agent_id strategy positions in
      record {
        agent_id = entry.agent_id;
        positions_taken = entry.positions_taken;
        positions_won = entry.positions_won;
        total_pnl_points = entry.total_pnl_points;
        win_rate = entry.win_rate;
      }

module _ {F : Type 0} ⦃d : Float F⦄ (threshold_pct : F) (uuid now : ℕ → Text) (ts_to_iso : ℤ → Text)
    (fixture_id : ℕ) (winner final_score : Text) where
  open d use {lt, sub, abs, dec, epsilon}

  -- The position of one of the two agents on a sharp move; `n` positions were taken before.
  abbrev pub position_on :
      OddsTick F → MovementResult F → Text → Strategy → PositionDirection → ℕ → ArenaPosition F
  position_on tick movement agent_id strategy direction n =
      settle_position (uuid n) (now n) agent_id strategy fixture_id tick.outcome tick.decimal
        (as_f64_or nought movement.pct_change) direction (as_f64_or (dec 5 10) movement.confidence)
        (ts_to_iso tick.ts) winner final_score

  unfoldable pub on_movement :
      OddsTick F → F → ReplayState F → MovementResult F → Option (Attempt (ReplayState F))
  on_movement tick previous s movement =
      let shortened = lt tick.decimal previous in
      let n = length s.positions in
      if not movement.is_sharp_move
      then some (success s)
      else some (
          success (record s {
            signals_detected = s.signals_detected + 1;
            positions =
                s.positions
                ++ position_on tick movement follow_agent follow_sharp (follow_direction shortened)
                    n
                  ∷ position_on tick movement fade_agent fade_sharp (fade_direction shortened)
                      (n + 1)
                  ∷ [];
          }))

  abbrev compare_tick : OddsTick F → Option F → ReplayState F → Option (Attempt (ReplayState F))
  compare_tick tick none s = some (success s)
  compare_tick tick (some previous) s =
      if lt (abs (sub tick.decimal previous)) epsilon
      then some (success s)
      else and_then (task_error (compute_sharp_movement threshold_pct tick.decimal previous))
          (on_movement tick previous s)

  unfoldable pub replay_tick : ReplayState F → OddsTick F → Option (Attempt (ReplayState F))
  unfolding on_movement compute_sharp_movement
  replay_tick s tick = compare_tick tick (s.last_seen tick.outcome) (see_tick tick s)

  unfoldable pub replay_ticks : ReplayState F → List (OddsTick F) → Option (Attempt (ReplayState F))
  unfolding replay_tick
  replay_ticks s [] = some (success s)
  replay_ticks s (t ∷ ts) = and_then (replay_tick s t) λ s'. replay_ticks s' ts

  unfoldable pub replay_fixture : List (OddsTick F) → Option (Attempt (ReplayState F))
  unfolding replay_ticks
  replay_fixture ticks = replay_ticks fresh_replay ticks
