-- ===== src/Wager.antt =====
-- crates/txodds-types/src/wager.rs: the wager, its lifecycle and debate transcript, and the two
-- functions of the market's arithmetic.
pub mod Kelly
pub mod Debate
use txodds_agent_desk.Prelude.{
  ℕ, zero, ◌+◌, ◌%◌, ◌^◌, Bool, true, false, not, ◌&&◌, ◌||◌, Option, none, some, List, [], ◌∷◌,
  ◌++◌, max, if◌then◌else◌,
}
use txodds_agent_desk.Text.{Text}
use txodds_agent_desk.Float.{Float, nought, one, clamp}

pub data Selection : Type 0 where
  home draw away : Selection

pub data WagerStatus : Type 0 where
  proposed debated no_bet proof_passed proof_failed signed settled refunded : WagerStatus

pub record DebateContribution (F : Type 0) : Type 0 where
  pub agent_id : Text
  pub round : ℕ  -- u64
  pub kind : Text
  pub summary : Text
  pub prob : Option F
  pub confidence : Option F
  pub targets : List Text

pub record DebateSummary (F : Type 0) : Type 0 where
  pub rounds : ℕ  -- u64
  pub converged : Bool
  pub contributions : List (DebateContribution F)

pub record Wager (F : Type 0) : Type 0 where
  pub wager_id : Text
  pub fixture_id : ℕ
  pub selection : Selection
  pub model_prob : F
  pub market_implied : F
  pub edge : F
  pub fair_odds : F
  pub stake_sol : F
  pub thesis : Text
  pub proof_ref : Option Text
  pub status : WagerStatus
  pub debate : Option (DebateSummary F)
  pub created_at : Text

module _ {F : Type 0} where
  abbrev empty_debate : DebateSummary F
  empty_debate = record { rounds = 0; converged = true; contributions = [] }

  abbrev debate_or_empty : Option (DebateSummary F) → DebateSummary F
  debate_or_empty none = empty_debate
  debate_or_empty (some s) = s

  unfoldable pub push_debate : Wager F → DebateContribution F → Wager F
  push_debate w c =
      let s = debate_or_empty w.debate in
      record w {
        debate =
            some (record s {
              rounds = max s.rounds c.round;
              contributions = s.contributions ++ c ∷ [];
            });
      }

  -- The sum wraps, as in a release build.
  abbrev next_round : Option (DebateSummary F) → ℕ
  next_round none = 1
  next_round (some s) = (s.rounds + 1) % 2 ^ 64

  unfoldable pub next_debate_round : Wager F → ℕ
  next_debate_round w = next_round w.debate

module _ {F : Type 0} ⦃d : Float F⦄ where
  open d use {lt, le, is_finite, sub, mul, div}

  unfoldable pub has_value : Wager F → F → Bool
  has_value w min_edge = lt min_edge w.edge && lt nought w.model_prob && lt w.model_prob one

  -- `none` is a panic of the final `clamp`.
  unfoldable pub kelly_fraction : F → F → Option F
  kelly_fraction model_prob fair_odds =
      if not (is_finite model_prob && is_finite fair_odds)
      then some nought
      else if le model_prob nought || le one model_prob || le fair_odds one
      then some nought
      else let b = sub fair_odds one in
        let q = sub one model_prob in clamp (div (sub (mul b model_prob) q) b) nought one

  unfoldable pub implied_probability : F → Option F
  implied_probability decimal_odds =
      if is_finite decimal_odds && lt one decimal_odds then some (div one decimal_odds) else none
