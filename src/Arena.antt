-- ===== src/Arena.antt =====
-- crates/agent-core/src/arena.rs: the positions of two agents on one feed, and the leaderboard entry
-- computed from them. The conversion of a count to `f64` is the literal of the count.
pub mod Leaderboard
use txodds_agent_desk.Prelude.{
  ℕ, zero, suc, ◌+◌, ◌%◌, ◌^◌, Bool, true, false, ◌&&◌, Option, none, some, List, [], ◌∷◌, length,
  is_empty, is_some, is_some_and, if◌then◌else◌, ltb, map,
}
use txodds_agent_desk.Text.{Text, text_eq}
use txodds_agent_desk.Float.{Float, nought, one, sum_from}

pub data Strategy : Type 0 where
  follow_sharp fade_sharp : Strategy

pub data PositionDirection : Type 0 where
  with against : PositionDirection

pub record PositionOutcome (F : Type 0) : Type 0 where
  pub selection_won : Bool
  pub final_score : Text
  pub pnl_points : F
  pub settled_at : Text
  pub settlement_tx : Option Text

pub record ArenaPosition (F : Type 0) : Type 0 where
  pub position_id : Text
  pub agent_id : Text
  pub strategy : Strategy
  pub fixture_id : ℕ
  pub market_key : Text
  pub selection : Text
  pub odds_at_entry : F
  pub odds_move_pct : F
  pub direction : PositionDirection
  pub confidence : F
  pub recorded_at : Text
  pub tx_signature : Option Text
  pub outcome : Option (PositionOutcome F)

pub data ArenaSessionStatus : Type 0 where
  active pending_settlement settled aborted : ArenaSessionStatus

pub record ArenaSession (F : Type 0) : Type 0 where
  pub session_id : Text
  pub fixture_id : ℕ
  pub fixture_name : Text
  pub positions : List (ArenaPosition F)
  pub status : ArenaSessionStatus
  pub started_at : Text
  pub ended_at : Option Text

pub record AgentLeaderboardEntry (F : Type 0) : Type 0 where
  pub agent_id : Text
  pub strategy : Strategy
  pub sessions_completed : ℕ
  pub positions_taken : ℕ
  pub positions_won : ℕ
  pub total_pnl_points : F
  pub win_rate : F
  pub avg_winning_confidence : F

-- `filter`
unfoldable pub keep {ℓ} : {A : Type ℓ} → (A → Bool) → List A → List A
keep p [] = []
keep p (x ∷ xs) = let rest = keep p xs in if p x then x ∷ rest else rest

-- `as u32`
abbrev u32 : ℕ → ℕ
u32 n = n % 2 ^ 32

module _ {F : Type 0} where
  abbrev pub is_settled_of : Text → ArenaPosition F → Bool
  is_settled_of agent_id p = text_eq p.agent_id agent_id && is_some p.outcome

  abbrev pub has_won : ArenaPosition F → Bool
  has_won p = is_some_and p.outcome λ o. o.selection_won

  abbrev pnl_cons : Option (PositionOutcome F) → List F → List F
  pnl_cons none rest = rest
  pnl_cons (some o) rest = o.pnl_points ∷ rest

  -- `filter_map`
  pnl_points_of : List (ArenaPosition F) → List F
  pnl_points_of [] = []
  pnl_points_of (p ∷ ps) = pnl_cons p.outcome (pnl_points_of ps)

module _ {F : Type 0} ⦃d : Float F⦄ where
  open d use {div, dec, empty_sum}

  unfoldable pub from_positions : Text → Strategy → List (ArenaPosition F) → AgentLeaderboardEntry F
  unfolding keep pnl_points_of
  from_positions agent_id strategy positions =
      let settled = keep (is_settled_of agent_id) positions in
      let won = keep has_won settled in
      let positions_taken = u32 (length settled) in
      let positions_won = u32 (length won) in
      let winning_confidences = map (λ p. p.confidence) won in
      record {
        agent_id = agent_id;
        strategy = strategy;
        sessions_completed = 0;
        positions_taken = positions_taken;
        positions_won = positions_won;
        total_pnl_points = sum_from empty_sum (pnl_points_of settled);
        win_rate =
            if ltb 0 positions_taken
            then div (dec positions_won 1) (dec positions_taken 1)
            else nought;
        avg_winning_confidence =
            if is_empty winning_confidences
            then nought
            else div (sum_from empty_sum winning_confidences) (dec (length winning_confidences) 1);
      }
