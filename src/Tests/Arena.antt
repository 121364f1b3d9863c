-- ===== src/Tests/Arena.antt =====
-- Runs of `Arena`.
use txodds_agent_desk.Prelude.{◌+◌, ◌^◌, ◌<◌, Bool, true, false, none, some, [], ◌∷◌, arith, List}
use txodds_agent_desk.Text.{Text, text_eq}
use txodds_agent_desk.Float.Micro.{Micro, micro_float, literal}
use txodds_agent_desk.Arena.{follow_sharp, with, ArenaPosition, keep}
use txodds_agent_desk.Arena.Leaderboard.{settled_of}

abbrev me : Text
me = b'm' ∷ []

abbrev them : Text
them = b't' ∷ []

abbrev position : Text → Bool → ArenaPosition Micro
position agent_id won = record {
  position_id = [];
  agent_id = agent_id;
  strategy = follow_sharp;
  fixture_id = 7;
  market_key = [];
  selection = [];
  odds_at_entry = literal 2 1;
  odds_move_pct = literal 5 1;
  direction = with;
  confidence = literal 8 10;
  recorded_at = [];
  tx_signature = none;
  outcome = some (record {
    selection_won = won;
    final_score = [];
    pnl_points = literal 1 1;
    settled_at = [];
    settlement_tx = none;
  });
}

abbrev first : List (ArenaPosition Micro)
first = position me true ∷ position them true ∷ []

abbrev second : List (ArenaPosition Micro)
second = position me false ∷ []

few : settled_of me first + settled_of me second < 2 ^ 32
unfolding keep text_eq
few = omega arith
