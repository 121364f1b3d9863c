-- ===== src/Tests.antt =====
-- Sample data, and runs of the model on it.
mod Market
mod Guard
mod Desk
mod Limits
mod Line
mod Loop
mod Arena
mod Auto
mod Bridge
mod Feed
mod Fundamentals
mod Ledger
mod Replay
mod Settle
mod Request
use txodds_agent_desk.Prelude.{ℕ, true, none, some, [], ◌∷◌}
use txodds_agent_desk.Prelude.Int.{pos}
use txodds_agent_desk.Text.{Text, lit}
use txodds_agent_desk.Float.Micro.{Micro, micro_float, literal}
use txodds_agent_desk.Wager.{Wager, DebateContribution, home, proposed, settled}
use txodds_agent_desk.Authority.{AuthorityPolicy}
use txodds_agent_desk.ProofGuard.{ProofGuardConfig}
use txodds_agent_desk.Event.{TxLineEvent, TxLineProofReceipt, passed, final_whistle, not_started}

-- Model probability 0.6 at odds 2.0: an edge of 0.1.
abbrev pub backed_home : Wager Micro
backed_home = record {
  wager_id = lit "w-1";
  fixture_id = 7;
  selection = home;
  model_prob = literal 6 10;
  market_implied = literal 5 10;
  edge = literal 1 10;
  fair_odds = literal 16667 10000;
  stake_sol = literal 1 100;
  thesis = lit "home form";
  proof_ref = none;
  status = proposed;
  debate = none;
  created_at = [];
}

-- The same proposal with figures of its own making.
abbrev pub inflated : Wager Micro
inflated = record backed_home { edge = literal 9 10; stake_sol = literal 900 1; status = settled }

abbrev pub two_to_one : Micro
two_to_one = literal 2 1

abbrev pub small_cap : AuthorityPolicy Micro
small_cap = record {
  min_edge = literal 2 100;
  kelly_fraction_multiplier = literal 25 100;
  bankroll_sol = literal 1 1;
  max_devnet_spend_sol = literal 1 100;
}

abbrev pub loose : ProofGuardConfig Micro
loose = record { consistency_tol = literal 2 100; max_devnet_spend_sol = literal 1 1 }

abbrev pub reference : Text
reference = b't' ∷ b'x' ∷ b'o' ∷ b':' ∷ b'1' ∷ b'2' ∷ b'3' ∷ b'4' ∷ b'5' ∷ []

-- Eleven letters, an emoji, and more than 20 bytes in all.
abbrev pub eleven : Text
eleven = b'a' ∷ b'b' ∷ b'c' ∷ b'd' ∷ b'e' ∷ b'f' ∷ b'g' ∷ b'h' ∷ b'i' ∷ b'j' ∷ b'k' ∷ []

abbrev pub contribution : ℕ → DebateContribution Micro
contribution n = record {
  agent_id = lit "contrarian";
  round = n;
  kind = lit "critique";
  summary = [];
  prob = none;
  confidence = none;
  targets = [];
}

abbrev pub proof_of_7 : TxLineProofReceipt
proof_of_7 = record {
  fixture_id = 7;
  seq = none;
  stat_key = none;
  stat_keys = lit "score.home" ∷ [];
  txline_ts = none;
  epoch_day = none;
  merkle_root = none;
  stat_proof_hash = none;
  root_pda = none;
  txline_program = none;
  root_observed_slot = none;
  proof_present = true;
  root_present = true;
  simulation_status = passed;
  verified = true;
  note = [];
  raw = none;
}

abbrev pub whistle : TxLineEvent Micro
whistle = record {
  id = lit "e-1";
  kind = final_whistle;
  fixture_id = 7;
  seq = none;
  txline_ts = none;
  action = none;
  confirmed = none;
  participant = none;
  period = none;
  stat_keys = [];
  schema_family = none;
  title = lit "Full time";
  body = [];
  ts = [];
  raw = none;
  odds = none;
  score = some (record { home = pos 2; away = pos 1 });
  proof = none;
}
