-- ===== src/Tests/Ledger.antt =====
-- Runs of `Ledger`.
use txodds_agent_desk.Prelude.{
  ℕ, zero, suc, ◌≡◌, refl, true, false, Option, none, some, List, [], ◌∷◌, if◌then◌else◌, any, take,
}
use txodds_agent_desk.Prelude.Int.{ℤ, pos}
use txodds_agent_desk.Text.{Text, lit, text_eq, text_eq_refl}
use txodds_agent_desk.Float.Micro.{Micro, micro_float, literal}
use txodds_agent_desk.Event.{TxLineProofReceipt, settlement, not_started}
use txodds_agent_desk.Run.{AgentRun}
use txodds_agent_desk.Arena.{ArenaPosition, follow_sharp, with}
use txodds_agent_desk.Ledger.{Db, Serde, LlmResponse, ReceiptRow, ok, simulation_debug}
use txodds_agent_desk.Ledger.Table.{row_at}
use txodds_agent_desk.Ledger.Store.{
  receipt_key, receipt_id, insert_proof_receipt, get_run, persist_run,
}
use txodds_agent_desk.Ledger.Persisted.{IsStored, persist_run-IsStored}
use txodds_agent_desk.Ledger.Readback.{get_run-persist_run, insert_proof_receipt-stale}
use txodds_agent_desk.Ledger.Backtests.{BacktestSettlementRow, replace_backtest_settlements}
use txodds_agent_desk.Ledger.Replace.{IsReplaced, replace_backtest_settlements-IsReplaced}
use txodds_agent_desk.Ledger.Sessions.{ArenaPositionRow, FixtureMeta, session_of, on_fixture}
use txodds_agent_desk.Tests.{whistle, proof_of_7}
use txodds_agent_desk.Ledger.Sessions.Status.{
  status_meant, seen, session_of-status, session_of-hidden,
}

abbrev no_json : {A : Type 0} → A → Option Text
no_json a = some []

-- The run that every text of the table holds.
abbrev stored : AgentRun Micro
stored = record {
  run_id = b'r' ∷ [];
  track = settlement;
  trigger = whistle;
  bids = [];
  winner = none;
  delivery = none;
  verdict = none;
  settlement = none;
  timeline = [];
}

abbrev serde : Serde Micro
serde = record {
  event_json = no_json;
  run_json = no_json;
  parse_run = λ t. some stored;
  signal_json = no_json;
  decision_json = no_json;
  receipt_json = no_json;
  llm_json = no_json;
}

abbrev no_rows : Db
no_rows = record {
  runs = [];
  agent_observations = [];
  agent_signals = [];
  agent_decisions = [];
  proof_receipts = [];
  agent_llm_calls = [];
}

abbrev silent : LlmResponse
silent = record { provider = []; model = []; text = []; used = false; reason = none }

abbrev ended : Db
ended = (persist_run serde [] [] stored whistle proof_of_7 none silent no_rows).1

succeeds : persist_run serde [] [] stored whistle proof_of_7 none silent no_rows ≡ (none, ended)
unfolding persist_run
succeeds = refl

persist_run-IsStored_example :
    IsStored serde [] [] stored whistle proof_of_7 none silent (b'k' ∷ []) no_rows ended
persist_run-IsStored_example =
    persist_run-IsStored serde [] [] stored whistle proof_of_7 none silent (b'k' ∷ []) no_rows ended
      succeeds

get_run-persist_run_example :
    get_run serde [] []
      (b'r' ∷ [])
      (persist_run serde [] [] stored whistle proof_of_7 none silent no_rows).1
    ≡ (if text_eq (b'r' ∷ []) (b'r' ∷ [])
        then ok stored
        else get_run serde [] [] (b'r' ∷ []) no_rows)
get_run-persist_run_example =
    get_run-persist_run serde [] [] stored whistle proof_of_7 none silent no_rows [] [] (b'r' ∷ [])
      refl refl refl

-- A receipt that was not verified when it was first stored.
abbrev unverified : TxLineProofReceipt
unverified = record proof_of_7 { verified = false; simulation_status = not_started }

abbrev first_row : ReceiptRow
first_row = record {
  id = receipt_id serde [] [] [] proof_of_7;
  run_id = [];
  fixture_id = 7;
  seq = none;
  status = simulation_debug not_started;
  verified = false;
  receipt_json = b'{' ∷ [];
  created_at = [];
}

abbrev one_receipt : Db
one_receipt = record no_rows { proof_receipts = first_row ∷ [] }

abbrev verified_later : Db
verified_later = record no_rows { proof_receipts = record first_row { receipt_json = [] } ∷ [] }

first_row_found :
    row_at receipt_key (receipt_id serde [] [] [] proof_of_7) one_receipt.proof_receipts
    ≡ some first_row
unfolding row_at
first_row_found = rw (text_eq_refl (receipt_id serde [] [] [] proof_of_7)) refl

insert_verified : insert_proof_receipt serde [] [] [] proof_of_7 one_receipt ≡ ok verified_later
unfolding insert_proof_receipt lit text_eq
insert_verified = refl

insert_proof_receipt-stale_example :
    row_at receipt_key (receipt_id serde [] [] [] proof_of_7) verified_later.proof_receipts
    ≡ some (record first_row { receipt_json = [] })
insert_proof_receipt-stale_example =
    insert_proof_receipt-stale serde [] [] [] [] proof_of_7 first_row one_receipt verified_later
      refl first_row_found insert_verified

abbrev backtest_position : ArenaPosition Micro
backtest_position = record {
  position_id = b'p' ∷ [];
  agent_id = [];
  strategy = follow_sharp;
  fixture_id = 7;
  market_key = [];
  selection = [];
  odds_at_entry = literal 2 1;
  odds_move_pct = literal 5 1;
  direction = with;
  confidence = literal 5 10;
  recorded_at = [];
  tx_signature = none;
  outcome = some (record {
    selection_won = true;
    final_score = [];
    pnl_points = literal 1 1;
    settled_at = [];
    settlement_tx = none;
  });
}

abbrev no_settlements : List (BacktestSettlementRow Micro)
no_settlements = []

replace_backtest_settlements-IsReplaced_example :
    IsReplaced
      (pos 7)
      []
      []
      (backtest_position ∷ [])
      no_settlements
      (replace_backtest_settlements (pos 7) [] [] (backtest_position ∷ []) no_settlements)
replace_backtest_settlements-IsReplaced_example =
    replace_backtest_settlements-IsReplaced (pos 7) [] [] (backtest_position ∷ []) no_settlements tt

abbrev won_position : ArenaPositionRow Micro
won_position = record {
  position_id = [];
  agent_id = [];
  strategy = [];
  fixture_id = pos 7;
  market_key = [];
  selection = [];
  odds_at_entry = literal 2 1;
  odds_move_pct = literal 5 1;
  direction = [];
  confidence = literal 5 10;
  recorded_at = [];
  tx_signature = none;
  outcome_won = some true;
  outcome_pnl = none;
  outcome_settled_at = some [];
}

abbrev as_stored : List (ArenaPositionRow Micro) → List (ArenaPositionRow Micro)
as_stored rows = rows

abbrev all_metas : List FixtureMeta → List FixtureMeta
all_metas metas = metas

abbrev no_name : ℤ → Option Text
no_name n = none

abbrev meta_of : ℤ → FixtureMeta
meta_of n = record { fixture_id = n; started_at = []; last_at = [] }

session_of-status_example :
    let session = session_of as_stored all_metas no_name (won_position ∷ []) (meta_of (pos 7)) in
    (session.positions ≡ seen as_stored all_metas no_name (won_position ∷ []) (meta_of (pos 7)))
    × (session.status
        ≡ status_meant (seen as_stored all_metas no_name (won_position ∷ []) (meta_of (pos 7))))
session_of-status_example =
    session_of-status as_stored all_metas no_name (won_position ∷ []) (meta_of (pos 7))

-- A thousand newer positions of another fixture before the one that was won.
newer : ℕ → List (ArenaPositionRow Micro)
newer zero = won_position ∷ []
newer (suc n) = record won_position { fixture_id = pos 8 } ∷ newer n

newer-others : any (on_fixture (pos 7)) (take 1000 (newer 1000)) ≡ false
unfolding newer
newer-others = refl

session_of-hidden_example :
    let session = session_of as_stored all_metas no_name (newer 1000) (meta_of (pos 7)) in
    (session.positions ≡ []) × (session.status ≡ lit "active") × (session.ended_at ≡ none)
session_of-hidden_example =
    session_of-hidden as_stored all_metas no_name (newer 1000) (meta_of (pos 7)) newer-others
