-- ===== src/Ledger/Store.antt =====
-- native/src/services/ledger/store.rs: the statements that write and read the tables of a round;
-- native/src/services/agent/runtime/persistence.rs: their order at the end of a round.
use txodds_agent_desk.Prelude.{Option, none, some, List, [], ◌∷◌}
use txodds_agent_desk.Text.{Text}
use txodds_agent_desk.Decimal.{show_ℕ}
use txodds_agent_desk.Event.{TxLineEvent, TxLineProofReceipt, show_track, kind_debug}
use txodds_agent_desk.Run.{AgentRun}
use txodds_agent_desk.Decision.{AgentSignal, AgentDecision}
use txodds_agent_desk.Apply.{action_debug}
use txodds_agent_desk.Ledger.Table.{upsert, row_at, insert_row}
use txodds_agent_desk.Ledger.{
  RunRow, ObservationRow, AgentSignalRow, DecisionRow, ReceiptRow, LlmCallRow, LlmResponse, Db,
  AppError, sql, json, not_found, Result, ok, err, ◌>>=◌, or_error, Serde, to_sql, to_sql_option,
  simulation_debug, first_at, colon, seq_text,
}

-- The `DO UPDATE SET` lists.
abbrev pub update_run : RunRow → RunRow → RunRow
update_run old new = record old {
  track = new.track;
  trigger_json = new.trigger_json;
  run_json = new.run_json;
}

abbrev pub update_observation : ObservationRow → ObservationRow → ObservationRow
update_observation old new = record old { event_json = new.event_json }

abbrev pub update_signal : AgentSignalRow → AgentSignalRow → AgentSignalRow
update_signal old new = record old { signal_json = new.signal_json }

abbrev pub update_decision : DecisionRow → DecisionRow → DecisionRow
update_decision old new = record old { decision_json = new.decision_json }

abbrev pub update_receipt : ReceiptRow → ReceiptRow → ReceiptRow
update_receipt old new = record old { receipt_json = new.receipt_json }

abbrev pub run_key : RunRow → Text
run_key r = r.run_id

abbrev pub observation_key : ObservationRow → Text
observation_key r = r.id

abbrev pub signal_key : AgentSignalRow → Text
signal_key r = r.id

abbrev pub decision_key : DecisionRow → Text
decision_key r = r.id

abbrev pub receipt_key : ReceiptRow → Text
receipt_key r = r.id

abbrev pub llm_key : LlmCallRow → Text
llm_key r = r.id

-- The statements of a round's end, each committed by itself; an error stops them and leaves what was
-- written before.
abbrev pub Write : Type 0
Write = Db → Result Db

abbrev pub run_all : List Write → Db → Option AppError × Db
run_all [] db = (none, db)
run_all (w ∷ ws) db = elim (w db) [ ok db' ↦ run_all ws db' | err e ↦ (some e, db) ]

module _ {F : Type 0} (s : Serde F) (now uuid : Text) where
  open s use {event_json, run_json, signal_json, decision_json, receipt_json, llm_json, parse_run}

  unfoldable pub upsert_run : AgentRun F → Db → Result Db
  unfolding upsert show_track
  upsert_run run db = do
    trigger ← or_error json (event_json run.trigger)
    text ← or_error json (run_json run)
    ok (record db {
      runs =
          upsert run_key update_run
            (record {
              run_id = run.run_id;
              track = show_track run.track;
              trigger_json = trigger;
              run_json = text;
              created_at = first_at run.timeline now;
            })
            db.runs;
    })

  unfoldable pub insert_agent_observation : Text → TxLineEvent F → Db → Result Db
  unfolding upsert kind_debug to_sql
  insert_agent_observation run_id event db = do
    text ← or_error json (event_json event)
    fixture_id ← to_sql event.fixture_id
    ok (record db {
      agent_observations =
          upsert observation_key update_observation
            (record {
              id = colon run_id event.id;
              run_id = run_id;
              fixture_id = fixture_id;
              event_id = event.id;
              event_kind = kind_debug event.kind;
              event_json = text;
              created_at = event.ts;
            })
            db.agent_observations;
    })

  unfoldable pub insert_agent_signal : Text → AgentSignal F → Db → Result Db
  unfolding upsert to_sql
  insert_agent_signal run_id signal db = do
    text ← or_error json (signal_json signal)
    fixture_id ← to_sql signal.fixture_id
    ok (record db {
      agent_signals =
          upsert signal_key update_signal
            (record {
              id = signal.id;
              run_id = run_id;
              fixture_id = fixture_id;
              signal_json = text;
              created_at = signal.created_at;
            })
            db.agent_signals;
    })

  unfoldable pub insert_agent_decision : Text → AgentDecision F → Db → Result Db
  unfolding upsert action_debug
  insert_agent_decision run_id decision db = do
    text ← or_error json (decision_json decision)
    ok (record db {
      agent_decisions =
          upsert decision_key update_decision
            (record {
              id = decision.id;
              run_id = run_id;
              signal_id = decision.signal_id;
              action = action_debug decision.action;
              decision_json = text;
              created_at = decision.created_at;
            })
            db.agent_decisions;
    })

  unfoldable pub receipt_id : Text → TxLineProofReceipt → Text
  unfolding show_ℕ
  receipt_id run_id receipt =
      colon run_id (colon (show_ℕ receipt.fixture_id) (seq_text receipt.seq))

  unfoldable pub insert_proof_receipt : Text → TxLineProofReceipt → Db → Result Db
  unfolding upsert to_sql simulation_debug receipt_id
  insert_proof_receipt run_id receipt db = do
    text ← or_error json (receipt_json receipt)
    fixture_id ← to_sql receipt.fixture_id
    seq ← to_sql_option receipt.seq
    ok (record db {
      proof_receipts =
          upsert receipt_key update_receipt
            (record {
              id = receipt_id run_id receipt;
              run_id = run_id;
              fixture_id = fixture_id;
              seq = seq;
              status = simulation_debug receipt.simulation_status;
              verified = receipt.verified;
              receipt_json = text;
              created_at = now;
            })
            db.proof_receipts;
    })

  unfoldable pub insert_llm_call : Text → LlmResponse → Db → Result Db
  unfolding insert_row
  insert_llm_call run_id response db = do
    text ← or_error json (llm_json response)
    calls ← or_error sql (
        insert_row llm_key
          (record {
            id = colon run_id uuid;
            run_id = run_id;
            provider = response.provider;
            model = response.model;
            used = response.used;
            response_json = text;
            created_at = now;
          })
          db.agent_llm_calls)
    ok (record db { agent_llm_calls = calls })

  -- `query_row` on the primary key
  unfoldable pub get_run : Text → Db → Result (AgentRun F)
  unfolding row_at
  get_run run_id db = do
    row ← or_error (not_found run_id) (row_at run_key run_id db.runs)
    or_error json (parse_run row.run_json)

  abbrev pub decision_writes : Text → Option (AgentDecision F) → List Write
  decision_writes run_id none = []
  decision_writes run_id (some decision) = insert_agent_decision run_id decision ∷ []

  abbrev pub persist_writes :
      AgentRun F
      → TxLineEvent F
      → TxLineProofReceipt
      → Option (AgentDecision F)
      → LlmResponse
      → List Write
  persist_writes run event receipt decision response =
      upsert_run run
      ∷ insert_agent_observation run.run_id event
      ∷ insert_proof_receipt run.run_id receipt
      ∷ insert_llm_call run.run_id response
      ∷ decision_writes run.run_id decision

  unfoldable pub persist_run :
      AgentRun F
      → TxLineEvent F
      → TxLineProofReceipt
      → Option (AgentDecision F)
      → LlmResponse
      → Db
      → Option AppError × Db
  unfolding upsert_run insert_agent_observation insert_proof_receipt insert_llm_call
      insert_agent_decision
  persist_run run event receipt decision response =
      run_all (persist_writes run event receipt decision response)
