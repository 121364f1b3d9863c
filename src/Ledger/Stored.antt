-- ===== src/Ledger/Stored.antt =====
-- What each statement at the end of a round leaves in its table of native/src/services/ledger/store.rs.
use txodds_agent_desk.Prelude.{◌<◌, ◌^◌, ◌≡◌, refl, Option, none, some, List, [], ◌∷◌, ◌++◌}
use txodds_agent_desk.Text.{Text, lit}
use txodds_agent_desk.Decimal.{show_ℕ}
use txodds_agent_desk.Event.{TxLineEvent, TxLineProofReceipt, show_track}
use txodds_agent_desk.Run.{AgentRun}
use txodds_agent_desk.Decision.{AgentDecision}
use txodds_agent_desk.Ledger.Table.{row_at, upsert}
use txodds_agent_desk.Ledger.{
  Db, ok, Serde, LlmResponse, RunRow, ObservationRow, ReceiptRow, LlmCallRow, DecisionRow, seq_text,
}
use txodds_agent_desk.Ledger.Store.{
  run_key, observation_key, receipt_key, llm_key, decision_key, update_run, update_observation,
  update_receipt, update_decision, upsert_run, insert_agent_observation, insert_proof_receipt,
  insert_llm_call, insert_agent_decision,
}
use txodds_agent_desk.Ledger.Rows.{
  Fits, IsUpserted, upsert-IsUpserted, run_row, observation_row, receipt_row, llm_row, decision_row,
}
use txodds_agent_desk.Ledger.Written.{
  upsert_run-did, insert_agent_observation-did, insert_proof_receipt-did, insert_llm_call-did,
  insert_agent_decision-did,
}

module _ {F : Type 0} (s : Serde F) (now uuid : Text) where
  -- One table after the end of a round: its row has the JSON of what was stored and, if it is new, all
  -- its columns; the row of any other key `k` is as before.
  abbrev pub RunStored : AgentRun F → Text → (rows rows' : List RunRow) → Type 0
  RunStored run k rows rows' =
      (trigger : Text) × ((text : Text) × ((s.event_json run.trigger ≡ some trigger)
          × ((s.run_json run ≡ some text)
              × IsUpserted run_key run.run_id k (run_row now run trigger text)
                  (λ r. record r {
                    track = show_track run.track;
                    trigger_json = trigger;
                    run_json = text;
                  })
                  rows rows')))

  abbrev pub ObservationStored :
      Text → TxLineEvent F → Text → (rows rows' : List ObservationRow) → Type 0
  ObservationStored run_id event k rows rows' =
      (text : Text) × ((s.event_json event ≡ some text)
        × ((event.fixture_id < 2 ^ 63)
            × IsUpserted observation_key (run_id ++ (lit ":" ++ event.id)) k
                (observation_row run_id event text) (λ r. record r { event_json = text }) rows
                rows'))

  abbrev pub ReceiptStored :
      Text → TxLineProofReceipt → Text → (rows rows' : List ReceiptRow) → Type 0
  ReceiptStored run_id receipt k rows rows' =
      (text : Text) × ((s.receipt_json receipt ≡ some text)
        × (((receipt.fixture_id < 2 ^ 63) × Fits receipt.seq)
            × IsUpserted receipt_key
                (run_id
                  ++ (lit ":" ++ (show_ℕ receipt.fixture_id ++ (lit ":" ++ seq_text receipt.seq))))
                k (receipt_row now run_id receipt text) (λ r. record r { receipt_json = text }) rows
                rows'))

  abbrev pub LlmCallStored : Text → LlmResponse → (rows rows' : List LlmCallRow) → Type 0
  LlmCallStored run_id response rows rows' =
      (text : Text) × ((s.llm_json response ≡ some text)
        × ((row_at llm_key (run_id ++ (lit ":" ++ uuid)) rows ≡ none)
            × (rows' ≡ rows ++ llm_row now uuid run_id response text ∷ [])))

  abbrev pub DecisionStored :
      Text → Option (AgentDecision F) → Text → (rows rows' : List DecisionRow) → Type 0
  DecisionStored run_id none k rows rows' = rows' ≡ rows
  DecisionStored run_id (some decision) k rows rows' =
      (text : Text) × ((s.decision_json decision ≡ some text)
        × IsUpserted decision_key decision.id k (decision_row run_id decision text)
            (λ r. record r { decision_json = text }) rows rows')

  -- What each statement leaves of its table.
  pub upsert_run-RunStored :
      (run : AgentRun F) (k : Text) (db db' : Db)
      → upsert_run s now uuid run db ≡ ok db'
      → (rows : List RunRow) × (RunStored run k db.runs rows × (db' ≡ record db { runs = rows }))
  upsert_run-RunStored run k db db' h =
      let (trigger, (text, (j0, (j1, e)))) = upsert_run-did s now uuid run db db' h in
      let row : RunRow = run_row now run trigger text in
      let stored = upsert-IsUpserted run_key update_run (λ r new. refl) row k db.runs in
      (upsert run_key update_run row db.runs, ((trigger, (text, (j0, (j1, stored)))), e))

  pub insert_agent_observation-ObservationStored :
      (run_id : Text) (event : TxLineEvent F) (k : Text) (db db' : Db)
      → insert_agent_observation s now uuid run_id event db ≡ ok db'
      → (rows : List ObservationRow) × (ObservationStored run_id event k db.agent_observations rows
          × (db' ≡ record db { agent_observations = rows }))
  insert_agent_observation-ObservationStored run_id event k db db' h =
      let (text, (j, (fits, e))) = insert_agent_observation-did s now uuid run_id event db db' h in
      let row : ObservationRow = observation_row run_id event text in
      let stored =
        upsert-IsUpserted observation_key update_observation (λ r new. refl) row k
          db.agent_observations in
      (
        upsert observation_key update_observation row db.agent_observations,
        ((text, (j, (fits, stored))), e),
      )

  pub insert_proof_receipt-ReceiptStored :
      (run_id : Text) (receipt : TxLineProofReceipt) (k : Text) (db db' : Db)
      → insert_proof_receipt s now uuid run_id receipt db ≡ ok db'
      → (rows : List ReceiptRow) × (ReceiptStored run_id receipt k db.proof_receipts rows
          × (db' ≡ record db { proof_receipts = rows }))
  insert_proof_receipt-ReceiptStored run_id receipt k db db' h =
      let (text, (j, (fits, e))) = insert_proof_receipt-did s now uuid run_id receipt db db' h in
      let row : ReceiptRow = receipt_row now run_id receipt text in
      let stored =
        upsert-IsUpserted receipt_key update_receipt (λ r new. refl) row k db.proof_receipts in
      (upsert receipt_key update_receipt row db.proof_receipts, ((text, (j, (fits, stored))), e))

  pub insert_llm_call-LlmCallStored :
      (run_id : Text) (response : LlmResponse) (db db' : Db)
      → insert_llm_call s now uuid run_id response db ≡ ok db'
      → (rows : List LlmCallRow) × (LlmCallStored run_id response db.agent_llm_calls rows
          × (db' ≡ record db { agent_llm_calls = rows }))
  insert_llm_call-LlmCallStored run_id response db db' h =
      let (text, (j, (absent, e))) = insert_llm_call-did s now uuid run_id response db db' h in
      (
        db.agent_llm_calls ++ llm_row now uuid run_id response text ∷ [],
        ((text, (j, (absent, refl))), e),
      )

  pub insert_agent_decision-DecisionStored :
      (run_id : Text) (decision : AgentDecision F) (k : Text) (db db' : Db)
      → insert_agent_decision s now uuid run_id decision db ≡ ok db'
      → (rows : List DecisionRow) × (DecisionStored run_id (some decision) k db.agent_decisions rows
          × (db' ≡ record db { agent_decisions = rows }))
  insert_agent_decision-DecisionStored run_id decision k db db' h =
      let (text, (j, e)) = insert_agent_decision-did s now uuid run_id decision db db' h in
      let row : DecisionRow = decision_row run_id decision text in
      let stored =
        upsert-IsUpserted decision_key update_decision (λ r new. refl) row k db.agent_decisions in
      (upsert decision_key update_decision row db.agent_decisions, ((text, (j, stored)), e))
