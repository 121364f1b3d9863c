-- ===== src/Ledger/Written.antt =====
-- What a statement of native/src/services/ledger/store.rs that succeeds has done to its table.
use txodds_agent_desk.Prelude.{ℕ, ◌<◌, ◌^◌, ◌≡◌, ap, ◌∙◌, Option, none, some, [], ◌∷◌, ◌++◌}
use txodds_agent_desk.Text.{Text, lit}
use txodds_agent_desk.Event.{TxLineEvent, TxLineProofReceipt}
use txodds_agent_desk.Run.{AgentRun}
use txodds_agent_desk.Decision.{AgentDecision}
use txodds_agent_desk.Ledger.Table.{row_at, insert_row, upsert}
use txodds_agent_desk.Ledger.{
  Db, ok, or_error, Serde, LlmResponse, to_sql, to_sql_option, json, sql,
}
use txodds_agent_desk.Ledger.Store.{
  run_key, observation_key, receipt_key, decision_key, llm_key, update_run, update_observation,
  update_receipt, update_decision, upsert_run, insert_agent_observation, insert_proof_receipt,
  insert_agent_decision, insert_llm_call, receipt_id,
}
use txodds_agent_desk.Ledger.Rows.{
  bind-ok, or_error-ok, to_sql-ok, to_sql_option-ok, ok-same, Fits, insert_row-ok, run_row,
  observation_row, receipt_row, llm_row, decision_row,
}

module _ {F : Type 0} (s : Serde F) (now uuid : Text) where
  pub upsert_run-did :
      (run : AgentRun F) (db db' : Db)
      → upsert_run s now uuid run db ≡ ok db'
      → (trigger : Text) × ((text : Text) × ((s.event_json run.trigger ≡ some trigger)
            × ((s.run_json run ≡ some text)
                × (db' ≡ record db {
                  runs = upsert run_key update_run (run_row now run trigger text) db.runs;
                }))))
  unfolding upsert_run
  upsert_run-did run db db' h =
      let (trigger, (et, h1)) = bind-ok (or_error json (s.event_json run.trigger)) _ db' h in
      let (text, (ex, h2)) = bind-ok (or_error json (s.run_json run)) _ db' h1 in
      (
        trigger,
        (text, (or_error-ok json _ trigger et, (or_error-ok json _ text ex, ok-same _ db' h2))),
      )

  pub insert_agent_observation-did :
      (run_id : Text) (event : TxLineEvent F) (db db' : Db)
      → insert_agent_observation s now uuid run_id event db ≡ ok db'
      → (text : Text) × ((s.event_json event ≡ some text)
          × ((event.fixture_id < 2 ^ 63)
              × (db' ≡ record db {
                agent_observations =
                    upsert observation_key update_observation
                      (observation_row run_id event text)
                      db.agent_observations;
              })))
  unfolding insert_agent_observation
  insert_agent_observation-did run_id event db db' h =
      let (text, (ex, h1)) = bind-ok (or_error json (s.event_json event)) _ db' h in
      let (n, (en, h2)) = bind-ok (to_sql event.fixture_id) _ db' h1 in
      let (fits, same) = to_sql-ok event.fixture_id n en in
      (
        text,
        (
          or_error-ok json _ text ex,
          (
            fits,
            ok-same _ db' h2
                ∙ ap
                    (λ fixture_id. record db {
                      agent_observations =
                          upsert observation_key update_observation
                            (record (observation_row run_id event text) { fixture_id = fixture_id })
                            db.agent_observations;
                    })
                    same,
          ),
        ),
      )

  pub insert_proof_receipt-did :
      (run_id : Text) (receipt : TxLineProofReceipt) (db db' : Db)
      → insert_proof_receipt s now uuid run_id receipt db ≡ ok db'
      → (text : Text) × ((s.receipt_json receipt ≡ some text)
          × (((receipt.fixture_id < 2 ^ 63) × Fits receipt.seq)
              × (db' ≡ record db {
                proof_receipts =
                    upsert receipt_key update_receipt
                      (receipt_row now run_id receipt text)
                      db.proof_receipts;
              })))
  unfolding insert_proof_receipt receipt_id
  insert_proof_receipt-did run_id receipt db db' h =
      let (text, (ex, h1)) = bind-ok (or_error json (s.receipt_json receipt)) _ db' h in
      let (n, (en, h2)) = bind-ok (to_sql receipt.fixture_id) _ db' h1 in
      let (q, (eq, h3)) = bind-ok (to_sql_option receipt.seq) _ db' h2 in
      let (fits, same) = to_sql-ok receipt.fixture_id n en in
      let (fits', same') = to_sql_option-ok receipt.seq q eq in
      let table : ℕ → Option ℕ → Db = λ fixture_id seq. record db {
        proof_receipts =
            upsert receipt_key update_receipt
              (record (receipt_row now run_id receipt text) { fixture_id = fixture_id; seq = seq })
              db.proof_receipts;
      } in
      (
        text,
        (
          or_error-ok json _ text ex,
          (
            (fits, fits'),
            ok-same _ db' h3 ∙ ap (λ k. table k q) same ∙ ap (table receipt.fixture_id) same',
          ),
        ),
      )

  pub insert_llm_call-did :
      (run_id : Text) (response : LlmResponse) (db db' : Db)
      → insert_llm_call s now uuid run_id response db ≡ ok db'
      → (text : Text) × ((s.llm_json response ≡ some text)
          × ((row_at llm_key (run_id ++ (lit ":" ++ uuid)) db.agent_llm_calls ≡ none)
              × (db' ≡ record db {
                agent_llm_calls = db.agent_llm_calls ++ llm_row now uuid run_id response text ∷ [];
              })))
  unfolding insert_llm_call
  insert_llm_call-did run_id response db db' h =
      let (text, (ex, h1)) = bind-ok (or_error json (s.llm_json response)) _ db' h in
      let (calls, (ec, h2)) =
        bind-ok
          (or_error sql
            (insert_row llm_key (llm_row now uuid run_id response text) db.agent_llm_calls))
          _ db' h1 in
      let (absent, appended) =
        insert_row-ok llm_key (llm_row now uuid run_id response text) db.agent_llm_calls calls
          (or_error-ok sql _ calls ec) in
      (
        text,
        (
          or_error-ok json _ text ex,
          (absent, ok-same _ db' h2 ∙ ap (λ rows. record db { agent_llm_calls = rows }) appended),
        ),
      )

  pub insert_agent_decision-did :
      (run_id : Text) (decision : AgentDecision F) (db db' : Db)
      → insert_agent_decision s now uuid run_id decision db ≡ ok db'
      → (text : Text) × ((s.decision_json decision ≡ some text)
          × (db' ≡ record db {
            agent_decisions =
                upsert decision_key update_decision
                  (decision_row run_id decision text)
                  db.agent_decisions;
          }))
  unfolding insert_agent_decision
  insert_agent_decision-did run_id decision db db' h =
      let (text, (ex, h1)) = bind-ok (or_error json (s.decision_json decision)) _ db' h in
      (text, (or_error-ok json _ text ex, ok-same _ db' h1))
