-- ===== src/Ledger/Persisted.antt =====
-- What the end of a round in native/src/services/agent/runtime/persistence.rs leaves in the tables of
-- native/src/services/ledger/store.rs if it succeeds.
use mathlib.Core.Path.{subst}
use txodds_agent_desk.Prelude.{◌≡◌, refl, sym, ap, ◌∙◌, Option, none, some, List, [], ◌∷◌}
use txodds_agent_desk.Text.{Text}
use txodds_agent_desk.Event.{TxLineEvent, TxLineProofReceipt}
use txodds_agent_desk.Run.{AgentRun}
use txodds_agent_desk.Decision.{AgentDecision}
use txodds_agent_desk.Ledger.{Db, AppError, Result, ok, err, Serde, LlmResponse, DecisionRow}
use txodds_agent_desk.Ledger.Store.{
  upsert_run, insert_agent_observation, insert_proof_receipt, insert_llm_call,
  insert_agent_decision, run_all, decision_writes, persist_run, Write,
}
use txodds_agent_desk.Ledger.Stored.{
  RunStored, ObservationStored, ReceiptStored, LlmCallStored, DecisionStored, upsert_run-RunStored,
  insert_agent_observation-ObservationStored, insert_proof_receipt-ReceiptStored,
  insert_llm_call-LlmCallStored, insert_agent_decision-DecisionStored,
}

-- Statements succeed if each of them does.
run_all-first :
    (w : Write) (ws : List Write) (db db' : Db)
    → run_all (w ∷ ws) db ≡ (none, db')
    → (d : Db) × ((w db ≡ ok d) × (run_all ws d ≡ (none, db')))
run_all-first w ws db db' h = go (w db) refl h
  where
    go :
        (r : Result Db)
        → w db ≡ r
        → elim r as (λ _. Option AppError × Db) [ ok d ↦ run_all ws d | err x ↦ (some x, db) ]
          ≡ (none, db')
        → (d : Db) × ((w db ≡ ok d) × (run_all ws d ≡ (none, db')))
    go (ok d) e k = (d, (e, k))
    go (err x) e k = absurd cc

-- A relation of rows before and after holds of equal rows.
carry : {A : Type 0} (P : A → A → Type 0) {a a' b b' : A} → a ≡ a' → b' ≡ b → P a b → P a' b'
carry P {a} {a'} {b} {b'} e g h = subst (λ x. P x b') e (subst (P a) (sym g) h)

module _ {F : Type 0} (s : Serde F) (now uuid : Text) where
  pub record IsStored (run : AgentRun F) (event : TxLineEvent F) (receipt : TxLineProofReceipt)
      (decision : Option (AgentDecision F)) (response : LlmResponse) (k : Text) (db db' : Db)
      : Type 0 where
    pub runs : RunStored s now uuid run k db.runs db'.runs
    pub observations :
        ObservationStored s now uuid run.run_id event k db.agent_observations db'.agent_observations
    pub receipts :
        ReceiptStored s now uuid run.run_id receipt k db.proof_receipts db'.proof_receipts
    pub llm_calls :
        LlmCallStored s now uuid run.run_id response db.agent_llm_calls db'.agent_llm_calls
    pub decisions :
        DecisionStored s now uuid run.run_id decision k db.agent_decisions db'.agent_decisions
    pub signals : db'.agent_signals ≡ db.agent_signals

  decision_writes-DecisionStored :
      (run_id : Text) (decision : Option (AgentDecision F)) (k : Text) (db db' : Db)
      → run_all (decision_writes s now uuid run_id decision) db ≡ (none, db')
      → (rows : List DecisionRow) × (DecisionStored s now uuid run_id decision k db.agent_decisions
            rows
          × (db' ≡ record db { agent_decisions = rows }))
  decision_writes-DecisionStored run_id none k db db' h = (db.agent_decisions, (refl, cc))
  decision_writes-DecisionStored run_id (some decision) k db db' h =
      let (d, (did, rest)) =
        run_all-first (insert_agent_decision s now uuid run_id decision) [] db db' h in
      let (rows, (stored, e)) =
        insert_agent_decision-DecisionStored s now uuid run_id decision k db d did in
      let last : db' ≡ d = cc in (rows, (stored, last ∙ e))

  -- If the end of a round reports no error, the run, its observation, its receipt and its decision, if
  -- any, are in their tables under their keys with the JSON of what was stored: a new row with all its
  -- columns, or the row that was there with only the columns of the conflict clause changed. The call
  -- of the model is a new row at the end of its table, whose key was free. Every number that was stored
  -- is below 2^63, the row of any other key is as before, and so are the signals.
  pub persist_run-IsStored :
      (run : AgentRun F) (event : TxLineEvent F) (receipt : TxLineProofReceipt)
      (decision : Option (AgentDecision F)) (response : LlmResponse) (k : Text) (db db' : Db)
      → persist_run s now uuid run event receipt decision response db ≡ (none, db')
      → IsStored run event receipt decision response k db db'
  unfolding persist_run
  persist_run-IsStored run event receipt decision response k db db' h =
      let w4s : List Write = decision_writes s now uuid run.run_id decision in
      let w3s : List Write = insert_llm_call s now uuid run.run_id response ∷ w4s in
      let w2s : List Write = insert_proof_receipt s now uuid run.run_id receipt ∷ w3s in
      let w1s : List Write = insert_agent_observation s now uuid run.run_id event ∷ w2s in
      let (d1, (w1, h1)) = run_all-first (upsert_run s now uuid run) w1s db db' h in
      let (d2, (w2, h2)) =
        run_all-first (insert_agent_observation s now uuid run.run_id event) w2s d1 db' h1 in
      let (d3, (w3, h3)) =
        run_all-first (insert_proof_receipt s now uuid run.run_id receipt) w3s d2 db' h2 in
      let (d4, (w4, h4)) =
        run_all-first (insert_llm_call s now uuid run.run_id response) w4s d3 db' h3 in
      let (rows1, (s1, e1)) = upsert_run-RunStored s now uuid run k db d1 w1 in
      let (rows2, (s2, e2)) =
        insert_agent_observation-ObservationStored s now uuid run.run_id event k d1 d2 w2 in
      let (rows3, (s3, e3)) =
        insert_proof_receipt-ReceiptStored s now uuid run.run_id receipt k d2 d3 w3 in
      let (rows4, (s4, e4)) =
        insert_llm_call-LlmCallStored s now uuid run.run_id response d3 d4 w4 in
      let (rows5, (s5, e5)) = decision_writes-DecisionStored run.run_id decision k d4 db' h4 in
      let put2 : Db → Db = λ d. record d { agent_observations = rows2 } in
      let put3 : Db → Db = λ d. record d { proof_receipts = rows3 } in
      let put4 : Db → Db = λ d. record d { agent_llm_calls = rows4 } in
      let put5 : Db → Db = λ d. record d { agent_decisions = rows5 } in
      let t2 = e2 ∙ ap put2 e1 in
      let t3 = e3 ∙ ap put3 t2 in
      let t4 = e4 ∙ ap put4 t3 in
      let t5 = e5 ∙ ap put5 t4 in
      record {
        runs = carry (RunStored s now uuid run k) refl (ap (λ d. d.runs) t5) s1;
        observations =
            carry (ObservationStored s now uuid run.run_id event k)
              (ap (λ d. d.agent_observations) e1) (ap (λ d. d.agent_observations) t5) s2;
        receipts =
            carry (ReceiptStored s now uuid run.run_id receipt k) (ap (λ d. d.proof_receipts) t2)
              (ap (λ d. d.proof_receipts) t5) s3;
        llm_calls =
            carry (LlmCallStored s now uuid run.run_id response) (ap (λ d. d.agent_llm_calls) t3)
              (ap (λ d. d.agent_llm_calls) t5) s4;
        decisions =
            carry (DecisionStored s now uuid run.run_id decision k) (ap (λ d. d.agent_decisions) t4)
              (ap (λ d. d.agent_decisions) t5) s5;
        signals = ap (λ d. d.agent_signals) t5;
      }
