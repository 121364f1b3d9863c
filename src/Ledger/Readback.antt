-- ===== src/Ledger/Readback.antt =====
-- What native/src/services/ledger/store.rs reads back after the end of a round, and the columns that a
-- repeated receipt leaves.
use txodds_agent_desk.Prelude.{
  ◌≡◌, refl, ap, ◌∙◌, Bool, true, false, Option, none, some, List, ◌∷◌, arith, if◌then◌else◌,
}
use mathlib.Core.Path.{subst}
use txodds_agent_desk.Text.{Text, text_eq}
use txodds_agent_desk.Event.{show_track, TxLineEvent, TxLineProofReceipt}
use txodds_agent_desk.Run.{AgentRun}
use txodds_agent_desk.Decision.{AgentDecision}
use txodds_agent_desk.Ledger.Table.{row_at, insert_row, upsert}
use txodds_agent_desk.Ledger.Keys.{row_at-upsert, row_at-upsert_existing, updated}
use txodds_agent_desk.Ledger.{
  Db, AppError, Result, ok, err, ◌>>=◌, or_error, Serde, LlmResponse, to_sql, to_sql_option, json,
  sql, not_found, first_at, RunRow, ReceiptRow,
}
use txodds_agent_desk.Ledger.Store.{
  run_key, receipt_key, llm_key, update_run, update_receipt, upsert_run, insert_agent_observation,
  insert_agent_decision, insert_proof_receipt, receipt_id, insert_llm_call, run_all,
  decision_writes, persist_run, Write, get_run,
}
use txodds_agent_desk.Ledger.Invariant.{IfOk, IfOk->>=, IfOk-after, AllKeep, run_all-Keeps}

module _ {F : Type 0} (s : Serde F) (now uuid : Text) where
  -- The table of runs is the one given.
  abbrev Runs : List RunRow → Db → Type 0
  Runs rows db = db.runs ≡ rows

  decision_writes-Runs :
      (rows : List RunRow) (run_id : Text) (decision : Option (AgentDecision F))
      → AllKeep (Runs rows) (decision_writes s now uuid run_id decision)
  unfolding insert_agent_decision
  decision_writes-Runs rows run_id none = tt
  decision_writes-Runs rows run_id (some decision) =
      (λ db e. IfOk->>= (Runs rows) (or_error json (s.decision_json decision)) _ (λ text. e), tt)

  others-Keeps :
      (rows : List RunRow) (run_id : Text) (event : TxLineEvent F) (receipt : TxLineProofReceipt)
      (decision : Option (AgentDecision F)) (response : LlmResponse)
      → AllKeep (Runs rows) (
          insert_agent_observation s now uuid run_id event
          ∷ insert_proof_receipt s now uuid run_id receipt
          ∷ insert_llm_call s now uuid run_id response
          ∷ decision_writes s now uuid run_id decision)
  unfolding insert_agent_observation insert_proof_receipt insert_llm_call
  others-Keeps rows run_id event receipt decision response = (
    (λ db e.
        IfOk->>= (Runs rows) (or_error json (s.event_json event)) _
          λ text. IfOk->>= (Runs rows) (to_sql event.fixture_id) _ λ n. e),
    (
      (λ db e. IfOk->>= (Runs rows) (or_error json (s.receipt_json receipt)) _ λ text.
          IfOk->>= (Runs rows) (to_sql receipt.fixture_id) _
            λ n. IfOk->>= (Runs rows) (to_sql_option receipt.seq) _ λ q. e),
      (
        (λ db e. IfOk->>= (Runs rows) (or_error json (s.llm_json response)) _ λ text.
            IfOk->>= (Runs rows) (or_error sql (insert_row llm_key _ db.agent_llm_calls)) _
              λ calls. e),
        decision_writes-Runs rows run_id decision,
      ),
    ),
  )

  of_row : Text → Option RunRow → Result (AgentRun F)
  of_row k row = or_error (not_found k) row >>= λ r. or_error json (s.parse_run r.run_json)

  read_row : Text → List RunRow → Result (AgentRun F)
  unfolding of_row
  read_row k rows = of_row k (row_at run_key k rows)

  updated-run_json :
      (new : RunRow) (o : Option RunRow)
      → (updated run_key update_run (λ r new. refl) new o).run_json ≡ new.run_json
  updated-run_json new none = refl
  updated-run_json new (some r) = refl

  read_row-upsert :
      (run : AgentRun F) (new : RunRow) (rows : List RunRow) (k : Text)
      → s.parse_run new.run_json ≡ some run
      → read_row k (upsert run_key update_run new rows)
        ≡ (if text_eq new.run_id k then ok run else read_row k rows)
  unfolding read_row of_row
  read_row-upsert run new rows k e =
      ap (of_row k) (row_at-upsert run_key update_run (λ r n. refl) new k rows)
      ∙ pick (text_eq new.run_id k)
    where
      latest : RunRow
      latest = updated run_key update_run (λ r n. refl) new (row_at run_key new.run_id rows)

      pick :
          (b : Bool)
          → of_row k (if b then some latest else row_at run_key k rows)
            ≡ (if b then ok run else read_row k rows)
      pick true =
          ap (λ t. or_error json (s.parse_run t))
            (updated-run_json new (row_at run_key new.run_id rows))
          ∙ ap (or_error json) e
      pick false = refl

  row_of : AgentRun F → Text → Text → RunRow
  row_of run trigger text = record {
    run_id = run.run_id;
    track = show_track run.track;
    trigger_json = trigger;
    run_json = text;
    created_at = first_at run.timeline now;
  }

  upsert_run-ok :
      (run : AgentRun F) (db : Db) (trigger text : Text)
      → s.event_json run.trigger ≡ some trigger
      → s.run_json run ≡ some text
      → upsert_run s now uuid run db
        ≡ ok (record db { runs = upsert run_key update_run (row_of run trigger text) db.runs })
  unfolding upsert_run row_of
  upsert_run-ok run db trigger text et ex =
      ap
        (λ t. or_error json t >>= λ trigger'. or_error json (s.run_json run) >>= λ text'.
          ok (record db { runs = upsert run_key update_run (row_of run trigger' text') db.runs }))
        et
      ∙ ap
          (λ t. or_error json t >>= λ text'.
            ok (record db { runs = upsert run_key update_run (row_of run trigger text') db.runs }))
          ex

  run_all-ok :
      (w : Write) (ws : List Write) (db db' : Db)
      → w db ≡ ok db'
      → run_all (w ∷ ws) db ≡ run_all ws db'
  run_all-ok w ws db db' e =
      ap (λ r. elim r as (λ _. Option AppError × Db) [ ok d ↦ run_all ws d | err x ↦ (some x, db) ])
        e

  -- What the end of a round wrote is read back.
  pub get_run-persist_run :
      (run : AgentRun F) (event : TxLineEvent F) (receipt : TxLineProofReceipt)
      (decision : Option (AgentDecision F)) (response : LlmResponse) (db : Db)
      (trigger text k : Text)
      → s.event_json run.trigger ≡ some trigger
      → s.run_json run ≡ some text
      → s.parse_run text ≡ some run
      → get_run s now uuid k (persist_run s now uuid run event receipt decision response db).1
        ≡ (if text_eq run.run_id k then ok run else get_run s now uuid k db)
  unfolding persist_run get_run read_row of_row row_of
  get_run-persist_run run event receipt decision response db trigger text k et ex ep =
      let rows : List RunRow = upsert run_key update_run (row_of run trigger text) db.runs in
      let others : List Write =
        insert_agent_observation s now uuid run.run_id event
        ∷ insert_proof_receipt s now uuid run.run_id receipt
        ∷ insert_llm_call s now uuid run.run_id response
        ∷ decision_writes s now uuid run.run_id decision in
      ap (λ r. get_run s now uuid k r.1)
        (run_all-ok (upsert_run s now uuid run) others db (record db { runs = rows })
          (upsert_run-ok run db trigger text et ex))
      ∙ ap (read_row k) (
          run_all-Keeps (Runs rows) others (record db { runs = rows })
            (others-Keeps rows run.run_id event receipt decision response) refl)
      ∙ read_row-upsert run (row_of run trigger text) db.runs k ep

  IfOk-ok : {A : Type 0} (P : A → Type 0) (r : Result A) (a : A) → IfOk P r → r ≡ ok a → P a
  IfOk-ok P (ok b) a h e = subst P (ground arith) h
  IfOk-ok P (err b) a h e = absurd (ground arith)

  keeps_columns :
      (run_id text : Text) (receipt : TxLineProofReceipt) (old : ReceiptRow) (db : Db)
      → s.receipt_json receipt ≡ some text
      → row_at receipt_key (receipt_id s now uuid run_id receipt) db.proof_receipts ≡ some old
      → IfOk
          (λ d.
            row_at receipt_key (receipt_id s now uuid run_id receipt) d.proof_receipts
            ≡ some (record old { receipt_json = text }))
          (insert_proof_receipt s now uuid run_id receipt db)
  unfolding insert_proof_receipt
  keeps_columns run_id text receipt old db ex er =
      let id : Text = receipt_id s now uuid run_id receipt in
      let P : Db → Type 0 =
        λ d. row_at receipt_key id d.proof_receipts ≡ some (record old { receipt_json = text }) in
      IfOk-after (λ t. t ≡ text) P (or_error json (s.receipt_json receipt)) _ (rw ex refl)
        λ t et. IfOk->>= P (to_sql receipt.fixture_id) _ λ n.
          IfOk->>= P (to_sql_option receipt.seq) _ λ q.
            row_at-upsert_existing receipt_key update_receipt (λ r new. refl) _ db.proof_receipts
              old er
            ∙ ap (λ u. some (record old { receipt_json = u })) et

  -- A repeated receipt.
  pub insert_proof_receipt-stale :
      (run_id text : Text) (receipt : TxLineProofReceipt) (old : ReceiptRow) (db db' : Db)
      → s.receipt_json receipt ≡ some text
      → row_at receipt_key (receipt_id s now uuid run_id receipt) db.proof_receipts ≡ some old
      → insert_proof_receipt s now uuid run_id receipt db ≡ ok db'
      → row_at receipt_key (receipt_id s now uuid run_id receipt) db'.proof_receipts
        ≡ some (record old { receipt_json = text })
  insert_proof_receipt-stale run_id text receipt old db db' ex er ei =
      IfOk-ok _ _ db' (keeps_columns run_id text receipt old db ex er) ei
