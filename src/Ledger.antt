-- ===== src/Ledger.antt =====
-- native/src/services/ledger/store.rs: the SQLite ledger. A table is the list of its rows in the order
-- of insertion; the JSON of a value, fresh identifiers and times are parameters.
pub mod Persisted
pub mod Rows
pub mod Stored
pub mod Table
pub mod Written
pub mod Backtests
pub mod Invariant
pub mod Keys
pub mod Readback
pub mod Replace
pub mod Sessions
pub mod Store
use txodds_agent_desk.Prelude.{
  ℕ, ◌^◌, Bool, true, false, Option, none, some, List, [], ◌∷◌, ◌++◌, if◌then◌else◌, ltb,
}
use txodds_agent_desk.Text.{Text, lit}
use txodds_agent_desk.Decimal.{show_ℕ}
use txodds_agent_desk.Event.{
  TxLineEvent, TxLineProofReceipt, ValidationSimulationStatus, not_started, passed, failed,
  unavailable, show_track, kind_debug,
}
use txodds_agent_desk.Run.{AgentRun, TimelineEntry}
use txodds_agent_desk.Decision.{AgentSignal, AgentDecision}
use txodds_agent_desk.Apply.{action_debug}
use txodds_agent_desk.Ledger.Table.{upsert, row_at, insert_row}

pub record RunRow : Type 0 where
  pub run_id : Text
  pub track : Text
  pub trigger_json : Text
  pub run_json : Text
  pub created_at : Text

pub record ObservationRow : Type 0 where
  pub id : Text
  pub run_id : Text
  pub fixture_id : ℕ
  pub event_id : Text
  pub event_kind : Text
  pub event_json : Text
  pub created_at : Text

pub record AgentSignalRow : Type 0 where
  pub id : Text
  pub run_id : Text
  pub fixture_id : ℕ
  pub signal_json : Text
  pub created_at : Text

pub record DecisionRow : Type 0 where
  pub id : Text
  pub run_id : Text
  pub signal_id : Text
  pub action : Text
  pub decision_json : Text
  pub created_at : Text

pub record ReceiptRow : Type 0 where
  pub id : Text
  pub run_id : Text
  pub fixture_id : ℕ
  pub seq : Option ℕ
  pub status : Text
  pub verified : Bool
  pub receipt_json : Text
  pub created_at : Text

pub record LlmCallRow : Type 0 where
  pub id : Text
  pub run_id : Text
  pub provider : Text
  pub model : Text
  pub used : Bool
  pub response_json : Text
  pub created_at : Text

pub record LlmResponse : Type 0 where
  pub provider : Text
  pub model : Text
  pub text : Text
  pub used : Bool
  pub reason : Option Text

pub record Db : Type 0 where
  pub runs : List RunRow
  pub agent_observations : List ObservationRow
  pub agent_signals : List AgentSignalRow
  pub agent_decisions : List DecisionRow
  pub proof_receipts : List ReceiptRow
  pub agent_llm_calls : List LlmCallRow

-- The errors of `AppError` that the store raises.
pub data AppError : Type 0 where
  sql json : AppError
  not_found : Text → AppError

pub data Result {ℓ} (A : Type ℓ) : Type ℓ where
  ok : A → Result A
  err : AppError → Result A

infixl 5 ◌>>=◌
abbrev pub ◌>>=◌ {ℓ κ} : {A : Type ℓ} {B : Type κ} → Result A → (A → Result B) → Result B
ok a >>= f = f a
err e >>= f = err e

abbrev pub or_error {ℓ} : {A : Type ℓ} → AppError → Option A → Result A
or_error e none = err e
or_error e (some a) = ok a

-- `serde_json` on the stored types.
pub record Serde (F : Type 0) : Type 0 where
  pub event_json : TxLineEvent F → Option Text
  pub run_json : AgentRun F → Option Text
  pub parse_run : Text → Option (AgentRun F)
  pub signal_json : AgentSignal F → Option Text
  pub decision_json : AgentDecision F → Option Text
  pub receipt_json : TxLineProofReceipt → Option Text
  pub llm_json : LlmResponse → Option Text

-- A `u64` parameter of a statement: SQLite's integers are signed.
unfoldable pub to_sql : ℕ → Result ℕ
to_sql n = if ltb n (2 ^ 63) then ok n else err sql

abbrev to_sql_option : Option ℕ → Result (Option ℕ)
to_sql_option none = ok none
to_sql_option (some n) = to_sql n >>= λ k. ok (some k)

-- `{:?}` of a status
unfoldable pub simulation_debug : ValidationSimulationStatus → Text
simulation_debug not_started = lit "NotStarted"
simulation_debug passed = lit "Passed"
simulation_debug failed = lit "Failed"
simulation_debug unavailable = lit "Unavailable"

abbrev first_at : List TimelineEntry → Text → Text
first_at [] now = now
first_at (e ∷ _) now = e.at

abbrev colon : Text → Text → Text
colon a b = a ++ (lit ":" ++ b)

abbrev seq_text : Option ℕ → Text
seq_text none = lit "none"
seq_text (some n) = show_ℕ n
