-- ===== src/Decision.antt =====
-- crates/agent-core/src/domain.rs: signals, decisions and the proof gate's result.
use txodds_agent_desk.Prelude.{ℕ, Bool, List}
use txodds_agent_desk.Text.{Text}

pub record ProofGateDecision : Type 0 where
  pub pass : Bool
  pub reason : Text
  pub checked : List Text

pub data SignalType : Type 0 where
  score_event red_card_reprice sharp_odds_move proof_ready context_update : SignalType

pub data SignalSeverity : Type 0 where
  critical high medium low : SignalSeverity

-- A measured feature: a number or a flag.
pub data Measure (F : Type 0) : Type 0 where
  num : F → Measure F
  flag : Bool → Measure F

pub record AgentSignal (F : Type 0) : Type 0 where
  pub id : Text
  pub fixture_id : ℕ
  pub source_event_id : Text
  pub signal_type : SignalType
  pub severity : SignalSeverity
  pub confidence : F
  pub features : List (Text × Measure F)
  pub rationale : Text
  pub created_at : Text

pub data AgentAction : Type 0 where
  trigger_resolution fetch_proof simulate_position notify watch : AgentAction

pub data ExecutionStatus : Type 0 where
  pending blocked completed failed : ExecutionStatus

pub record PolicyCheck : Type 0 where
  pub name : Text
  pub passed : Bool
  pub detail : Text

pub record AgentDecision (F : Type 0) : Type 0 where
  pub id : Text
  pub signal_id : Text
  pub action : AgentAction
  pub confidence : F
  pub policy_checks : List PolicyCheck
  pub explanation : Text
  pub execution_status : ExecutionStatus
  pub created_at : Text
