-- ===== src/AgentError.antt =====
-- crates/agent-core/src/error.rs: the errors of the agent loop and which of them may be retried.
use txodds_agent_desk.Prelude.{ℕ, Bool, true, false}
use txodds_agent_desk.Text.{Text}

pub data SideEffectStatus : Type 0 where
  not_executed unknown executed_with_error : SideEffectStatus

pub data BudgetResource : Type 0 where
  tool_call_count spend_lamports session_duration_seconds : BudgetResource

-- A boxed source error is its text.
pub data AgentError : Type 0 where
  transient : (source : Text) (attempt : ℕ) → AgentError
  model_output : (raw reason : Text) → AgentError
  tool_fail :
      (tool_name idempotency_key : Text) (side_effect_status : SideEffectStatus) (source : Text)
      → AgentError
  budget_exceeded : (resource : BudgetResource) (limit current : ℕ) → AgentError
  timeout : (operation : Text) (deadline_ms : ℕ) → AgentError
  tool_call_failed : (tool reason : Text) → AgentError
  parse_error : Text → AgentError

pub data Result {ℓ} (A : Type ℓ) : Type ℓ where
  ok : A → Result A
  err : AgentError → Result A

unfoldable pub is_retryable : AgentError → Bool
is_retryable (transient _ _) = true
is_retryable _ = false
