-- ===== src/Safety.antt =====
-- crates/agent-core/src/safety.rs: the budget guard, the step counter and the delimiters round
-- untrusted text. The clock is an argument; the atomic counters wrap at 2^64.
pub mod Budget
pub mod Steps
pub mod Untrusted
use txodds_agent_desk.Prelude.{
  ℕ, ◌+◌, ◌-◌, ◌%◌, ◌^◌, Bool, true, false, Option, none, some, List, [], ◌∷◌, ◌++◌, leb, ltb,
  if◌then◌else◌, ◌>>=◌,
}
use txodds_agent_desk.Text.{Text, lit, byte_len, slice_to}
use txodds_agent_desk.AgentError.{
  AgentError, budget_exceeded, tool_call_count, spend_lamports, session_duration_seconds, Result,
  ok, err,
}

abbrev pub u64 : ℕ → ℕ
u64 n = n % 2 ^ 64

pub record BudgetGuard : Type 0 where
  pub max_tool_calls : ℕ
  pub max_spend_lamports : ℕ
  pub max_duration_secs : ℕ
  pub tool_calls : ℕ
  pub spent_lamports : ℕ
  pub started_at : ℕ

unfoldable pub new_guard : (max_tool_calls max_spend max_duration now : ℕ) → BudgetGuard
new_guard c s t now = record {
  max_tool_calls = c;
  max_spend_lamports = s;
  max_duration_secs = t;
  tool_calls = 0;
  spent_lamports = 0;
  started_at = now;
}

unfoldable pub default_devnet : ℕ → BudgetGuard
unfolding new_guard
default_devnet now = new_guard 200 1_000_000 3600 now

unfoldable pub record_tool_call : BudgetGuard → BudgetGuard
record_tool_call g = record g { tool_calls = u64 (g.tool_calls + 1) }

unfoldable pub record_spend : ℕ → BudgetGuard → BudgetGuard
record_spend lamports g = record g { spent_lamports = u64 (g.spent_lamports + lamports) }

-- `saturating_sub` is the truncated `-`.
unfoldable pub check : ℕ → BudgetGuard → Result (Unit {0})
check now g =
    if leb g.max_tool_calls g.tool_calls
    then err (budget_exceeded tool_call_count g.max_tool_calls g.tool_calls)
    else if leb g.max_spend_lamports g.spent_lamports
    then err (budget_exceeded spend_lamports g.max_spend_lamports g.spent_lamports)
    else if leb g.max_duration_secs (now - g.started_at)
    then err (budget_exceeded session_duration_seconds g.max_duration_secs (now - g.started_at))
    else ok tt

unfoldable pub safety_check : ℕ → BudgetGuard → Result (Unit {0})
unfolding check
safety_check now g = check now g

pub record StepCounter : Type 0 where
  pub max_steps : ℕ
  pub steps : ℕ

unfoldable pub new_counter : ℕ → StepCounter
new_counter max_steps = record { max_steps = max_steps; steps = 0 }

unfoldable pub tick : StepCounter → StepCounter × Result (Unit {0})
tick c =
    let c' = record c { steps = u64 (c.steps + 1) } in
    (
      c',
      if ltb c'.max_steps c'.steps
          then err (budget_exceeded tool_call_count c'.max_steps c'.steps)
          else ok tt,
    )

abbrev pub max_content_bytes : ℕ
max_content_bytes = 32_768

-- `none` is the panic of a slice inside a character.
unfoldable pub truncate_content : Text → Option Text
truncate_content content =
    if ltb max_content_bytes (byte_len content)
    then slice_to content max_content_bytes
    else some content

unfoldable pub wrap_untrusted : Text → Text → Option Text
unfolding truncate_content
wrap_untrusted source_label content = do
  truncated ← truncate_content content
  some (
      lit "<untrusted_source label=\""
      ++ (source_label ++ (lit "\">\n" ++ (truncated ++ lit "\n</untrusted_source>"))))
