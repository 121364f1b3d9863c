-- ===== src/Tests/Limits.antt =====
-- Runs of `Safety`.
use txodds_agent_desk.Prelude.{◌+◌, ◌^◌, ◌≡◌, ◌↔◌, ◌≤◌, ◌<◌, ◌-◌, refl, [], ◌∷◌, arith, some}
use txodds_agent_desk.Text.{Text, byte_len}
use txodds_agent_desk.AgentError.{ok, err, budget_exceeded, tool_call_count}
use txodds_agent_desk.Safety.{
  BudgetGuard, new_guard, safety_check, wrap_untrusted, truncate_content,
}
use txodds_agent_desk.Safety.Budget.{call, spend, apply_all, check-apply_all, check-spend_wraps}
use txodds_agent_desk.Safety.Untrusted.{IsTruncated, delimited, wrap_untrusted_lem}
use txodds_agent_desk.Tests.{eleven}

check-apply_all_example :
    (safety_check 100 (apply_all (call ∷ spend 5 ∷ call ∷ []) (new_guard 3 10 60 50)) ≡ ok tt)
    ↔ ((2 < 3) × (5 < 10) × (100 - 50 < 60))
check-apply_all_example =
    check-apply_all (call ∷ spend 5 ∷ call ∷ []) 3 10 60 50 100 (omega arith) (omega arith)

abbrev spent : BudgetGuard
spent = record {
  max_tool_calls = 2;
  max_spend_lamports = 10;
  max_duration_secs = 60;
  started_at = 50;
  tool_calls = 2;
  spent_lamports = 0;
}

too_many : safety_check 60 spent ≡ err (budget_exceeded tool_call_count 2 2)
unfolding safety_check
too_many = refl

check-spend_wraps_example :
    safety_check 60 (apply_all (spend (2 ^ 63) ∷ spend (2 ^ 63) ∷ []) (new_guard 3 10 60 50))
    ≡ ok tt
check-spend_wraps_example =
    check-spend_wraps (2 ^ 63) (2 ^ 63) 3 10 60 50 60 refl (omega arith) (omega arith) (omega arith)

wrapped : wrap_untrusted [] eleven ≡ some (delimited [] eleven)
unfolding wrap_untrusted truncate_content byte_len
wrapped = refl

wrap_untrusted_lem_example :
    ((t : Text) × (delimited [] eleven ≡ delimited [] t) × IsTruncated eleven t)
    × (byte_len (delimited [] eleven) ≤ byte_len [] + 32_816)
wrap_untrusted_lem_example = wrap_untrusted_lem [] eleven (delimited [] eleven) wrapped
