-- ===== src/Safety/Budget.antt =====
-- BudgetGuard of crates/agent-core/src/safety.rs over a whole session: any interleaving of tool
-- calls and expenditures.
use txodds_agent_desk.Prelude.{ℕ, ◌+◌, ◌-◌, ◌%◌, ◌^◌, ◌≤◌, ◌<◌, ◌≡◌, ◌↔◌, List, [], ◌∷◌, arith}
use txodds_agent_desk.AgentError.{
  AgentError, budget_exceeded, tool_call_count, spend_lamports, session_duration_seconds, ok, err,
}
use txodds_agent_desk.Safety.{BudgetGuard, new_guard, record_tool_call, record_spend, safety_check}

-- What the loop records, in the order of the atomic updates.
pub data Update : Type 0 where
  call : Update
  spend : ℕ → Update

unfoldable pub apply : Update → BudgetGuard → BudgetGuard
apply call g = record_tool_call g
apply (spend n) g = record_spend n g

unfoldable pub apply_all : List Update → BudgetGuard → BudgetGuard
apply_all [] g = g
apply_all (u ∷ us) g = apply_all us (apply u g)

-- The true totals.
abbrev pub calls : List Update → ℕ
calls [] = 0
calls (call ∷ us) = calls us + 1
calls (spend _ ∷ us) = calls us

abbrev pub lamports : List Update → ℕ
lamports [] = 0
lamports (call ∷ us) = lamports us
lamports (spend n ∷ us) = n + lamports us

-- Same limits and start, and the totals since `g`.
pub record IsAfter (g : BudgetGuard) (us : List Update) (h : BudgetGuard) : Type 0 where
  pub same_calls_limit : h.max_tool_calls ≡ g.max_tool_calls
  pub same_spend_limit : h.max_spend_lamports ≡ g.max_spend_lamports
  pub same_duration_limit : h.max_duration_secs ≡ g.max_duration_secs
  pub same_start : h.started_at ≡ g.started_at
  pub calls_counted : h.tool_calls ≡ (g.tool_calls + calls us) % 2 ^ 64
  pub spend_counted : h.spent_lamports ≡ (g.spent_lamports + lamports us) % 2 ^ 64

-- The counters hold u64 values.
pub record IsWord (g : BudgetGuard) : Type 0 where
  pub calls_word : g.tool_calls < 2 ^ 64
  pub spend_word : g.spent_lamports < 2 ^ 64

apply_all-IsAfter : (us : List Update) (g : BudgetGuard) → IsWord g → IsAfter g us (apply_all us g)
unfolding apply_all apply record_tool_call record_spend
apply_all-IsAfter [] g w = omega arith
apply_all-IsAfter (call ∷ us) g w =
    let ih = apply_all-IsAfter us (record_tool_call g) (omega arith) in omega arith
apply_all-IsAfter (spend n ∷ us) g w =
    let ih = apply_all-IsAfter us (record_spend n g) (omega arith) in omega arith

-- In a session whose recorded totals stay below 2^64, whatever the order of its tool calls and
-- expenditures, the check passes at a time exactly if the calls, the lamports and the elapsed seconds
-- are all below their limits.
pub check-apply_all :
    (us : List Update) (c s t start now : ℕ)
    → calls us < 2 ^ 64
    → lamports us < 2 ^ 64
    → (safety_check now (apply_all us (new_guard c s t start)) ≡ ok tt)
      ↔ ((calls us < c) × (lamports us < s) × (now - start < t))
unfolding safety_check new_guard
check-apply_all us c s t start now fc fs =
    let after = apply_all-IsAfter us (new_guard c s t start) (omega arith) in ground arith

-- The error of a check names a resource whose recorded value has reached its limit, with both
-- numbers, and no earlier one in the order calls, lamports, seconds has.
abbrev pub IsExceeded : ℕ → BudgetGuard → AgentError → Type 0
IsExceeded now g (budget_exceeded tool_call_count limit current) =
    (limit ≡ g.max_tool_calls) × (current ≡ g.tool_calls) × (limit ≤ current)
IsExceeded now g (budget_exceeded spend_lamports limit current) =
    (g.tool_calls < g.max_tool_calls)
    × (limit ≡ g.max_spend_lamports)
    × (current ≡ g.spent_lamports)
    × (limit ≤ current)
IsExceeded now g (budget_exceeded session_duration_seconds limit current) =
    (g.tool_calls < g.max_tool_calls)
    × (g.spent_lamports < g.max_spend_lamports)
    × (limit ≡ g.max_duration_secs)
    × (current ≡ now - g.started_at)
    × (limit ≤ current)
IsExceeded now g _ = ⊥

-- Every error of a check is of that form.
pub check-IsExceeded :
    (now : ℕ) (g : BudgetGuard) (e : AgentError) → safety_check now g ≡ err e → IsExceeded now g e
unfolding safety_check
check-IsExceeded now g e h = ground arith

-- Two expenditures that add up to 2^64 lamports leave the guard satisfied, whatever its limits
-- above zero: the counter has wrapped to zero.
pub check-spend_wraps :
    (a b c s t start now : ℕ)
    → a + b ≡ 2 ^ 64
    → 0 < c
    → 0 < s
    → now - start < t
    → safety_check now (apply_all (spend a ∷ spend b ∷ []) (new_guard c s t start)) ≡ ok tt
unfolding safety_check new_guard apply_all apply record_spend
check-spend_wraps a b c s t start now h hc hs ht = ground arith
