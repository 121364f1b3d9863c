-- ===== src/Safety/Steps.antt =====
-- StepCounter of crates/agent-core/src/safety.rs over any number of ticks.
use txodds_agent_desk.Prelude.{ℕ, zero, suc, ◌+◌, ◌^◌, ◌≤◌, ◌<◌, ◌≡◌, ◌↔◌, refl, arith}
use txodds_agent_desk.AgentError.{budget_exceeded, tool_call_count, ok, err}
use txodds_agent_desk.Safety.{StepCounter, new_counter, tick}

unfoldable pub tick_times : ℕ → StepCounter → StepCounter
tick_times zero c = c
tick_times (suc n) c = (tick (tick_times n c)).0

tick_times_lem :
    (n m : ℕ)
    → n < 2 ^ 64
    → ((tick_times n (new_counter m)).steps ≡ n) × ((tick_times n (new_counter m)).max_steps ≡ m)
unfolding tick_times tick new_counter
tick_times_lem zero m h = (refl, refl)
tick_times_lem (suc n) m h = let ih = tick_times_lem n m (omega arith) in omega arith

-- On a counter with the cap `m`, after any number n of ticks, the next one passes exactly if n < m; if it
-- does not, it reports the cap and the steps taken.
pub tick-tick_times :
    (n m : ℕ)
    → n + 1 < 2 ^ 64
    → let r = (tick (tick_times n (new_counter m))).1 in
      ((r ≡ ok tt) ↔ (n < m)) × ((r ≡ err (budget_exceeded tool_call_count m (n + 1))) ↔ (m ≤ n))
unfolding tick
tick-tick_times n m h = let ih = tick_times_lem n m (omega arith) in ground arith
