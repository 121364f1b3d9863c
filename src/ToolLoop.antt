-- ===== src/ToolLoop.antt =====
-- crates/rig-venice/src/loop_runner.rs: the multi-turn tool-calling loop. The model, the tools and the
-- JSON parser are parameters: the answer of a request or a tool call is a function of what it is
-- given and of the number of steps so far, so two like calls may be answered differently. `many` is
-- `OneOrMany::many` by the length of its list: whether it accepts it.
pub mod Trace
pub mod Budget
use txodds_agent_desk.Prelude.{
  ℕ, zero, suc, ◌+◌, Bool, true, false, not, ◌&&◌, Option, none, some, List, [], ◌∷◌, ◌++◌, length,
  is_some, is_empty, or_else, if◌then◌else◌,
}
use txodds_agent_desk.Text.{Text, lit, text_eq}

pub record ToolCall (V : Type 0) : Type 0 where
  pub id : Text
  pub name : Text
  pub arguments : V

pub data AssistantContent (V : Type 0) : Type 0 where
  text : Text → AssistantContent V
  tool_call : ToolCall V → AssistantContent V

pub data Message (V : Type 0) : Type 0 where
  user : Text → Message V
  assistant : List (AssistantContent V) → Message V
  tool_results : List (Text × Text) → Message V

pub record ToolLoopOutcome (V : Type 0) : Type 0 where
  pub tool_calls : List (Text × V)
  pub final_args : Option V

-- `Result<_, ToolLoopError>`, and that of a request or a tool, whose error is its text.
pub data Attempt {ℓ} (A : Type ℓ) : Type ℓ where
  success : A → Attempt A
  failure : Text → Attempt A

pub record LoopState (V : Type 0) : Type 0 where
  pub history : List (Message V)
  pub next_prompt : Message V
  pub tool_calls : List (Text × V)
  pub steps : ℕ  -- calls of `on_step`

-- What the calls of one round leave behind.
pub record CallState (V : Type 0) : Type 0 where
  pub tool_calls : List (Text × V)
  pub results : List (Text × Text)
  pub final_args : Option V
  pub steps : ℕ

module _ {V : Type 0} where
  unfoldable pub requested : List (AssistantContent V) → List (ToolCall V)
  requested [] = []
  requested (text t ∷ cs) = requested cs
  requested (tool_call c ∷ cs) = c ∷ requested cs

  -- `iter().rev().find(..)`: the last entry of the name.
  unfoldable pub find_last : Text → List (Text × V) → Option V
  find_last name [] = none
  find_last name ((n, v) ∷ rest) =
      or_else (find_last name rest) (if text_eq n name then some v else none)

  unfoldable pub tool_result : ToolLoopOutcome V → Text → Option V
  unfolding find_last
  tool_result outcome name = find_last name outcome.tool_calls

  abbrev outcome_of : List (Text × V) → Option V → Attempt (ToolLoopOutcome V)
  outcome_of calls args = success (record { tool_calls = calls; final_args = args })

  abbrev pub no_calls : List (Text × V) → ℕ → CallState V
  no_calls calls steps = record {
    tool_calls = calls;
    results = [];
    final_args = none;
    steps = steps;
  }

  -- `if name == final_tool_name && final_args.is_none()`
  abbrev pub note_final : Text → ToolCall V → Option V → Option V
  note_final final_tool_name call args =
      if text_eq call.name final_tool_name && not (is_some args) then some call.arguments else args

  abbrev pub log_output : Text → Option V → List (Text × V) → List (Text × V)
  log_output name none calls = calls
  log_output name (some v) calls = calls ++ (name, v) ∷ []

module _ {V : Type 0}
    (complete : ℕ → Message V → List (Message V) → Attempt (List (AssistantContent V)))
    (tool : ℕ → Text → Text → Attempt Text) (to_string : V → Text) (from_str : Text → Option V)
    (many : ℕ → Bool) (final_tool_name : Text) where
  abbrev answer : CallState V → ToolCall V → Attempt Text → CallState V
  answer s call (success out) = record s {
    tool_calls = log_output call.name (from_str out) s.tool_calls;
    results = s.results ++ (call.id, out) ∷ [];
  }
  answer s call (failure e) = record s {
    results = s.results ++ (call.id, lit "tool error: " ++ e) ∷ [];
  }

  unfoldable pub run_call : CallState V → ToolCall V → CallState V
  run_call s call =
      let noted = record s {
        steps = s.steps + 1;
        final_args = note_final final_tool_name call s.final_args;
      } in
      answer noted call (tool s.steps call.name (to_string call.arguments))

  unfoldable pub run_calls : CallState V → List (ToolCall V) → CallState V
  unfolding run_call
  run_calls s [] = s
  run_calls s (c ∷ cs) = run_calls (run_call s c) cs

  -- A round either ends the loop or prepares the next prompt.
  pub data Turn : Type 0 where
    ended : ℕ → Attempt (ToolLoopOutcome V) → Turn
    continued : LoopState V → Turn

  abbrev end_turn : CallState V → List (Message V) → Option V → Turn
  end_turn s history (some args) = ended s.steps (outcome_of s.tool_calls (some args))
  end_turn s history none =
      if many (length s.results)
      then continued (record {
        history = history;
        next_prompt = tool_results s.results;
        tool_calls = s.tool_calls;
        steps = s.steps;
      })
      else ended s.steps (failure (lit "empty results"))

  abbrev on_reply : LoopState V → Attempt (List (AssistantContent V)) → Turn
  on_reply s (failure e) = ended (s.steps + 1) (failure e)
  on_reply s (success contents) =
      let calls = requested contents in
      let after = run_calls (no_calls s.tool_calls (s.steps + 1)) calls in
      if is_empty calls
      then ended (s.steps + 1) (outcome_of s.tool_calls none)
      else if many (length contents)
      then end_turn after (s.history ++ s.next_prompt ∷ assistant contents ∷ []) after.final_args
      else ended (s.steps + 1) (failure (lit "empty response"))

  unfoldable pub run_turn : LoopState V → Turn
  unfolding run_calls requested
  run_turn s = on_reply s (complete s.steps s.next_prompt s.history)

  -- The number of steps beside the result.
  unfoldable pub run_rounds : ℕ → LoopState V → ℕ × Attempt (ToolLoopOutcome V)
  unfolding run_turn
  run_rounds zero s = (s.steps, outcome_of s.tool_calls none)
  run_rounds (suc n) s = elim (run_turn s) [
    | ended steps result ↦ (steps, result)
    | continued s' ↦ run_rounds n s'
  ]

  -- The rest of the loop after a turn.
  abbrev rounds_after : ℕ → Turn → ℕ × Attempt (ToolLoopOutcome V)
  rounds_after n (ended steps result) = (steps, result)
  rounds_after n (continued s) = run_rounds n s

  unfoldable pub run_tool_loop : Text → ℕ → ℕ × Attempt (ToolLoopOutcome V)
  unfolding run_rounds
  run_tool_loop initial_prompt max_rounds =
      run_rounds max_rounds
        (record { history = []; next_prompt = user initial_prompt; tool_calls = []; steps = 0 })
