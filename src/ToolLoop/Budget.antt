-- ===== src/ToolLoop/Budget.antt =====
-- run_tool_loop of crates/rig-venice/src/loop_runner.rs: how many steps it reports.
use txodds_agent_desk.Prelude.{
  ℕ, Bool, zero, suc, ◌+◌, ◌*◌, ◌≤◌, ◌≡◌, refl, Option, none, some, List, [], ◌∷◌, ◌++◌, arith,
  length, Bool-cases, is_empty, inl, inr,
}
use txodds_agent_desk.Text.{Text}
use txodds_agent_desk.ToolLoop.{
  ToolCall, AssistantContent, Message, Attempt, success, failure, LoopState, CallState, requested,
  run_call, run_calls, run_turn, run_rounds, run_tool_loop, Turn, ended, continued, no_calls,
  on_reply, end_turn, rounds_after, assistant, user,
}

module _ {V : Type 0}
    (complete : ℕ → Message V → List (Message V) → Attempt (List (AssistantContent V)))
    (tool : ℕ → Text → Text → Attempt Text) (to_string : V → Text) (from_str : Text → Option V)
    (many : ℕ → Bool) (final_tool_name : Text) where
  -- No answer of the model asks for more than `k` tool calls.
  abbrev pub AsksAtMost : ℕ → Type 0
  AsksAtMost k =
      (steps : ℕ) (prompt : Message V) (history : List (Message V))
      (contents : List (AssistantContent V))
      → complete steps prompt history ≡ success contents
      → length (requested contents) ≤ k

  run_call-steps :
      (s : CallState V) (c : ToolCall V)
      → (run_call complete tool to_string from_str many final_tool_name s c).steps ≡ s.steps + 1
  unfolding run_call
  run_call-steps s c = ground arith

  run_calls-steps :
      (s : CallState V) (cs : List (ToolCall V))
      → (run_calls complete tool to_string from_str many final_tool_name s cs).steps
        ≡ s.steps + length cs
  unfolding run_calls
  run_calls-steps s [] = omega arith
  run_calls-steps s (c ∷ cs) =
      let next = run_call complete tool to_string from_str many final_tool_name s c in
      omega (arith, run_call-steps s c, run_calls-steps next cs)

  abbrev turn_steps : Turn complete tool to_string from_str many final_tool_name → ℕ
  turn_steps (ended steps result) = steps
  turn_steps (continued s) = s.steps

  end_turn_lem :
      (a : CallState V) (history : List (Message V)) (args : Option V)
      → turn_steps (end_turn complete tool to_string from_str many final_tool_name a history args)
        ≡ a.steps
  end_turn_lem a history none = ground arith
  end_turn_lem a history (some v) = refl

  on_reply_lem :
      (s : LoopState V) (reply : Attempt (List (AssistantContent V))) (k : ℕ)
      → complete s.steps s.next_prompt s.history ≡ reply
      → AsksAtMost k
      → turn_steps (on_reply complete tool to_string from_str many final_tool_name s reply)
        ≤ s.steps + (k + 1)
  on_reply_lem s (failure e) k asked h = omega arith
  on_reply_lem s (success contents) k asked h =
      let cs = requested contents in
      let start = no_calls s.tool_calls (s.steps + 1) in
      let after = run_calls complete tool to_string from_str many final_tool_name start cs in
      let few = h s.steps s.next_prompt s.history contents asked in
      let counted = run_calls-steps start cs in
      let kept =
        end_turn_lem after (s.history ++ s.next_prompt ∷ assistant contents ∷ [])
          after.final_args in
      elim (Bool-cases (is_empty cs)) [
        | inl t ↦ rw t (omega arith)
        | inr t ↦ elim (Bool-cases (many (length contents))) [
          | inl m ↦ rw (t, m, kept) (omega arith)
          | inr m ↦ rw (t, m) (omega arith)
        ]
      ]

  rounds_after_lem :
      (n k : ℕ) (t : Turn complete tool to_string from_str many final_tool_name)
      → ((s : LoopState V)
          → (run_rounds complete tool to_string from_str many final_tool_name n s).0
            ≤ s.steps + n * (k + 1))
      → (rounds_after complete tool to_string from_str many final_tool_name n t).0
        ≤ turn_steps t + n * (k + 1)
  rounds_after_lem n k (ended steps result) ih = omega arith
  rounds_after_lem n k (continued s) ih = ih s

  run_turn_lem :
      (s : LoopState V) (k : ℕ)
      → AsksAtMost k
      → turn_steps (run_turn complete tool to_string from_str many final_tool_name s)
        ≤ s.steps + (k + 1)
  unfolding run_turn
  run_turn_lem s k h = on_reply_lem s (complete s.steps s.next_prompt s.history) k refl h

  run_rounds_lem :
      (n k : ℕ) (s : LoopState V)
      → AsksAtMost k
      → (run_rounds complete tool to_string from_str many final_tool_name n s).0
        ≤ s.steps + n * (k + 1)
  unfolding run_rounds
  run_rounds_lem zero k s h = omega arith
  run_rounds_lem (suc n) k s h =
      let turn = run_turn complete tool to_string from_str many final_tool_name s in
      let rest = rounds_after_lem n k turn (λ s'. run_rounds_lem n k s' h) in
      let first = run_turn_lem s k h in
      step (rounds_after complete tool to_string from_str many final_tool_name n turn).0
        (turn_steps turn) n k s.steps rest first
    where
      step :
          (total mid n k start : ℕ)
          → total ≤ mid + n * (k + 1)
          → mid ≤ start + (k + 1)
          → total ≤ start + suc n * (k + 1)
      step total mid n k start h g = ground (arith, h, g)

  -- If no answer of the model asks for more than k tool calls, a loop of at most n rounds reports at
  -- most n * (k + 1) steps, however it ends.
  pub run_tool_loop-steps :
      (initial_prompt : Text) (max_rounds k : ℕ)
      → AsksAtMost k
      → (run_tool_loop complete tool to_string from_str many final_tool_name initial_prompt
          max_rounds).0
        ≤ max_rounds * (k + 1)
  unfolding run_tool_loop
  run_tool_loop-steps initial_prompt max_rounds k h =
      let start : LoopState V = record {
        history = [];
        next_prompt = user initial_prompt;
        tool_calls = [];
        steps = 0;
      } in
      omega (arith, run_rounds_lem max_rounds k start h)
