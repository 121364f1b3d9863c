-- ===== src/ToolLoop/Trace.antt =====
-- run_tool_loop of crates/rig-venice/src/loop_runner.rs: where its answer and trace come from.
use txodds_agent_desk.Prelude.{
  ℕ, zero, suc, ◌+◌, ◌≡◌, ◌⊎◌, inl, inr, refl, sym, Bool, Option, none, some, List, [], ◌∷◌, ◌++◌,
  arith, length, is_empty, or_else, if◌then◌else◌, Option-cases, Bool-cases,
}
use txodds_agent_desk.Text.{Text, text_eq}
use txodds_agent_desk.ToolLoop.{
  ToolCall, AssistantContent, Message, ToolLoopOutcome, Attempt, success, failure, LoopState,
  CallState, requested, note_final, log_output, run_call, run_calls, run_turn, run_rounds,
  run_tool_loop, Turn, ended, continued, no_calls, on_reply, end_turn, rounds_after, assistant,
  user,
}

module _ {V : Type 0} where
  -- The arguments of the first call of the final tool, if there is one.
  abbrev pub first_final : Text → List (ToolCall V) → Option V
  first_final name [] = none
  first_final name (c ∷ cs) = if text_eq c.name name then some c.arguments else first_final name cs

module _ {V : Type 0}
    (complete : ℕ → Message V → List (Message V) → Attempt (List (AssistantContent V)))
    (tool : ℕ → Text → Text → Attempt Text) (to_string : V → Text) (from_str : Text → Option V)
    (many : ℕ → Bool) (final_tool_name : Text) where
  run_call_final :
      (s : CallState V) (c : ToolCall V)
      → (run_call complete tool to_string from_str many final_tool_name s c).final_args
        ≡ note_final final_tool_name c s.final_args
  unfolding run_call
  run_call_final s c = ground arith

  run_calls_final :
      (s : CallState V) (cs : List (ToolCall V))
      → (run_calls complete tool to_string from_str many final_tool_name s cs).final_args
        ≡ or_else s.final_args (first_final final_tool_name cs)
  unfolding run_calls
  run_calls_final s [] = ground arith
  run_calls_final s (c ∷ cs) = ground (
    arith,
    run_call_final s c,
    run_calls_final (run_call complete tool to_string from_str many final_tool_name s c) cs,
  )

  -- The arguments are those of the first call of the final tool in one answer of the model.
  abbrev pub IsAnswered : V → Type 0
  IsAnswered v =
      (steps : ℕ) × (prompt : Message V) × (history : List (Message V)) × (contents : List
        (AssistantContent V))
      × (complete steps prompt history ≡ success contents)
      × (first_final final_tool_name (requested contents) ≡ some v)

  -- The entry is the parsed output of a call of the tool that it names.
  abbrev pub IsOutput : Text × V → Type 0
  IsOutput (name, v) =
      (steps : ℕ) × (args : Text) × (out : Text) × (tool steps name args ≡ success out)
      × (from_str out ≡ some v)

  abbrev pub AreOutputs : List (Text × V) → Type 0
  AreOutputs [] = Unit
  AreOutputs (e ∷ es) = IsOutput e × AreOutputs es

  AreOutputs-append :
      (es : List (Text × V)) (e : Text × V) → AreOutputs es → IsOutput e → AreOutputs (es ++ e ∷ [])
  AreOutputs-append [] e h k = (k, tt)
  AreOutputs-append (x ∷ es) e h k = (h.0, AreOutputs-append es e h.1 k)

  log_output-AreOutputs :
      (steps : ℕ) (name args out : Text) (calls : List (Text × V))
      → tool steps name args ≡ success out
      → AreOutputs calls
      → AreOutputs (log_output name (from_str out) calls)
  log_output-AreOutputs steps name args out calls e h = elim (Option-cases (from_str out)) [
    | inl none_there ↦ rw none_there h
    | inr (v, parsed) ↦
        rw parsed (AreOutputs-append calls (name, v) h (steps, args, out, e, parsed))
  ]

  Attempt-cases :
      (a : Attempt Text) → ((out : Text) × (a ≡ success out)) ⊎ ((e : Text) × (a ≡ failure e))
  Attempt-cases (success out) = inl (out, refl)
  Attempt-cases (failure e) = inr (e, refl)

  run_call-AreOutputs :
      (s : CallState V) (c : ToolCall V)
      → AreOutputs s.tool_calls
      → AreOutputs (run_call complete tool to_string from_str many final_tool_name s c).tool_calls
  unfolding run_call
  run_call-AreOutputs s c h = elim (Attempt-cases (tool s.steps c.name (to_string c.arguments))) [
    | inl (out, e) ↦
        rw e (log_output-AreOutputs s.steps c.name (to_string c.arguments) out s.tool_calls e h)
    | inr (err, e) ↦ rw e h
  ]

  run_calls-AreOutputs :
      (s : CallState V) (cs : List (ToolCall V))
      → AreOutputs s.tool_calls
      → AreOutputs (run_calls complete tool to_string from_str many final_tool_name s cs).tool_calls
  unfolding run_calls
  run_calls-AreOutputs s [] h = h
  run_calls-AreOutputs s (c ∷ cs) h =
      run_calls-AreOutputs (run_call complete tool to_string from_str many final_tool_name s c) cs
        (run_call-AreOutputs s c h)

  -- The final arguments, if any, are an answer of the model's.
  abbrev IsFinal : Option V → Type 0
  IsFinal none = Unit
  IsFinal (some v) = IsAnswered v

  -- Nothing in the outcome is invented.
  abbrev pub IsTraced : ToolLoopOutcome V → Type 0
  IsTraced o = AreOutputs o.tool_calls × IsFinal o.final_args

  abbrev TracedAttempt : Attempt (ToolLoopOutcome V) → Type 0
  TracedAttempt (success o) = IsTraced o
  TracedAttempt (failure e) = Unit

  abbrev TracedTurn : Turn complete tool to_string from_str many final_tool_name → Type 0
  TracedTurn (ended steps result) = TracedAttempt result
  TracedTurn (continued s) = AreOutputs s.tool_calls

  abbrev calls_after : LoopState V → List (ToolCall V) → CallState V
  calls_after s cs =
      run_calls complete tool to_string from_str many final_tool_name
        (no_calls s.tool_calls (s.steps + 1)) cs

  end_turn-Traced :
      (a : CallState V) (history : List (Message V)) (args : Option V)
      → AreOutputs a.tool_calls
      → IsFinal args
      → TracedTurn (end_turn complete tool to_string from_str many final_tool_name a history args)
  end_turn-Traced a history none h f = elim (Bool-cases (many (length a.results))) [
    | inl t ↦ rw t h
    | inr t ↦ rw t tt
  ]
  end_turn-Traced a history (some v) h f = (h, f)

  on_reply-Traced :
      (s : LoopState V) (reply : Attempt (List (AssistantContent V)))
      → complete s.steps s.next_prompt s.history ≡ reply
      → AreOutputs s.tool_calls
      → TracedTurn (on_reply complete tool to_string from_str many final_tool_name s reply)
  on_reply-Traced s (failure e) asked h = tt
  on_reply-Traced s (success contents) asked h =
      let cs = requested contents in
      let after = calls_after s cs in
      elim (Bool-cases (is_empty cs)) [
        | inl t ↦ rw t (h, tt)
        | inr t ↦ elim (Bool-cases (many (length contents))) [
          | inl m ↦
              rw (t, m)
                (end_turn-Traced after (s.history ++ s.next_prompt ∷ assistant contents ∷ [])
                  after.final_args (run_calls-AreOutputs (no_calls s.tool_calls (s.steps + 1)) cs h)
                  (final_of after.final_args
                    (run_calls_final (no_calls s.tool_calls (s.steps + 1)) cs)))
          | inr m ↦ rw (t, m) tt
        ]
      ]
    where
      final_of :
          (args : Option V) → args ≡ first_final final_tool_name (requested contents) → IsFinal args
      final_of none e = tt
      final_of (some v) e = (s.steps, s.next_prompt, s.history, contents, asked, sym e)

  run_turn-Traced :
      (s : LoopState V)
      → AreOutputs s.tool_calls
      → TracedTurn (run_turn complete tool to_string from_str many final_tool_name s)
  unfolding run_turn
  run_turn-Traced s h = on_reply-Traced s (complete s.steps s.next_prompt s.history) refl h

  rounds_after-Traced :
      (n : ℕ) (t : Turn complete tool to_string from_str many final_tool_name)
      → ((s : LoopState V)
          → AreOutputs s.tool_calls
          → TracedAttempt (run_rounds complete tool to_string from_str many final_tool_name n s).1)
      → TracedTurn t
      → TracedAttempt (rounds_after complete tool to_string from_str many final_tool_name n t).1
  rounds_after-Traced n (ended steps result) ih k = k
  rounds_after-Traced n (continued s) ih k = ih s k

  run_rounds-Traced :
      (n : ℕ) (s : LoopState V)
      → AreOutputs s.tool_calls
      → TracedAttempt (run_rounds complete tool to_string from_str many final_tool_name n s).1
  unfolding run_rounds
  run_rounds-Traced zero s h = (h, tt)
  run_rounds-Traced (suc n) s h =
      rounds_after-Traced n (run_turn complete tool to_string from_str many final_tool_name s)
        (run_rounds-Traced n) (run_turn-Traced s h)

  -- Whatever the model and the tools answer, an outcome of the loop invents nothing: every entry of its
  -- trace is the parsed output of a call of the tool that it names, and its final arguments, if any,
  -- are those of the first call of the final tool in one answer of the model.
  pub run_tool_loop-IsTraced :
      (initial_prompt : Text) (max_rounds : ℕ) (outcome : ToolLoopOutcome V)
      → (run_tool_loop complete tool to_string from_str many final_tool_name initial_prompt
          max_rounds).1
        ≡ success outcome
      → IsTraced outcome
  unfolding run_tool_loop
  run_tool_loop-IsTraced initial_prompt max_rounds outcome h = traced _ h (
      run_rounds-Traced max_rounds
        (record { history = []; next_prompt = user initial_prompt; tool_calls = []; steps = 0 }) tt)
    where
      traced :
          (a : Attempt (ToolLoopOutcome V))
          → a ≡ success outcome
          → TracedAttempt a
          → IsTraced outcome
      traced (success o) e k = let same : o ≡ outcome = cc in rw (← same) k
      traced (failure x) e k = absurd cc
