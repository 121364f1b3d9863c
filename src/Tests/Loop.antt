-- ===== src/Tests/Loop.antt =====
-- A run of `ToolLoop`: a model that asks for the odds, and then answers.
use txodds_agent_desk.Prelude.{
  ℕ, zero, suc, ◌*◌, ◌≤◌, ◌≡◌, refl, Bool, true, some, List, [], ◌∷◌, Option, arith,
}
use txodds_agent_desk.Text.{Text, text_eq}
use txodds_agent_desk.ToolLoop.{
  AssistantContent, tool_call, Message, ToolLoopOutcome, Attempt, success, requested, run_tool_loop,
}
use txodds_agent_desk.ToolLoop.Trace.{IsTraced, run_tool_loop-IsTraced}
use txodds_agent_desk.ToolLoop.Budget.{AsksAtMost, run_tool_loop-steps}

abbrev odds : Text
odds = b'o' ∷ []

abbrev final : Text
final = b'f' ∷ []

abbrev model : ℕ → Message Text → List (Message Text) → Attempt (List (AssistantContent Text))
model zero p h = success (tool_call (record { id = b'1' ∷ []; name = odds; arguments = [] }) ∷ [])
model (suc n) p h =
    success (tool_call (record { id = b'2' ∷ []; name = final; arguments = b'!' ∷ [] }) ∷ [])

abbrev answer_two : ℕ → Text → Text → Attempt Text
answer_two n name args = success (b'2' ∷ [])

abbrev parse : Text → Option Text
parse t = some t

abbrev keep : Text → Text
keep t = t

abbrev accept : ℕ → Bool
accept n = true

abbrev outcome : ToolLoopOutcome Text
outcome = record {
  tool_calls = (odds, b'2' ∷ []) ∷ (final, b'2' ∷ []) ∷ [];
  final_args = some (b'!' ∷ []);
}

two_rounds : run_tool_loop model answer_two keep parse accept final [] 5 ≡ (4, success outcome)
unfolding run_tool_loop text_eq
two_rounds = refl

ends_well : (run_tool_loop model answer_two keep parse accept final [] 5).1 ≡ success outcome
unfolding run_tool_loop text_eq
ends_well = refl

run_tool_loop-IsTraced_example : IsTraced model answer_two keep parse accept final outcome
run_tool_loop-IsTraced_example =
    run_tool_loop-IsTraced model answer_two keep parse accept final [] 5 outcome ends_well

asks_one : AsksAtMost model answer_two keep parse accept final 1
unfolding requested
asks_one zero p h contents e = ground arith
asks_one (suc n) p h contents e = ground arith

run_tool_loop-steps_example :
    (run_tool_loop model answer_two keep parse accept final [] 5).0 ≤ 5 * 2
run_tool_loop-steps_example =
    run_tool_loop-steps model answer_two keep parse accept final [] 5 1 asks_one
