-- ===== src/Evaluation/Hindsight.antt =====
-- evaluate_decision of crates/agent-core/src/evaluation.rs, over growing lists of later events.
use txodds_agent_desk.Prelude.{◌≡◌, Bool, true, some, List, [], ◌∷◌, ◌++◌, any, arith}
use txodds_agent_desk.Text.{Text}
use txodds_agent_desk.Float.{Float}
use txodds_agent_desk.Event.{TxLineEvent}
use txodds_agent_desk.Decision.{AgentAction, AgentDecision}
use txodds_agent_desk.Evaluation.{
  AgentEvaluation, proof_passed, final_seen, evaluate_action, evaluate_decision,
}

any-append :
    {A : Type 0} (p : A → Bool) (xs ys : List A) → any p xs ≡ true → any p (xs ++ ys) ≡ true
any-append p [] ys h = cc
any-append p (x ∷ xs) ys h = ground (arith, any-append p xs ys)

module _ {F : Type 0} ⦃d : Float F⦄ where
  evaluate_action_mono :
      (a : AgentAction) (p p' f f' : Bool) (run_id id : Text) (e : AgentEvaluation F)
      → (p ≡ true → p' ≡ true)
      → (f ≡ true → f' ≡ true)
      → evaluate_action a p f run_id id ≡ some e
      → evaluate_action a p' f' run_id id ≡ some e
  unfolding evaluate_action
  evaluate_action_mono a p p' f f' run_id id e hp hf h = ground arith

  -- An evaluation, once events support it, stays the same whatever events follow.
  pub evaluate_decision-append :
      (run_id : Text) (decision : AgentDecision F) (events later : List (TxLineEvent F))
      (e : AgentEvaluation F)
      → evaluate_decision run_id decision events ≡ some e
      → evaluate_decision run_id decision (events ++ later) ≡ some e
  unfolding evaluate_decision
  evaluate_decision-append run_id decision events later e h =
      evaluate_action_mono decision.action (any proof_passed events)
        (any proof_passed (events ++ later)) (any final_seen events)
        (any final_seen (events ++ later)) run_id decision.id e
        (any-append proof_passed events later) (any-append final_seen events later) h
