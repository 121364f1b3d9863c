-- ===== src/Evaluation.antt =====
-- crates/agent-core/src/evaluation.rs: a past decision against later events.
pub mod Hindsight
use txodds_agent_desk.Prelude.{
  Bool, true, false, ◌&&◌, Option, none, some, List, [], any, if◌then◌else◌, is_some_and,
}
use txodds_agent_desk.Text.{Text, lit}
use txodds_agent_desk.Float.{Float, one}
use txodds_agent_desk.Event.{TxLineEventKind, final_whistle, TxLineEvent, is_passed}
use txodds_agent_desk.Decision.{AgentAction, trigger_resolution, fetch_proof, AgentDecision}

pub record AgentEvaluation (F : Type 0) : Type 0 where
  pub run_id : Text
  pub decision_id : Text
  pub outcome : Text
  pub score : F
  pub reason : Text

abbrev pub is_final : TxLineEventKind → Bool
is_final final_whistle = true
is_final _ = false

module _ {F : Type 0} where
  abbrev pub proof_passed : TxLineEvent F → Bool
  proof_passed event = is_some_and event.proof λ p. is_passed p.simulation_status

  abbrev pub final_seen : TxLineEvent F → Bool
  final_seen event = is_final event.kind

module _ {F : Type 0} ⦃d : Float F⦄ where
  open d use {dec}

  evaluate_action : AgentAction → Bool → Bool → Text → Text → Option (AgentEvaluation F)
  evaluate_action trigger_resolution proof_later final_later run_id decision_id =
      if proof_later && final_later
      then some (record {
        run_id = run_id;
        decision_id = decision_id;
        outcome = lit "correct";
        score = one;
        reason = lit "resolution signal matched later final event and proof pass";
      })
      else none
  evaluate_action fetch_proof proof_later final_later run_id decision_id =
      if proof_later
      then some (record {
        run_id = run_id;
        decision_id = decision_id;
        outcome = lit "useful";
        score = dec 8 10;
        reason = lit "proof fetch led to later txoracle pass";
      })
      else none
  evaluate_action _ _ _ _ _ = none

  unfoldable pub evaluate_decision :
      Text → AgentDecision F → List (TxLineEvent F) → Option (AgentEvaluation F)
  unfolding evaluate_action
  evaluate_decision run_id decision later_events =
      evaluate_action decision.action (any proof_passed later_events) (any final_seen later_events)
        run_id decision.id
