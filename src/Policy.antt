-- ===== src/Policy.antt =====
-- crates/agent-core/src/policy.rs: the deterministic policy. The fresh identifier and the time are
-- arguments.
pub mod Action
use txodds_agent_desk.Prelude.{
  ℕ, Bool, true, false, not, ◌&&◌, Option, none, some, List, [], ◌∷◌, ◌++◌, if◌then◌else◌, ltb,
  is_some_and, any,
}
use txodds_agent_desk.Text.{Text, lit, text_eq}
use txodds_agent_desk.Decimal.{show_ℕ}
use txodds_agent_desk.Float.{Float, nought, one}
use txodds_agent_desk.Event.{TrackMode, settlement, trading, fan, TxLineEvent}
use txodds_agent_desk.Decision.{
  ProofGateDecision, SignalType, score_event, red_card_reprice, sharp_odds_move, proof_ready,
  SignalSeverity, critical, high, medium, low, AgentSignal, AgentAction, trigger_resolution,
  fetch_proof, simulate_position, notify, watch, pending, blocked, PolicyCheck, AgentDecision,
}
use txodds_agent_desk.Features.{MarketFeatures}

unfoldable pub requested_action : TrackMode → SignalType → AgentAction
requested_action settlement proof_ready = trigger_resolution
requested_action settlement _ = fetch_proof
requested_action trading sharp_odds_move = simulate_position
requested_action fan score_event = notify
requested_action fan red_card_reprice = notify
requested_action _ _ = watch

unfoldable pub gated_action : AgentAction → Bool → AgentAction
gated_action trigger_resolution proof_passed =
    if not proof_passed then fetch_proof else trigger_resolution
gated_action other _ = other

abbrev gate_detail : Option ProofGateDecision → Text
gate_detail none = lit "proof not requested for this action"
gate_detail (some gate) = gate.reason

abbrev pub gate_passed : Option ProofGateDecision → Bool
gate_passed gate = is_some_and gate λ g. g.pass

-- A check that failed, other than the proof gate's.
unfoldable pub is_hard_block : PolicyCheck → Bool
is_hard_block check = not check.passed && not (text_eq check.name (lit "txoracle_proof_gate"))

module _ {F : Type 0} ⦃d : Float F⦄ where
  open d use {le, add, dec, min_f, show_fixed}

  unfoldable pub policy_checks :
      TxLineEvent F → AgentSignal F → Option ProofGateDecision → List PolicyCheck
  policy_checks event signal proof_gate =
      record {
        name = lit "live_txline_event";
        passed = ltb 0 event.fixture_id;
        detail = lit "fixture_id=" ++ show_ℕ event.fixture_id;
      }
      ∷ record {
        name = lit "signal_threshold";
        passed = le (dec 55 100) signal.confidence;
        detail = lit "confidence=" ++ show_fixed 3 signal.confidence;
      }
      ∷ record {
        name = lit "txoracle_proof_gate";
        passed = gate_passed proof_gate;
        detail = gate_detail proof_gate;
      }
      ∷ []

  unfoldable pub severity_bonus : SignalSeverity → F
  severity_bonus critical = dec 5 100
  severity_bonus high = dec 3 100
  severity_bonus medium = nought
  severity_bonus low = nought

  unfoldable pub choose_action :
      (uuid now : Text) (track : TrackMode)
      → TxLineEvent F
      → AgentSignal F
      → MarketFeatures F
      → Option ProofGateDecision
      → Text
      → AgentDecision F
  unfolding requested_action gated_action policy_checks is_hard_block severity_bonus
  choose_action uuid now track event signal features proof_gate explanation =
      let checks = policy_checks event signal proof_gate in
      record {
        id = lit "decision-" ++ uuid;
        signal_id = signal.id;
        action = gated_action (requested_action track signal.signal_type) (gate_passed proof_gate);
        confidence =
            min_f
              (add (add signal.confidence features.actionability_score)
                (severity_bonus signal.severity))
              one;
        policy_checks = checks;
        explanation = explanation;
        execution_status = if any is_hard_block checks then blocked else pending;
        created_at = now;
      }
