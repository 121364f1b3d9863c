-- ===== src/Policy/Action.antt =====
-- choose_action of crates/agent-core/src/policy.rs: its action, status and confidence.
use txodds_agent_desk.Prelude.{◌<◌, ◌≡◌, ◌↔◌, ◌⊎◌, Bool, true, false, Option, arith, any}
use txodds_agent_desk.Text.{Text, lit, text_eq}
use txodds_agent_desk.Float.{Float, one, nought}
use txodds_agent_desk.Float.Order.{IsOrdered}
use txodds_agent_desk.Event.{TrackMode, settlement, TxLineEvent}
use txodds_agent_desk.Decision.{
  ProofGateDecision, SignalType, proof_ready, AgentSignal, trigger_resolution, pending, blocked,
}
use txodds_agent_desk.Features.{MarketFeatures}
use txodds_agent_desk.Policy.{
  requested_action, gated_action, gate_passed, is_hard_block, policy_checks, choose_action,
}

gated-requested :
    (track : TrackMode) (type : SignalType) (passed : Bool)
    → (gated_action (requested_action track type) passed ≡ trigger_resolution)
      ↔ ((track ≡ settlement) × (type ≡ proof_ready) × (passed ≡ true))
unfolding gated_action requested_action
gated-requested track type passed = ground arith

module _ {F : Type 0} ⦃d : Float F⦄ where
  hard_blocks :
      (event : TxLineEvent F) (signal : AgentSignal F) (gate : Option ProofGateDecision)
      → (any is_hard_block (policy_checks event signal gate) ≡ false)
        ↔ ((0 < event.fixture_id) × (d.le (d.dec 55 100) signal.confidence ≡ true))
  unfolding is_hard_block policy_checks text_eq lit
  hard_blocks event signal gate = ground arith

  module _ (uuid now : Text) (track : TrackMode) (event : TxLineEvent F) (signal : AgentSignal F)
      (features : MarketFeatures F) (gate : Option ProofGateDecision) (explanation : Text) where
    -- The policy triggers a resolution exactly on the settlement track, for a proof-ready signal, with
    -- a proof gate that passed.
    pub choose_action-trigger :
        ((choose_action uuid now track event signal features gate explanation).action
          ≡ trigger_resolution)
        ↔ ((track ≡ settlement) × (signal.signal_type ≡ proof_ready) × (gate_passed gate ≡ true))
    unfolding choose_action
    choose_action-trigger = gated-requested track signal.signal_type (gate_passed gate)

    -- A decision is pending exactly if the event has a fixture and the signal's confidence is at
    -- least 0.55, and otherwise blocked; the proof gate blocks nothing by itself.
    pub choose_action-pending :
        (((choose_action uuid now track event signal features gate explanation).execution_status
            ≡ pending)
          ↔ ((0 < event.fixture_id) × (d.le (d.dec 55 100) signal.confidence ≡ true)))
        × (((choose_action uuid now track event signal features gate explanation).execution_status
              ≡ pending)
            ⊎ ((choose_action uuid now track event signal features gate
                  explanation).execution_status
                ≡ blocked))
    unfolding choose_action
    choose_action-pending = ground (arith, hard_blocks event signal gate)

    -- The confidence of a decision is never above 1.
    pub choose_action-confidence :
        IsOrdered F
        → d.le (choose_action uuid now track event signal features gate explanation).confidence one
          ≡ true
    unfolding choose_action
    choose_action-confidence laws =
        let unit = laws.le_of_lt nought one laws.nought_lt_one in
        laws.min_le_right _ one (laws.number_of_le nought one unit).1
