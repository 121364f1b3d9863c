-- ===== src/Round.antt =====
-- native/src/services/agent/runtime/mod.rs: the deterministic part of one round, from the trigger to the
-- decision in the run. The receipt that the validation bridge returns, the model's explanation, the
-- serialised package, its hash, fresh identifiers and times are arguments.
pub mod Bridged
pub mod Outcome
pub mod Severity
pub mod Decimals
use txodds_agent_desk.Prelude.{
  ℕ, Bool, true, false, Option, none, some, List, [], ◌∷◌, ◌++◌, if◌then◌else◌,
}
use txodds_agent_desk.Text.{Text, lit}
use txodds_agent_desk.Float.{Float}
use txodds_agent_desk.Event.{TxLineProofReceipt, TxLineEvent, TrackMode, kind_debug}
use txodds_agent_desk.Run.{
  needs_review, txline_input, policy, not_started, SettlementReceipt, TimelineEntry, AgentRun,
}
use txodds_agent_desk.Decision.{ProofGateDecision, AgentSignal, AgentDecision}
use txodds_agent_desk.Features.{MarketFeatures, derive_features}
use txodds_agent_desk.Signal.{build_signal}
use txodds_agent_desk.Gate.{gate_receipt}
use txodds_agent_desk.Policy.{choose_action}
use txodds_agent_desk.Apply.{signal_debug, action_debug, apply_decision_to_run}

-- What the world supplies to a round.
abbrev pub Supply : Type 0
Supply = record { uuid : Text; now : Text; explanation : Text; payload : Text }

module _ {F : Type 0} where
  abbrev empty_settlement : SettlementReceipt F
  empty_settlement = record {
    rail = none;
    status = not_started;
    reference = none;
    escrow_pda = none;
    deposit_tx = none;
    release_tx = none;
    explorer_url = none;
    chain_observed = some false;
    chain_slot = none;
    payment_url = none;
    payment_reference = none;
    payment_memo = none;
    payment_signature = none;
    payment_status = none;
    payment_recipient = none;
    payment_amount_sol = none;
  }

  unfoldable pub empty_run : (run_id now : Text) → TrackMode → TxLineEvent F → AgentRun F
  empty_run run_id now track event = record {
    run_id = run_id;
    track = track;
    trigger = event;
    bids = [];
    winner = none;
    delivery = none;
    verdict = none;
    settlement = some empty_settlement;
    timeline =
        record {
          at = now;
          label = lit "TRIGGER";
          detail = kind_debug event.kind ++ (lit ": " ++ event.title);
        }
        ∷ [];
  }

  unfoldable pub append_timeline : Text → AgentRun F → Text → Text → AgentRun F
  append_timeline now run label detail = record run {
    timeline = run.timeline ++ record { at = now; label = label; detail = detail } ∷ [];
  }

  -- The run after the first two steps.
  unfoldable pub observed_run : (now run_id : Text) → TrackMode → TxLineEvent F → AgentRun F
  unfolding append_timeline empty_run
  observed_run now run_id track event =
      let observed =
        append_timeline now (empty_run run_id now track event) (lit "OBSERVE")
          (lit "live TxLINE event observed") in
      append_timeline now observed (lit "FEATURES") (lit "market features derived")

  unfoldable pub attach_proof : TxLineProofReceipt → TxLineEvent F → TxLineEvent F
  attach_proof receipt event = record event { proof = some receipt }

  -- The run once the bridge has answered.
  unfoldable pub record_proof : Text → AgentRun F → TxLineProofReceipt → AgentRun F
  unfolding append_timeline
  record_proof now run receipt =
      let gate = gate_receipt run receipt in
      append_timeline now (record run { trigger = attach_proof receipt run.trigger })
        (lit "PROOF_GATE")
        ((if gate.pass then lit "pass" else lit "needs_review") ++ (lit ": " ++ gate.reason))

  pub no_signal_run : Text → AgentRun F → AgentRun F
  unfolding append_timeline
  no_signal_run now run =
      append_timeline now
        (record run {
          verdict = some (record {
            status = needs_review;
            reason = lit "event stayed below autonomous signal threshold";
            checked = txline_input ∷ policy ∷ [];
          });
        })
        (lit "DECISION") (lit "no actionable signal emitted")

module _ {F : Type 0} ⦃d : Float F⦄ (sha256_hex : Text → Text) where
  unfoldable pub decide_on :
      Supply
      → AgentRun F
      → MarketFeatures F
      → ProofGateDecision
      → AgentSignal F
      → AgentRun F × Option (AgentDecision F)
  unfolding append_timeline
  decide_on s run derived gate signal =
      let decision =
        choose_action s.uuid s.now run.track run.trigger signal derived (some gate) s.explanation in
      let run' = apply_decision_to_run sha256_hex run run.track s.payload gate signal decision in
      (
        append_timeline s.now run' (lit "DECISION")
            (signal_debug signal.signal_type ++ (lit " -> " ++ action_debug decision.action)),
        some decision,
      )

  abbrev on_signal :
      Supply
      → AgentRun F
      → MarketFeatures F
      → ProofGateDecision
      → Option (AgentSignal F)
      → AgentRun F × Option (AgentDecision F)
  on_signal s run derived gate none = (no_signal_run s.now run, none)
  on_signal s run derived gate (some signal) = decide_on s run derived gate signal

  -- The gate is taken of the run as it stood before the receipt was attached.
  unfoldable pub run_round :
      Supply
      → Text
      → TrackMode
      → TxLineEvent F
      → TxLineProofReceipt
      → AgentRun F × Option (AgentDecision F)
  unfolding decide_on no_signal_run
  run_round s run_id track event receipt =
      let run = observed_run s.now run_id track event in
      let gate = gate_receipt run receipt in
      let run' = record_proof s.now run receipt in
      let derived = derive_features run'.trigger in
      on_signal s run' derived gate (build_signal s.uuid s.now run'.trigger derived)
