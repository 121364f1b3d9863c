-- ===== src/Round/Outcome.antt =====
-- What a round of native/src/services/agent/runtime/mod.rs decides.
use txodds_agent_desk.Prelude.{◌≡◌, ◌≢◌, ◌↔◌, ◌⊎◌, true, Option, none, some, arith}
use txodds_agent_desk.Text.{Text}
use txodds_agent_desk.Float.{Float}
use txodds_agent_desk.Event.{
  fixture, final_whistle, proof_received, TxLineProofReceipt, TxLineEvent, TrackMode, settlement,
}
use txodds_agent_desk.Run
use txodds_agent_desk.Run.{AgentRun, VerdictStatus, SettlementReceipt, SettlementStatus}
use txodds_agent_desk.Decision.{ProofGateDecision, AgentAction, AgentDecision, trigger_resolution}
use txodds_agent_desk.Signal.{build_signal}
use txodds_agent_desk.Gate.{gate_receipt}
use txodds_agent_desk.Gate.Receipt.{IsProven, gate_receipt-IsProven}
use txodds_agent_desk.Policy.{choose_action}
use txodds_agent_desk.Apply.{apply_decision_to_run}
use txodds_agent_desk.Round.{Supply, observed_run, record_proof, attach_proof, run_round}

module _ {F : Type 0} where
  abbrev pub verdict_status : AgentRun F → Option VerdictStatus
  verdict_status run = elim run.verdict [ none ↦ none | some v ↦ some v.status ]

  abbrev pub chosen : Option (AgentDecision F) → Option AgentAction
  chosen none = none
  chosen (some decision) = some decision.action

module _ {F : Type 0} ⦃d : Float F⦄ (sha256_hex : Text → Text) (s : Supply) (run_id : Text)
    (track : TrackMode) (event : TxLineEvent F) (receipt : TxLineProofReceipt) where
  abbrev gate : ProofGateDecision
  gate = gate_receipt (observed_run s.now run_id track event) receipt

  gate_pass_iff : (gate.pass ≡ true) ↔ IsProven event.fixture_id receipt
  unfolding observed_run
  gate_pass_iff = (gate_receipt-IsProven (observed_run s.now run_id track event) receipt).0

  trigger_iff :
      (chosen (run_round sha256_hex s run_id track event receipt).1 ≡ some trigger_resolution) ↔ (
        (track ≡ settlement)
        × ((event.kind ≡ final_whistle) ⊎ (event.kind ≡ proof_received))
        × (gate.pass ≡ true))
  unfolding run_round observed_run build_signal record_proof attach_proof choose_action
  trigger_iff = ground arith

  -- A round triggers a resolution exactly on the settlement track, at a final whistle or a received
  -- proof, with a receipt that proves the event's fixture.
  pub run_round-trigger :
      (chosen (run_round sha256_hex s run_id track event receipt).1 ≡ some trigger_resolution) ↔ (
        (track ≡ settlement)
        × ((event.kind ≡ final_whistle) ⊎ (event.kind ≡ proof_received))
        × IsProven event.fixture_id receipt)
  run_round-trigger = (
    λ h. let (t, k, g) = trigger_iff.0 h in (t, k, gate_pass_iff.0 g),
    λ (t, k, p). trigger_iff.1 (t, k, gate_pass_iff.1 p),
  )

  verdict_iff :
      (verdict_status (run_round sha256_hex s run_id track event receipt).0 ≡ some Run.pass)
      ↔ ((track ≡ settlement) × (event.kind ≢ fixture) × (gate.pass ≡ true))
  unfolding run_round observed_run build_signal record_proof attach_proof apply_decision_to_run
  verdict_iff = ground arith

  -- A round's verdict is a pass exactly on the settlement track, for an event other than a fixture
  -- notice, with a receipt that proves the event's fixture.
  pub run_round-pass :
      (verdict_status (run_round sha256_hex s run_id track event receipt).0 ≡ some Run.pass)
      ↔ ((track ≡ settlement) × (event.kind ≢ fixture) × IsProven event.fixture_id receipt)
  run_round-pass = (
    λ h. let (t, k, g) = verdict_iff.0 h in (t, k, gate_pass_iff.0 g),
    λ (t, k, p). verdict_iff.1 (t, k, gate_pass_iff.1 p),
  )
