-- ===== src/Tests/Desk.antt =====
-- Runs of the gate, the policy and a whole round.
use txodds_agent_desk.Prelude.{
  ℕ, ◌≡◌, ◌≢◌, ◌↔◌, ◌⊎◌, refl, true, false, Option, none, some, [], ◌∷◌, unwrap_or,
}
use txodds_agent_desk.Text.{Text, lit}
use txodds_agent_desk.Json.{null}
use txodds_agent_desk.Float.Micro.{Micro, micro_float, literal}
use txodds_agent_desk.Event.{
  TxLineEvent, final_whistle, proof_received, fixture, settlement, passed,
}
use txodds_agent_desk.Run.{AgentRun}
use txodds_agent_desk.Run
use txodds_agent_desk.Decision.{
  AgentSignal, AgentDecision, trigger_resolution, fetch_proof, proof_ready, high, pending,
  ProofGateDecision,
}
use txodds_agent_desk.Features.{derive_features}
use txodds_agent_desk.Signal.{build_signal}
use txodds_agent_desk.Gate.{gate_receipt, verdict_from_gate}
use txodds_agent_desk.Gate.Receipt.{IsProven, gate_receipt-IsProven}
use txodds_agent_desk.Gate.Merge.{SidecarResponse, merge_sidecar_response}
use txodds_agent_desk.Gate.Merge.Verified.{Confirms, merge-Confirms}
use txodds_agent_desk.Policy.{choose_action}
use txodds_agent_desk.Evaluation.{AgentEvaluation, evaluate_decision}
use txodds_agent_desk.Round.{Supply, empty_run, run_round}
use txodds_agent_desk.Round.Outcome.{chosen, verdict_status, run_round-trigger, run_round-pass}
use txodds_agent_desk.Tests.{proof_of_7, whistle}

abbrev supply : Supply
supply = record { uuid = b'u' ∷ []; now = b'n' ∷ []; explanation = []; payload = b'{' ∷ b'}' ∷ [] }

-- A digest of one character.
abbrev digest : Text → Text
digest t = b'#' ∷ []

abbrev started : AgentRun Micro
started = empty_run (b'r' ∷ []) (b'n' ∷ []) settlement whistle

abbrev round : AgentRun Micro × Option (AgentDecision Micro)
round = run_round digest supply (b'r' ∷ []) settlement whistle proof_of_7

run_round-trigger_example : (chosen round.1 ≡ some trigger_resolution) ↔ (
    (settlement ≡ settlement)
    × ((final_whistle ≡ final_whistle) ⊎ (final_whistle ≡ proof_received))
    × IsProven 7 proof_of_7)
run_round-trigger_example =
    run_round-trigger digest supply (b'r' ∷ []) settlement whistle proof_of_7

run_round-pass_example :
    (verdict_status round.0 ≡ some Run.pass)
    ↔ ((settlement ≡ settlement) × (final_whistle ≢ fixture) × IsProven 7 proof_of_7)
run_round-pass_example = run_round-pass digest supply (b'r' ∷ []) settlement whistle proof_of_7

gate_receipt-IsProven_example :
    (((gate_receipt started proof_of_7).pass ≡ true)
      ↔ IsProven started.trigger.fixture_id proof_of_7)
    × (((verdict_from_gate (gate_receipt started proof_of_7)).status ≡ Run.pass)
        ↔ IsProven started.trigger.fixture_id proof_of_7)
gate_receipt-IsProven_example = gate_receipt-IsProven started proof_of_7

no_proof_yet : started.trigger.proof ≡ none
unfolding empty_run
no_proof_yet = refl

abbrev no_day : Text → Option ℕ
no_day t = none

abbrev silent_sidecar : SidecarResponse
silent_sidecar = record {
  ok = true;
  status = passed;
  verified = some false;
  reason = none;
  method = none;
  program_id = none;
  root_pda = none;
  root_present = some true;
  root_observed_slot = none;
  proof_present = none;
  epoch_day = none;
  txline_ts = none;
  merkle_root = none;
  stat_proof_hash = none;
  raw = none;
}

abbrev willing_sidecar : SidecarResponse
willing_sidecar = record silent_sidecar { verified = some true; proof_present = some true }

merge-Confirms_example :
    ((merge_sidecar_response proof_of_7 null willing_sidecar).verified ≡ true)
    ↔ Confirms willing_sidecar
merge-Confirms_example = merge-Confirms proof_of_7 null willing_sidecar

merge_verified : (merge_sidecar_response proof_of_7 null willing_sidecar).verified ≡ true
unfolding merge_sidecar_response
merge_verified = refl

abbrev ready : AgentSignal Micro
ready = record {
  id = b's' ∷ [];
  fixture_id = 7;
  source_event_id = b'e' ∷ [];
  signal_type = proof_ready;
  severity = high;
  confidence = literal 72 100;
  features = [];
  rationale = [];
  created_at = [];
}

abbrev open_gate : ProofGateDecision
open_gate = record { pass = true; reason = []; checked = [] }

abbrev decided : AgentDecision Micro
decided =
    choose_action (b'u' ∷ []) (b'n' ∷ []) settlement whistle ready (derive_features whistle)
      (some open_gate) []

-- What the whistle signals.
abbrev emitted : AgentSignal Micro
emitted = unwrap_or (build_signal (b'u' ∷ []) (b'n' ∷ []) whistle (derive_features whistle)) ready

whistle_emits :
    build_signal (b'u' ∷ []) (b'n' ∷ []) whistle (derive_features whistle) ≡ some emitted
unfolding build_signal
whistle_emits = refl

abbrev useful : AgentEvaluation Micro
useful = record {
  run_id = b'r' ∷ [];
  decision_id = b'd' ∷ [];
  outcome = lit "useful";
  score = literal 8 10;
  reason = lit "proof fetch led to later txoracle pass";
}

abbrev fetching : AgentDecision Micro
fetching = record {
  id = b'd' ∷ [];
  signal_id = b's' ∷ [];
  action = fetch_proof;
  confidence = literal 72 100;
  policy_checks = [];
  explanation = [];
  execution_status = pending;
  created_at = [];
}

abbrev proven_whistle : TxLineEvent Micro
proven_whistle = record whistle { proof = some proof_of_7 }

judged_useful : evaluate_decision (b'r' ∷ []) fetching (proven_whistle ∷ []) ≡ some useful
unfolding evaluate_decision
judged_useful = refl
