-- ===== src/Gate.antt =====
-- native/src/services/proof/mod.rs: the receipt built for a run, and the deterministic proof gate. The
-- day of a timestamp, which the library `chrono` computes, is a parameter.
pub mod Receipt
pub mod Bridge
pub mod Merge
pub mod StatKeys
use Prim.Native.String.{String}
use txodds_agent_desk.Prelude.{
  ℕ, Bool, true, false, not, Option, none, some, List, [], ◌∷◌, ◌++◌, if◌then◌else◌, ◌==◌, ◌>>=◌,
  is_empty,
}
use txodds_agent_desk.Text.{Text, lit}
use txodds_agent_desk.Json.{Value, null, string, object, end, field}
use txodds_agent_desk.Event.{
  TxLineEventKind, goal, score_update, odds_move, odds_update, TxLineProofReceipt, TxLineEvent,
  not_started, is_passed,
}
use txodds_agent_desk.Run.{AgentRun, VerificationVerdict, txline_input, hash, proof, policy}
use txodds_agent_desk.Run
use txodds_agent_desk.Decision.{ProofGateDecision}

unfoldable pub fallback_stat_keys : TxLineEventKind → List Text
fallback_stat_keys goal = lit "score.home" ∷ lit "score.away" ∷ []
fallback_stat_keys score_update = lit "score.home" ∷ lit "score.away" ∷ []
fallback_stat_keys odds_move = lit "odds.stream" ∷ []
fallback_stat_keys odds_update = lit "odds.stream" ∷ []
fallback_stat_keys _ = lit "fixture.context" ∷ []

abbrev to_json : Option Text → Value
to_json none = null
to_json (some t) = string t

abbrev pub receipt_or : Option TxLineProofReceipt → TxLineProofReceipt → TxLineProofReceipt
receipt_or none r = r
receipt_or (some p) r = p

-- The names of the checks.
abbrev gate_checks : List Text
gate_checks =
    lit "fixture_id"
    ∷ lit "stat_keys"
    ∷ lit "proof_payload"
    ∷ lit "root_observed"
    ∷ lit "simulation_status"
    ∷ []

abbrev refusal : String → ProofGateDecision
refusal reason = record { pass = false; reason = lit reason; checked = gate_checks }

abbrev simulated : Bool → ProofGateDecision
simulated pass = record {
  pass = pass;
  reason =
      if pass
      then lit "TxLINE proof matched observed txoracle root and validation simulation passed"
      else lit "validation simulation did not pass";
  checked = gate_checks ++ lit "deterministic_predicate" ∷ [];
}

module _ {F : Type 0} where
  unfoldable pub fresh_receipt : (Text → Option ℕ) → AgentRun F → TxLineProofReceipt
  unfolding fallback_stat_keys
  fresh_receipt epoch_day_from_iso run = record {
    fixture_id = run.trigger.fixture_id;
    seq = run.trigger.seq;
    stat_key = none;
    stat_keys =
        if is_empty run.trigger.stat_keys
        then fallback_stat_keys run.trigger.kind
        else run.trigger.stat_keys;
    txline_ts = run.trigger.txline_ts;
    epoch_day = run.trigger.txline_ts >>= epoch_day_from_iso;
    merkle_root = none;
    stat_proof_hash = none;
    root_pda = none;
    txline_program = none;
    root_observed_slot = none;
    proof_present = false;
    root_present = false;
    simulation_status = not_started;
    verified = false;
    note = lit "TxLINE proof request queued; no proof/root payload is available yet";
    raw = some (
        object (
          field (lit "source") (string (lit "local-proof-builder")) (
            field (lit "triggerEventId") (string run.trigger.id)
              (field (lit "schemaFamily") (to_json run.trigger.schema_family) end))));
  }

  unfoldable pub receipt_for_run : (Text → Option ℕ) → AgentRun F → TxLineProofReceipt
  unfolding fresh_receipt
  receipt_for_run epoch_day_from_iso run =
      receipt_or run.trigger.proof (fresh_receipt epoch_day_from_iso run)

  unfoldable pub gate_receipt : AgentRun F → TxLineProofReceipt → ProofGateDecision
  gate_receipt run receipt =
      if not (receipt.fixture_id == run.trigger.fixture_id)
      then refusal "proof fixture does not match trigger fixture"
      else if is_empty receipt.stat_keys
      then refusal "proof receipt has no stat keys"
      else if not receipt.proof_present
      then refusal "proof payload missing"
      else if not receipt.root_present
      then refusal "txoracle root not observed"
      else simulated (is_passed receipt.simulation_status)

unfoldable pub verdict_from_gate : ProofGateDecision → VerificationVerdict
verdict_from_gate gate = record {
  status = if gate.pass then Run.pass else Run.needs_review;
  reason = gate.reason;
  checked = txline_input ∷ hash ∷ proof ∷ policy ∷ [];
}
