-- ===== src/Gate/Receipt.antt =====
-- gate_receipt and receipt_for_run of native/src/services/proof/mod.rs: when the proof gate passes.
use txodds_agent_desk.Prelude.{
  ℕ, ◌≡◌, ◌≢◌, ◌↔◌, refl, true, false, Option, none, [], arith, is_empty,
}
use txodds_agent_desk.Text.{Text, lit}
use txodds_agent_desk.Event.{TxLineEventKind, goal, passed, TxLineProofReceipt}
use txodds_agent_desk.Run.{AgentRun}
use txodds_agent_desk.Run
use txodds_agent_desk.Gate.{
  fallback_stat_keys, fresh_receipt, receipt_for_run, gate_receipt, verdict_from_gate,
}

-- What a receipt has to show about a fixture.
pub record IsProven (fixture_id : ℕ) (r : TxLineProofReceipt) : Type 0 where
  pub same_fixture : r.fixture_id ≡ fixture_id
  pub has_keys : r.stat_keys ≢ []
  pub has_proof : r.proof_present ≡ true
  pub has_root : r.root_present ≡ true
  pub simulated : r.simulation_status ≡ passed

fallback_stat_keys-some : (k : TxLineEventKind) → is_empty (fallback_stat_keys k) ≡ false
unfolding fallback_stat_keys
fallback_stat_keys-some goal = refl
fallback_stat_keys-some _ = refl

module _ {F : Type 0} where
  -- The gate passes exactly on a receipt for the run's fixture that has stat keys, a proof payload,
  -- an observed root and a passed simulation, and just then its verdict is a pass.
  pub gate_receipt-IsProven :
      (run : AgentRun F) (r : TxLineProofReceipt)
      → (((gate_receipt run r).pass ≡ true) ↔ IsProven run.trigger.fixture_id r)
        × (((verdict_from_gate (gate_receipt run r)).status ≡ Run.pass)
            ↔ IsProven run.trigger.fixture_id r)
  unfolding gate_receipt verdict_from_gate
  gate_receipt-IsProven run r = (
    (
      λ h. record {
        same_fixture = ground arith;
        has_keys = λ e. ground arith;
        has_proof = ground arith;
        has_root = ground arith;
        simulated = ground arith;
      },
      λ p. ground arith,
    ),
    (
      λ h. record {
        same_fixture = ground arith;
        has_keys = λ e. ground arith;
        has_proof = ground arith;
        has_root = ground arith;
        simulated = ground arith;
      },
      λ p. ground arith,
    ),
  )

  -- A run whose event brings no proof gets a receipt that never passes the gate: the gate's reason is
  -- the missing payload, for every event.
  pub gate_receipt-fresh :
      (epoch_day : Text → Option ℕ) (run : AgentRun F)
      → run.trigger.proof ≡ none
      → ((gate_receipt run (receipt_for_run epoch_day run)).pass ≡ false)
        × ((gate_receipt run (receipt_for_run epoch_day run)).reason ≡ lit "proof payload missing")
  unfolding gate_receipt receipt_for_run fresh_receipt
  gate_receipt-fresh epoch_day run e = ground (arith, fallback_stat_keys-some run.trigger.kind)
