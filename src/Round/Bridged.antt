-- ===== src/Round/Bridged.antt =====
-- A round of native/src/services/agent/runtime/mod.rs with the receipt that the validation bridge of
-- native/src/services/proof/validation.rs returns for it.
use txodds_agent_desk.Prelude.{◌≡◌, ◌↔◌, ◌⊎◌, some}
use txodds_agent_desk.Text.{Text}
use txodds_agent_desk.Float.{Float}
use txodds_agent_desk.Event.{
  final_whistle, proof_received, TxLineEvent, TxLineProofReceipt, TrackMode, settlement,
}
use txodds_agent_desk.Run.{AgentRun}
use txodds_agent_desk.Decision.{trigger_resolution}
use txodds_agent_desk.Gate.Receipt.{IsProven}
use txodds_agent_desk.Gate.Bridge.Receipt.{AppConfig, Outside, ValidationBridge, bridge_receipt}
use txodds_agent_desk.Gate.Bridge.Passed.{WasValidated, WasLeft, bridge_receipt-IsProven}
use txodds_agent_desk.Round.{Supply, observed_run, run_round}
use txodds_agent_desk.Round.Outcome.{chosen, run_round-trigger}

module _ {F : Type 0} ⦃d : Float F⦄ (sha256_hex : Text → Text) (s : Supply) (run_id : Text)
    (track : TrackMode) (event : TxLineEvent F) (out : Outside) (bridge : ValidationBridge)
    (c : AppConfig) where
  -- The run that the bridge is asked about, and its receipt.
  abbrev pub asked_run : AgentRun F
  asked_run = observed_run s.now run_id track event

  abbrev pub bridged_receipt : TxLineProofReceipt
  bridged_receipt = bridge_receipt out bridge c asked_run

  bridged-IsProven :
      IsProven event.fixture_id bridged_receipt
      ↔ (WasValidated out bridge c asked_run ⊎ WasLeft out bridge c asked_run)
  unfolding observed_run
  bridged-IsProven = bridge_receipt-IsProven out bridge c asked_run

  -- A round whose receipt the bridge returns triggers a resolution exactly on the settlement track, at
  -- a final whistle or a received proof, and in one of two cases. The IDL is there, and for a source
  -- that was loaded with stat keys, and a receipt of the fixture, the sidecar passed the simulation,
  -- found the root and did not deny the proof; or the event itself brought a receipt that the gate
  -- passes, and the IDL is missing or the load reports that nothing was started.
  pub run_round-bridged :
      (chosen (run_round sha256_hex s run_id track event bridged_receipt).1
        ≡ some trigger_resolution)
      ↔ ((track ≡ settlement)
          × ((event.kind ≡ final_whistle) ⊎ (event.kind ≡ proof_received))
          × (WasValidated out bridge c asked_run ⊎ WasLeft out bridge c asked_run))
  run_round-bridged =
      let (to, from) = run_round-trigger sha256_hex s run_id track event bridged_receipt in
      let (shown, unshown) = bridged-IsProven in
      (λ h. let (t, k, p) = to h in (t, k, shown p), λ (t, k, w). from (t, k, unshown w))
