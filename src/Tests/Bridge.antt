-- ===== src/Tests/Bridge.antt =====
-- Runs of `Gate.Bridge`.
use txodds_agent_desk.Prelude.{◌≡◌, ◌↔◌, ◌⊎◌, refl, true, none, some, [], ◌∷◌, ◌++◌}
use txodds_agent_desk.Text.{Text}
use txodds_agent_desk.Json.{null}
use txodds_agent_desk.Float.Micro.{Micro, micro_float}
use txodds_agent_desk.Event.{
  TxLineEvent, TxLineProofReceipt, final_whistle, proof_received, settlement, passed,
}
use txodds_agent_desk.Run.{AgentRun}
use txodds_agent_desk.Gate.Merge.{SidecarResponse}
use txodds_agent_desk.Gate.StatKeys.{preferred_stat_keys, numeric_stat_keys}
use txodds_agent_desk.Gate.StatKeys.Kept.{IsKeySet, numeric_stat_keys-IsKeySet}
use txodds_agent_desk.Gate.Bridge.{ok, ProofSource, ready, load_proof_source}
use txodds_agent_desk.Gate.Bridge.Receipt.{AppConfig, Outside, ValidationBridge, request_proof}
use txodds_agent_desk.Gate.Bridge.Loaded.{CameAlong, WasFetched, load_proof_source-ready}
use txodds_agent_desk.Gate.Bridge.Passed.{WasValidated, WasLeft, request_proof-passes}
use txodds_agent_desk.Decision.{trigger_resolution}
use txodds_agent_desk.Round.{Supply, run_round}
use txodds_agent_desk.Round.Outcome.{chosen}
use txodds_agent_desk.Round.Bridged.{asked_run, bridged_receipt, run_round-bridged}
use txodds_agent_desk.Tests.{whistle}

-- A whistle with the keys " 7", "score.home", "3" and "7".
abbrev keyed : TxLineEvent Micro
keyed = record whistle {
  seq = some 5;
  stat_keys = (32 ∷ b'7' ∷ []) ∷ (b's' ∷ b'h' ∷ []) ∷ (b'3' ∷ []) ∷ (b'7' ∷ []) ∷ [];
}

abbrev keyed_run : AgentRun Micro
keyed_run = record {
  run_id = b'r' ∷ [];
  track = settlement;
  trigger = keyed;
  bids = [];
  winner = none;
  delivery = none;
  verdict = none;
  settlement = none;
  timeline = [];
}

three_seven : numeric_stat_keys keyed_run ≡ (b'3' ∷ []) ∷ (b'7' ∷ []) ∷ []
unfolding numeric_stat_keys
three_seven = refl

numeric_stat_keys-IsKeySet_example :
    IsKeySet (preferred_stat_keys keyed_run) (numeric_stat_keys keyed_run)
numeric_stat_keys-IsKeySet_example = numeric_stat_keys-IsKeySet keyed_run

abbrev answering : SidecarResponse
answering = record {
  ok = true;
  status = passed;
  verified = some true;
  reason = none;
  method = none;
  program_id = none;
  root_pda = none;
  root_present = some true;
  root_observed_slot = none;
  proof_present = some true;
  epoch_day = none;
  txline_ts = none;
  merkle_root = none;
  stat_proof_hash = none;
  raw = none;
}

abbrev outside : Outside
outside = record {
  path_join = λ dir name. dir ++ b'/' ∷ name;
  exists = λ path. true;
  fetch = λ path query. ok null;
  run_process = λ path request. ok answering;
  epoch_day_from_iso = λ t. none;
}

abbrev bridge : ValidationBridge
bridge = record { sidecar_path = b's' ∷ []; idl_dir = b'i' ∷ [] }

abbrev devnet_config : AppConfig
devnet_config = record {
  txline_network = b'd' ∷ [];
  txline_program_id = none;
  solana_cluster = b'd' ∷ [];
  rpc_devnet_endpoint = none;
  rpc_devnet_token = none;
  rpc_mainnet_endpoint = none;
  rpc_mainnet_token = none;
}

abbrev fetched : ProofSource
fetched = record { seq = 5; stat_keys = (b'3' ∷ []) ∷ (b'7' ∷ []) ∷ []; payload = null }

loads : load_proof_source outside.fetch keyed_run ≡ ready fetched
unfolding load_proof_source
loads = refl

load_proof_source-ready_example :
    (keyed.seq ≡ some 5) × (CameAlong keyed_run fetched ⊎ WasFetched keyed_run fetched)
load_proof_source-ready_example = load_proof_source-ready outside.fetch keyed_run fetched loads

passes : (request_proof outside bridge devnet_config keyed_run).1.pass ≡ true
unfolding request_proof
passes = refl

request_proof-passes_example :
    ((request_proof outside bridge devnet_config keyed_run).1.pass ≡ true) ↔ (
      WasValidated outside bridge devnet_config keyed_run
      ⊎ WasLeft outside bridge devnet_config keyed_run)
request_proof-passes_example = request_proof-passes outside bridge devnet_config keyed_run

abbrev supply : Supply
supply = record { uuid = b'u' ∷ []; now = b'n' ∷ []; explanation = []; payload = b'{' ∷ b'}' ∷ [] }

abbrev digest : Text → Text
digest t = b'#' ∷ []

abbrev observed : AgentRun Micro
observed = asked_run digest supply (b'r' ∷ []) settlement keyed outside bridge devnet_config

abbrev receipt : TxLineProofReceipt
receipt = bridged_receipt digest supply (b'r' ∷ []) settlement keyed outside bridge devnet_config

run_round-bridged_example :
    (chosen (run_round digest supply (b'r' ∷ []) settlement keyed receipt).1
      ≡ some trigger_resolution)
    ↔ ((settlement ≡ settlement)
        × ((final_whistle ≡ final_whistle) ⊎ (final_whistle ≡ proof_received))
        × (WasValidated outside bridge devnet_config observed
            ⊎ WasLeft outside bridge devnet_config observed))
run_round-bridged_example =
    run_round-bridged digest supply (b'r' ∷ []) settlement keyed outside bridge devnet_config
