-- ===== src/Gate/Bridge/Receipt.antt =====
-- native/src/services/proof/validation.rs: receipt_for_run of the bridge, the request to the sidecar and
-- the settings of native/src/config.rs that go into it. The file system and the run of the sidecar
-- process are parameters.
use txodds_agent_desk.Prelude.{
  ℕ, Bool, true, false, not, ◌||◌, Option, none, some, List, [], ◌∷◌, ◌++◌, if◌then◌else◌,
  unwrap_or,
}
use txodds_agent_desk.Text.{Text, lit}
use txodds_agent_desk.Decimal.{show_ℕ}
use txodds_agent_desk.Decimal.Parse.{parse_u64}
use txodds_agent_desk.Json.{Value, number, string, array, object, end, field}
use txodds_agent_desk.Event.{
  TxLineProofReceipt, Cluster, devnet, mainnet, ValidationSimulationStatus,
}
use txodds_agent_desk.Event
use txodds_agent_desk.Run.{AgentRun}
use txodds_agent_desk.Backtest.{eq_ignore_ascii_case}
use txodds_agent_desk.Decision.{ProofGateDecision}
use txodds_agent_desk.Gate
use txodds_agent_desk.Gate.Merge.{SidecarResponse, merge_sidecar_response, text_json}
use txodds_agent_desk.Gate.Bridge.{
  config, show_error, Answer, ok, err, Fetch, ProofSource, ProofLoad, ready, not_started,
  unavailable, text_items, report, load_proof_source,
}

-- The settings that the bridge reads.
pub record AppConfig : Type 0 where
  pub txline_network : Text
  pub txline_program_id : Option Text
  pub solana_cluster : Text
  pub rpc_devnet_endpoint : Option Text
  pub rpc_devnet_token : Option Text
  pub rpc_mainnet_endpoint : Option Text
  pub rpc_mainnet_token : Option Text

unfoldable pub txline_program_id : AppConfig → Text
unfolding eq_ignore_ascii_case
txline_program_id c = unwrap_or c.txline_program_id (
    if eq_ignore_ascii_case c.txline_network (lit "mainnet")
    then lit "9ExbZjAapQww1vfcisDmrngPinHTEfpjYRWMunJgcKaA"
    else lit "6pW64gN1s2uqjHkn1unFeEjAwJkPGHoppGvS715wyP2J")

unfoldable pub rpc_endpoint : AppConfig → Cluster → Option Text
rpc_endpoint c devnet = c.rpc_devnet_endpoint
rpc_endpoint c mainnet = c.rpc_mainnet_endpoint

unfoldable pub rpc_token : AppConfig → Cluster → Option Text
rpc_token c devnet = c.rpc_devnet_token
rpc_token c mainnet = c.rpc_mainnet_token

unfoldable pub txoracle_cluster : AppConfig → Cluster
unfolding eq_ignore_ascii_case
txoracle_cluster c =
    if eq_ignore_ascii_case c.txline_network (lit "mainnet")
      || eq_ignore_ascii_case c.solana_cluster (lit "mainnet")
    then mainnet
    else devnet

unfoldable pub cluster_name : Cluster → Text
cluster_name devnet = lit "devnet"
cluster_name mainnet = lit "mainnet"

abbrev public_rpc : Cluster → Text
public_rpc devnet = lit "https://api.devnet.solana.com"
public_rpc mainnet = lit "https://api.mainnet-beta.solana.com"

-- The address of the RPC server, and the headers as a JSON object.
unfoldable pub rpc_config : AppConfig → Cluster → Text × Value
unfolding rpc_endpoint rpc_token
rpc_config c cluster = (
  unwrap_or (rpc_endpoint c cluster) (public_rpc cluster),
  object (elim (rpc_token c cluster) [
    | none ↦ end
    | some token ↦ field (lit "x-token") (string token) end
  ]),
)

pub record SidecarRequest : Type 0 where
  pub cmd : Text
  pub payload : Value

-- What the bridge meets outside: paths, the requests to TxLINE, the process of the sidecar, and the
-- day of a timestamp.
pub record Outside : Type 0 where
  pub path_join : Text → Text → Text
  pub exists : Text → Bool
  pub fetch : Fetch
  pub run_process : Text → SidecarRequest → Answer SidecarResponse
  pub epoch_day_from_iso : Text → Option ℕ

unfoldable pub invoke_sidecar : Outside → Text → SidecarRequest → Answer SidecarResponse
invoke_sidecar out sidecar_path request =
    if not (out.exists sidecar_path)
    then err (config (lit "txoracle validation sidecar not found at " ++ sidecar_path))
    else out.run_process sidecar_path request

pub record ValidationBridge : Type 0 where
  pub sidecar_path : Text
  pub idl_dir : Text

abbrev idl_name : Cluster → Text
idl_name devnet = lit "txoracle.devnet.json"
idl_name mainnet = lit "txoracle.mainnet.json"

unfoldable pub idl_path : Outside → ValidationBridge → Cluster → Text
idl_path out bridge cluster = out.path_join bridge.idl_dir (idl_name cluster)

abbrev first_key : List Text → Option ℕ
first_key [] = none
first_key (k ∷ _) = parse_u64 k

abbrev pub with_source : ProofSource → TxLineProofReceipt → TxLineProofReceipt
with_source source receipt = record receipt {
  seq = some source.seq;
  stat_key = first_key source.stat_keys;
  stat_keys = source.stat_keys;
  proof_present = true;
}

unfoldable pub take_answer :
    TxLineProofReceipt → Value → Answer SidecarResponse → TxLineProofReceipt
unfolding merge_sidecar_response show_error
take_answer receipt payload (ok response) = merge_sidecar_response receipt payload response
take_answer receipt payload (err e) = record receipt {
  simulation_status = Event.unavailable;
  verified = false;
  note = lit "txoracle validation sidecar unavailable: " ++ show_error e;
  raw = some (report "unavailable" (show_error e) end);
}

unfoldable pub base_receipt : {F : Type 0} → Outside → AppConfig → AgentRun F → TxLineProofReceipt
unfolding Gate.receipt_for_run txline_program_id
base_receipt out c run = record (Gate.receipt_for_run out.epoch_day_from_iso run) {
  txline_program = some (txline_program_id c);
}

module _ {F : Type 0} (out : Outside) (bridge : ValidationBridge) (c : AppConfig)
    (run : AgentRun F) where
  unfoldable pub sidecar_request : Text → ProofSource → SidecarRequest
  unfolding show_ℕ cluster_name txline_program_id rpc_config txoracle_cluster
  sidecar_request idl source =
      let cluster = txoracle_cluster c in
      let (rpc_url, rpc_headers) = rpc_config c cluster in
      record {
        cmd = lit "simulateValidateStat";
        payload = object (
            field (lit "cluster") (string (cluster_name cluster)) (
              field (lit "programId") (string (txline_program_id c)) (
                field (lit "fixtureId") (number (show_ℕ run.trigger.fixture_id)) (
                  field (lit "seq") (number (show_ℕ source.seq)) (
                    field (lit "statKeys") (array (text_items source.stat_keys)) (
                      field (lit "txlineTs") (text_json run.trigger.txline_ts) (
                        field (lit "rpcUrl") (string rpc_url) (
                          field (lit "rpcHeaders") rpc_headers (
                            field (lit "idlPath") (string idl)
                              (field (lit "proof") source.payload end))))))))));
      }

  -- The receipt with what became of the proof.
  unfoldable pub validate : Text → TxLineProofReceipt → ProofLoad → TxLineProofReceipt
  unfolding sidecar_request invoke_sidecar take_answer
  validate idl receipt (ready source) =
      take_answer (with_source source receipt) source.payload
        (invoke_sidecar out bridge.sidecar_path (sidecar_request idl source))
  validate idl receipt (not_started note raw) = record receipt { note = note; raw = some raw }
  validate idl receipt (unavailable note raw) = record receipt {
    simulation_status = Event.unavailable;
    note = note;
    raw = some raw;
  }

  unfoldable pub bridge_receipt : TxLineProofReceipt
  unfolding base_receipt idl_path txoracle_cluster load_proof_source validate
  bridge_receipt =
      let receipt = base_receipt out c run in
      let idl = idl_path out bridge (txoracle_cluster c) in
      if not (out.exists idl)
      then record receipt {
        note = lit "txoracle validation not started; official IDL missing at " ++ idl;
        raw =
            some
              (report "not_started" (lit "missing_idl") (field (lit "idlPath") (string idl) end));
      }
      else validate idl receipt (load_proof_source out.fetch run)

  -- native/src/services/agent/tools.rs: the receipt, and what the gate says of it.
  unfoldable pub request_proof : TxLineProofReceipt × ProofGateDecision
  unfolding bridge_receipt Gate.gate_receipt
  request_proof = (bridge_receipt, Gate.gate_receipt run bridge_receipt)
