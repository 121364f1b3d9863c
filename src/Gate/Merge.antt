-- ===== src/Gate/Merge.antt =====
-- native/src/services/proof/validation.rs: the answer of the validation sidecar merged into a receipt.
pub mod Verified
use txodds_agent_desk.Prelude.{
  ℕ, Bool, true, false, ◌&&◌, Option, none, some, List, if◌then◌else◌, unwrap_or, or_else,
}
use txodds_agent_desk.Text.{Text, lit}
use txodds_agent_desk.Json.{Value, null, string, object, end, field}
use txodds_agent_desk.Event.{TxLineProofReceipt, ValidationSimulationStatus, is_passed}

pub record SidecarResponse : Type 0 where
  pub ok : Bool
  pub status : ValidationSimulationStatus
  pub verified : Option Bool
  pub reason : Option Text
  pub method : Option Text
  pub program_id : Option Text
  pub root_pda : Option Text
  pub root_present : Option Bool
  pub root_observed_slot : Option ℕ
  pub proof_present : Option Bool
  pub epoch_day : Option ℕ
  pub txline_ts : Option Text
  pub merkle_root : Option Text
  pub stat_proof_hash : Option Text
  pub raw : Option Value

abbrev pub text_json : Option Text → Value
text_json none = null
text_json (some t) = string t

abbrev pub value_json : Option Value → Value
value_json none = null
value_json (some v) = v

unfoldable pub merge_sidecar_response :
    TxLineProofReceipt → Value → SidecarResponse → TxLineProofReceipt
merge_sidecar_response receipt proof_payload response =
    let verified =
      unwrap_or response.verified false
      && (unwrap_or response.proof_present false
          && (unwrap_or response.root_present false && is_passed response.status)) in
    record receipt {
      simulation_status = response.status;
      verified = verified;
      proof_present = unwrap_or response.proof_present receipt.proof_present;
      root_present = unwrap_or response.root_present false;
      root_pda = response.root_pda;
      txline_program = or_else response.program_id receipt.txline_program;
      root_observed_slot = response.root_observed_slot;
      epoch_day = or_else response.epoch_day receipt.epoch_day;
      txline_ts = or_else response.txline_ts receipt.txline_ts;
      merkle_root = response.merkle_root;
      stat_proof_hash = response.stat_proof_hash;
      note = unwrap_or response.reason (
          if verified
          then lit "txoracle validation sidecar passed"
          else lit "txoracle validation sidecar did not pass");
      raw = some (
          object (
            field (lit "source") (string (lit "txoracle-validation-sidecar")) (
              field (lit "method") (text_json response.method) (
                field (lit "sidecar") (value_json response.raw)
                  (field (lit "txlineProof") proof_payload end)))));
    }
