-- ===== src/Gate/Merge/Verified.antt =====
-- The `verified` flag of a receipt merged by native/src/services/proof/validation.rs, and the gate of
-- native/src/services/proof/mod.rs on it.
use txodds_agent_desk.Prelude.{◌≡◌, ◌↔◌, true, some, arith}
use txodds_agent_desk.Json.{Value}
use txodds_agent_desk.Event.{TxLineProofReceipt, passed}
use txodds_agent_desk.Gate.Merge.{SidecarResponse, merge_sidecar_response}

-- What the sidecar says outright.
pub record Confirms (r : SidecarResponse) : Type 0 where
  pub says_verified : r.verified ≡ some true
  pub says_proof : r.proof_present ≡ some true
  pub says_root : r.root_present ≡ some true
  pub says_passed : r.status ≡ passed

-- A merged receipt is verified exactly if the sidecar itself reports a verified, present and rooted
-- proof and a passed simulation; what the receipt said before does not count.
pub merge-Confirms :
    (receipt : TxLineProofReceipt) (payload : Value) (r : SidecarResponse)
    → ((merge_sidecar_response receipt payload r).verified ≡ true) ↔ Confirms r
unfolding merge_sidecar_response
merge-Confirms receipt payload r = (
  λ h. record {
    says_verified = ground arith;
    says_proof = ground arith;
    says_root = ground arith;
    says_passed = ground arith;
  },
  λ c. ground arith,
)
