-- ===== src/Gate/Bridge/Sidecar.antt =====
-- What the answer of the sidecar does to the receipt of the validation bridge,
-- native/src/services/proof/validation.rs, as far as the gate of native/src/services/proof/mod.rs reads
-- it.
use mathlib.Core.Path.{subst}
use txodds_agent_desk.Prelude.{ℕ, ◌≡◌, ◌≢◌, ◌↔◌, refl, true, false, some, [], arith}
use txodds_agent_desk.Event.{TxLineProofReceipt, passed}
use txodds_agent_desk.Gate.Receipt.{IsProven}
use txodds_agent_desk.Gate.Merge.{SidecarResponse, merge_sidecar_response}
use txodds_agent_desk.Gate.Bridge.{Answer, ok, err, ProofSource, ProofLoad, ready}
use txodds_agent_desk.Gate.Bridge.Receipt.{with_source, take_answer}

-- The sidecar answers for a receipt of the fixture that the simulation passed and the root is there,
-- and does not deny the proof.
pub record IsPassed (fixture_id : ℕ) (receipt : TxLineProofReceipt) (response : SidecarResponse)
    : Type 0 where
  pub same_fixture : receipt.fixture_id ≡ fixture_id
  pub simulated : response.status ≡ passed
  pub has_root : response.root_present ≡ some true
  pub not_denied : response.proof_present ≢ some false

-- A source was loaded that has stat keys, and the sidecar passed it.
pub record IsValidated (fixture_id : ℕ) (receipt : TxLineProofReceipt) (load : ProofLoad)
    (ask : ProofSource → Answer SidecarResponse) : Type 0 where
  pub source : ProofSource
  pub response : SidecarResponse
  pub loaded : load ≡ ready source
  pub has_keys : source.stat_keys ≢ []
  pub answered : ask source ≡ ok response
  pub is_passed : IsPassed fixture_id receipt response

merged-IsProven :
    (fixture_id : ℕ) (source : ProofSource) (receipt : TxLineProofReceipt)
    (response : SidecarResponse)
    → IsProven fixture_id
        (merge_sidecar_response (with_source source receipt) source.payload response)
      ↔ ((source.stat_keys ≢ []) × IsPassed fixture_id receipt response)
unfolding merge_sidecar_response
merged-IsProven fixture_id source receipt response = (
  λ p. (
    p.has_keys,
    record {
      same_fixture = p.same_fixture;
      simulated = p.simulated;
      has_root = let root = p.has_root in ground arith;
      not_denied = λ e. let proof = p.has_proof in ground arith;
    },
  ),
  λ q. record {
    same_fixture = q.1.same_fixture;
    has_keys = q.0;
    has_proof = let kept = q.1.not_denied in ground arith;
    has_root = let root = q.1.has_root in ground arith;
    simulated = q.1.simulated;
  },
)

pub answer-IsProven :
    (fixture_id : ℕ) (source : ProofSource) (receipt : TxLineProofReceipt)
    (answer : Answer SidecarResponse)
    → IsProven fixture_id (take_answer (with_source source receipt) source.payload answer)
    → (response : SidecarResponse) × ((answer ≡ ok response)
        × ((source.stat_keys ≢ []) × IsPassed fixture_id receipt response))
unfolding take_answer
answer-IsProven fixture_id source receipt (ok response) p =
    (response, (refl, (merged-IsProven fixture_id source receipt response).0 p))
answer-IsProven fixture_id source receipt (err e) p = let stopped = p.simulated in absurd cc

pub asked-IsProven :
    (fixture_id : ℕ) (receipt : TxLineProofReceipt) (source : ProofSource)
    (ask : ProofSource → Answer SidecarResponse)
    → IsValidated fixture_id receipt (ready source) ask
    → IsProven fixture_id (take_answer (with_source source receipt) source.payload (ask source))
unfolding take_answer
asked-IsProven fixture_id receipt source ask v =
    let loaded = v.loaded in
    let same : v.source ≡ source = cc in
    subst (λ s. IsProven fixture_id (take_answer (with_source s receipt) s.payload (ask s))) same
      (rw (v.answered)
        ((merged-IsProven fixture_id v.source receipt v.response).1 (v.has_keys, v.is_passed)))
