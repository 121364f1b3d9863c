-- ===== src/Gate/Bridge/Passed.antt =====
-- When a receipt of the validation bridge, native/src/services/proof/validation.rs, passes the gate of
-- native/src/services/proof/mod.rs.
use mathlib.Core.Path.{subst}
use txodds_agent_desk.Prelude.{
  ℕ, ◌≡◌, ◌↔◌, ◌⊎◌, inl, inr, refl, true, false, Option, none, some, Bool-cases,
}
use txodds_agent_desk.Text.{Text}
use txodds_agent_desk.Json.{Value}
use txodds_agent_desk.Event.{TxLineProofReceipt}
use txodds_agent_desk.Run.{AgentRun}
use txodds_agent_desk.Gate
use txodds_agent_desk.Gate.{fresh_receipt, receipt_or}
use txodds_agent_desk.Gate.Receipt.{IsProven, gate_receipt-IsProven}
use txodds_agent_desk.Gate.Merge.{SidecarResponse}
use txodds_agent_desk.Gate.Bridge.{
  Answer, ProofSource, ProofLoad, ready, not_started, unavailable, load_proof_source,
}
use txodds_agent_desk.Gate.Bridge.Sidecar.{IsValidated, answer-IsProven, asked-IsProven}
use txodds_agent_desk.Gate.Bridge.Receipt.{
  AppConfig, Outside, ValidationBridge, txline_program_id, txoracle_cluster, idl_path,
  invoke_sidecar, sidecar_request, validate, bridge_receipt, request_proof, base_receipt,
}

abbrev pub NotStarted : ProofLoad → Type 0
NotStarted (ready _) = ⊥
NotStarted (not_started _ _) = Unit
NotStarted (unavailable _ _) = ⊥

-- The fields that the gate reads are those of the receipt.
renoted :
    (fixture_id : ℕ) (r : TxLineProofReceipt) (program : Option Text) (note : Text)
    (raw : Option Value)
    → IsProven fixture_id (record r { txline_program = program; note = note; raw = raw })
      ↔ IsProven fixture_id r
renoted fixture_id r program note raw = (
  λ p. record {
    same_fixture = p.same_fixture;
    has_keys = p.has_keys;
    has_proof = p.has_proof;
    has_root = p.has_root;
    simulated = p.simulated;
  },
  λ p. record {
    same_fixture = p.same_fixture;
    has_keys = p.has_keys;
    has_proof = p.has_proof;
    has_root = p.has_root;
    simulated = p.simulated;
  },
)

-- A receipt that came with the event and shows the fixture by itself.
pub record IsAttached (fixture_id : ℕ) (o : Option TxLineProofReceipt) : Type 0 where
  pub proof : TxLineProofReceipt
  pub attached : o ≡ some proof
  pub is_proven : IsProven fixture_id proof

receipt_or-IsProven :
    (fixture_id : ℕ) (o : Option TxLineProofReceipt) (fresh : TxLineProofReceipt)
    → fresh.proof_present ≡ false
    → IsProven fixture_id (receipt_or o fresh) ↔ IsAttached fixture_id o
receipt_or-IsProven fixture_id none fresh e =
    (λ p. let present = p.has_proof in absurd cc, λ a. let attached = a.attached in absurd cc)
receipt_or-IsProven fixture_id (some proof) fresh e = (
  λ p. record { proof = proof; attached = refl; is_proven = p },
  λ a.
      let attached = a.attached in
      let same : a.proof ≡ proof = cc in subst (IsProven fixture_id) same a.is_proven,
)

module _ {F : Type 0} (out : Outside) (bridge : ValidationBridge) (c : AppConfig)
    (run : AgentRun F) where
  -- What the sidecar answers about a source.
  abbrev pub ask : ProofSource → Answer SidecarResponse
  ask source =
      invoke_sidecar out bridge.sidecar_path
        (sidecar_request out bridge c run (idl_path out bridge (txoracle_cluster c)) source)

  validate-IsProven :
      (receipt : TxLineProofReceipt) (load : ProofLoad)
      → IsProven run.trigger.fixture_id
          (validate out bridge c run (idl_path out bridge (txoracle_cluster c)) receipt load)
        ↔ (IsValidated run.trigger.fixture_id receipt load ask
            ⊎ (NotStarted load × IsProven run.trigger.fixture_id receipt))
  unfolding validate
  validate-IsProven receipt (ready source) = (
    λ p.
        let (response, (answered, (keys, rest))) =
          answer-IsProven run.trigger.fixture_id source receipt (ask source) p in
        inl (record {
          source = source;
          response = response;
          loaded = refl;
          has_keys = keys;
          answered = answered;
          is_passed = rest;
        }),
    λ q. elim q [
      | inl v ↦ asked-IsProven run.trigger.fixture_id receipt source ask v
      | inr (n, _) ↦ elim n [ ]
    ],
  )
  validate-IsProven receipt (not_started note raw) = (
    λ p.
        inr
          (tt, (renoted run.trigger.fixture_id receipt receipt.txline_program note (some raw)).0 p),
    λ q. elim q [
      | inl v ↦ let e = v.loaded in absurd cc
      | inr (_, p) ↦
          (renoted run.trigger.fixture_id receipt receipt.txline_program note (some raw)).1 p
    ],
  )
  validate-IsProven receipt (unavailable note raw) = (
    λ p. let stopped = p.simulated in absurd cc,
    λ q. elim q [ inl v ↦ let e = v.loaded in absurd cc | inr (n, _) ↦ elim n [ ] ],
  )

  based-IsProven :
      IsProven run.trigger.fixture_id (base_receipt out c run)
      ↔ IsAttached run.trigger.fixture_id run.trigger.proof
  unfolding base_receipt Gate.receipt_for_run fresh_receipt
  based-IsProven =
      let fresh = fresh_receipt out.epoch_day_from_iso run in
      let base = Gate.receipt_for_run out.epoch_day_from_iso run in
      let (to, from) =
        renoted run.trigger.fixture_id base (some (txline_program_id c)) base.note base.raw in
      let (found, attach) =
        receipt_or-IsProven run.trigger.fixture_id run.trigger.proof fresh refl in
      (λ p. found (to p), λ a. from (attach a))

  -- How a receipt of the bridge may pass: by the sidecar, or as it came with the event, where the IDL
  -- is missing or the proof cannot be asked for.
  abbrev pub WasValidated : Type 0
  WasValidated =
      (out.exists (idl_path out bridge (txoracle_cluster c)) ≡ true)
      × IsValidated run.trigger.fixture_id (base_receipt out c run)
          (load_proof_source out.fetch run) ask

  abbrev pub WasLeft : Type 0
  WasLeft =
      ((out.exists (idl_path out bridge (txoracle_cluster c)) ≡ false)
        ⊎ NotStarted (load_proof_source out.fetch run))
      × IsAttached run.trigger.fixture_id run.trigger.proof

  pub bridge_receipt-IsProven :
      IsProven run.trigger.fixture_id (bridge_receipt out bridge c run) ↔ (WasValidated ⊎ WasLeft)
  unfolding bridge_receipt
  bridge_receipt-IsProven =
      let base = base_receipt out c run in
      let load = load_proof_source out.fetch run in
      let (based, unbased) = based-IsProven in
      let (validated, unvalidated) = validate-IsProven base load in
      elim (Bool-cases (out.exists (idl_path out bridge (txoracle_cluster c)))) [
        | inl e ↦ rw e (
          λ p. elim (validated p) [ inl v ↦ inl (refl, v) | inr (n, a) ↦ inr (inr n, based a) ],
          λ q. elim q [
            | inl (_, v) ↦ unvalidated (inl v)
            | inr (inl missing, _) ↦ absurd cc
            | inr (inr n, a) ↦ unvalidated (inr (n, unbased a))
          ],
        )
        | inr e ↦ rw e (
          λ p. inr (inl refl, based ((renoted run.trigger.fixture_id base _ _ _).0 p)),
          λ q. elim q [
            | inl (there, _) ↦ absurd cc
            | inr (_, a) ↦ (renoted run.trigger.fixture_id base _ _ _).1 (unbased a)
          ],
        )
      ]

  -- The gate passes on the proof that is requested for a run exactly in two cases. The IDL is there, a
  -- source with stat keys is loaded, the receipt is one of the run's fixture, and the sidecar answers
  -- about the source that the simulation passed and that the root is present, and does not deny the
  -- proof; or the event itself brought a receipt that the gate passes, and the IDL is missing or the
  -- load reports that nothing was started.
  pub request_proof-passes :
      ((request_proof out bridge c run).1.pass ≡ true) ↔ (WasValidated ⊎ WasLeft)
  unfolding request_proof
  request_proof-passes =
      let (proven, passes) = (gate_receipt-IsProven run (bridge_receipt out bridge c run)).0 in
      let (shown, unshown) = bridge_receipt-IsProven in
      (λ h. shown (proven h), λ w. passes (unshown w))
