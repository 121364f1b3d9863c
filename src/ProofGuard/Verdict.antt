-- ===== src/ProofGuard/Verdict.antt =====
-- verify of crates/agent-core/src/proof_guard.rs: the verdict on a wager, and what it changes.
use txodds_agent_desk.Prelude.{
  ◌≡◌, ◌≢◌, ◌⊎◌, refl, true, false, ◌||◌, Option, none, some, List, [], ◌∷◌, arith, Returns,
  Option-cases, inl, inr, is_empty, if◌then◌else◌, unwrap_or,
}
use txodds_agent_desk.Text.{Text}
use txodds_agent_desk.Float.{Float, nought}
use txodds_agent_desk.Wager.{Wager, proof_passed, proof_failed}
use txodds_agent_desk.ProofGuard.{
  ProofGuardConfig, ProofGuardVerdict, shorten, is_no_bet, run_checks, passed_verdict,
  failed_verdict, verify,
}
use txodds_agent_desk.ProofGuard.Reference.{shorten-IsAscii}
use txodds_agent_desk.ProofGuard.Checks.{
  IsSound, IsAttested, IsAsciiRef, run_checks_iff, run_checks-IsAscii,
}

module _ {F : Type 0} ⦃d : Float F⦄ where
  -- The wager is no no-bet and its stake is not at most zero.
  abbrev pub HasStake : Wager F → Type 0
  HasStake w = (is_no_bet w.status || d.le w.stake_sol nought) ≡ false

  -- The wager passed: it is sound and attested, and the reference is recorded.
  pub record Passed (cfg : ProofGuardConfig F) (w : Wager F) (pr : Option Text)
      (v : ProofGuardVerdict F) : Type 0 where
    pub sound : IsSound cfg w
    pub attested : IsAttested pr
    pub passed_true : v.passed ≡ true
    pub status_passed : v.wager.status ≡ proof_passed
    pub ref_recorded : v.wager.proof_ref ≡ pr
    pub stake_kept : v.wager.stake_sol ≡ w.stake_sol

  -- The wager failed: it is not sound or not attested, and the reasons are reported.
  pub record Vetoed (cfg : ProofGuardConfig F) (w : Wager F) (pr : Option Text)
      (v : ProofGuardVerdict F) : Type 0 where
    pub unsound : ¬ (IsSound cfg w × IsAttested pr)
    pub passed_false : v.passed ≡ false
    pub status_failed : v.wager.status ≡ proof_failed
    pub ref_kept : v.wager.proof_ref ≡ w.proof_ref
    pub stake_kept : v.wager.stake_sol ≡ w.stake_sol
    pub reasons : v.failures ≢ []

  passed_verdict_lem :
      (w : Wager F) (pr : Option Text) (cfg : ProofGuardConfig F)
      → IsSound cfg w
      → IsAttested pr
      → IsAsciiRef pr
      → Returns (passed_verdict w (unwrap_or pr [])) λ v. Passed cfg w pr v ⊎ Vetoed cfg w pr v
  unfolding passed_verdict
  passed_verdict_lem w none cfg s (r, e, v) a = absurd cc
  passed_verdict_lem w (some pr) cfg s t a = elim (Option-cases (shorten pr)) [
    | inl e ↦ absurd (ground (arith, shorten-IsAscii pr a))
    | inr (short, e) ↦ rw e (
        inl (record {
          sound = s;
          attested = t;
          passed_true = refl;
          status_passed = refl;
          ref_recorded = refl;
          stake_kept = refl;
        }))
  ]

  failed_verdict_lem :
      (w : Wager F) (pr : Option Text) (cfg : ProofGuardConfig F) (failures : List Text)
      → ¬ (IsSound cfg w × IsAttested pr)
      → failures ≢ []
      → Vetoed cfg w pr (failed_verdict w failures)
  unfolding failed_verdict
  failed_verdict_lem w pr cfg failures bad some_reason = record {
    unsound = bad;
    passed_false = refl;
    status_failed = refl;
    ref_kept = refl;
    stake_kept = refl;
    reasons = some_reason;
  }

  module _ (debug : Text → Text) where
    judged :
        (w : Wager F) (pr : Option Text) (cfg : ProofGuardConfig F) (failures : List Text)
        → run_checks debug w pr cfg ≡ some failures
        → IsAsciiRef pr
        → Returns
            (if is_empty failures
              then passed_verdict w (unwrap_or pr [])
              else some (failed_verdict w failures))
            λ v. Passed cfg w pr v ⊎ Vetoed cfg w pr v
    judged w pr cfg [] e a =
        let (s, t) = (run_checks_iff debug w pr cfg).0 e in passed_verdict_lem w pr cfg s t a
    judged w pr cfg (f ∷ fs) e a = inr (
        failed_verdict_lem w pr cfg (f ∷ fs)
          (λ good. absurd (cc (e, (run_checks_iff debug w pr cfg).1 good))) (λ nil. cc))

    -- A wager that is no no-bet, whose stake is not at most zero and whose reference is of single bytes,
    -- or none, is never left without a verdict: it passes, with status `ProofPassed` and the reference
    -- recorded, if it is sound and attested, and otherwise it gets `ProofFailed` with at least one
    -- reason; the stake is never changed.
    pub verify-stake :
        (w : Wager F) (pr : Option Text) (cfg : ProofGuardConfig F)
        → HasStake w
        → IsAsciiRef pr
        → Returns (verify debug w pr cfg) λ v. Passed cfg w pr v ⊎ Vetoed cfg w pr v
    unfolding verify
    verify-stake w pr cfg staked ascii = elim (Option-cases (run_checks debug w pr cfg)) [
      | inl e ↦ absurd (ground (arith, run_checks-IsAscii debug w pr cfg ascii))
      | inr (failures, e) ↦ rw (staked, e) (judged w pr cfg failures e ascii)
    ]
