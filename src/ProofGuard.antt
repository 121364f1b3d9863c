-- ===== src/ProofGuard.antt =====
-- crates/agent-core/src/proof_guard.rs: the consistency checks on a wager before settlement.
pub mod Reference
pub mod Checks
pub mod Verdict
use txodds_agent_desk.Prelude.{
  ℕ, ◌-◌, Bool, true, false, not, ◌&&◌, ◌||◌, Option, none, some, List, [], ◌∷◌, ◌++◌,
  if◌then◌else◌, ◌==◌, ltb, leb, ◌>>=◌, all, is_empty, unwrap_or,
}
use txodds_agent_desk.Text.{Text, lit, byte_len, slice_to, slice_from, is_ascii_alphanumeric}
use txodds_agent_desk.Float.{Float, nought, one}
use txodds_agent_desk.Wager.{
  Wager, WagerStatus, no_bet, proof_passed, proof_failed, implied_probability,
}

pub record ProofGuardConfig (F : Type 0) : Type 0 where
  pub consistency_tol : F
  pub max_devnet_spend_sol : F

pub record ProofGuardVerdict (F : Type 0) : Type 0 where
  pub passed : Bool
  pub failures : List Text
  pub wager : Wager F

-- Truncates a long reference; `none` is the panic of a slice inside a character.
unfoldable pub shorten : Text → Option Text
shorten proof_ref = if leb (byte_len proof_ref) 20 then some proof_ref else do
  front ← slice_to proof_ref 12
  back ← slice_from proof_ref (byte_len proof_ref - 4)
  some (front ++ (lit "…" ++ back))

abbrev pub is_ref_char : ℕ → Bool
is_ref_char c =
    is_ascii_alphanumeric c || (c == b':' || (c == b'_' || (c == b'-' || (c == b'.' || c == b'/'))))

unfoldable pub is_valid_proof_ref : Text → Bool
is_valid_proof_ref s = if ltb (byte_len s) 8 then false else all is_ref_char s

-- `join("; ")`
pub join : List Text → Text
join [] = []
join (x ∷ []) = x
join (x ∷ y ∷ rest) = x ++ (lit "; " ++ join (y ∷ rest))

module _ {F : Type 0} ⦃d : Float F⦄ where
  open d use {lt, le, is_finite, sub, abs, dec, show_f, show_fixed, show_signed}

  pub edge_message : Wager F → ProofGuardConfig F → Text
  edge_message w cfg =
      lit "edge "
      ++ (show_signed 4 w.edge
          ++ (lit " inconsistent with model−market "
              ++ (show_signed 4 (sub w.model_prob w.market_implied)
                  ++ (lit " (tol " ++ (show_f cfg.consistency_tol ++ lit ")")))))

  pub odds_message : Wager F → F → Text
  odds_message w implied =
      lit "fair odds "
      ++ (show_f w.fair_odds
          ++ (lit " imply "
              ++ (show_fixed 3 implied ++ (lit ", not model " ++ show_fixed 3 w.model_prob))))

  -- check 1
  prob_failures : Wager F → List Text
  prob_failures w =
      if not (is_finite w.model_prob && (lt nought w.model_prob && lt w.model_prob one))
      then (lit "model probability " ++ (show_f w.model_prob ++ lit " outside (0, 1)")) ∷ []
      else []

  -- check 2
  edge_failures : Wager F → ProofGuardConfig F → List Text
  edge_failures w cfg =
      if is_finite w.market_implied && (lt nought w.market_implied && lt w.market_implied one)
      then if lt cfg.consistency_tol (abs (sub (sub w.model_prob w.market_implied) w.edge))
        then edge_message w cfg ∷ []
        else []
      else (lit "market-implied probability " ++ (show_f w.market_implied ++ lit " outside (0, 1)"))
        ∷ []

  -- check 3
  odds_failures : Wager F → ProofGuardConfig F → List Text
  odds_failures w cfg =
      if lt nought w.model_prob
      then elim (implied_probability w.fair_odds) [
        | none ↦ (lit "fair odds " ++ (show_f w.fair_odds ++ lit " not a valid price")) ∷ []
        | some implied ↦
            if lt cfg.consistency_tol (abs (sub implied w.model_prob))
            then odds_message w implied ∷ []
            else []
      ]
      else []

  -- check 4
  stake_failures : Wager F → List Text
  stake_failures w =
      if not (is_finite w.stake_sol && le nought w.stake_sol)
      then (lit "stake " ++ (show_f w.stake_sol ++ lit " is negative or non-finite")) ∷ []
      else []

  passed_verdict : Wager F → Text → Option (ProofGuardVerdict F)
  passed_verdict w pr = do
    short ← shorten pr
    some (record {
      passed = true;
      failures = [];
      wager = record w {
        proof_ref = some pr;
        status = proof_passed;
        thesis =
            w.thesis
            ++ (lit " | Proof-guard PASSED: edge/odds consistent, attestation "
                ++ (short ++ lit " present, stake within cap."));
      };
    })

  failed_verdict : Wager F → List Text → ProofGuardVerdict F
  failed_verdict w failures = record {
    passed = false;
    failures = failures;
    wager = record w {
      status = proof_failed;
      thesis = w.thesis ++ (lit " | Proof-guard FAILED: " ++ join failures);
    };
  }

abbrev pub is_no_bet : WagerStatus → Bool
is_no_bet no_bet = true
is_no_bet _ = false

-- `{:?}` of a text is the parameter `debug`.
module _ (debug : Text → Text) where
  malformed_message : Text → Option (List Text)
  malformed_message pr = do
    short ← shorten pr
    some ((lit "proof reference " ++ (debug short ++ lit " is malformed / placeholder")) ∷ [])

  -- check 5
  proof_failures : Option Text → Option (List Text)
  unfolding malformed_message
  proof_failures none = some (lit "no proof attestation (txoracle reference) present" ∷ [])
  proof_failures (some pr) = if not (is_valid_proof_ref pr) then malformed_message pr else some []

module _ {F : Type 0} ⦃d : Float F⦄ (debug : Text → Text) where
  open d use {le}

  unfoldable pub run_checks : Wager F → Option Text → ProofGuardConfig F → Option (List Text)
  unfolding prob_failures edge_failures odds_failures stake_failures proof_failures
  run_checks w proof_ref cfg = do
    proof ← proof_failures debug proof_ref
    some (
        prob_failures w
        ++ (edge_failures w cfg ++ (odds_failures w cfg ++ (stake_failures w ++ proof))))

  unfoldable pub verify : Wager F → Option Text → ProofGuardConfig F → Option (ProofGuardVerdict F)
  unfolding passed_verdict failed_verdict
  verify w proof_ref cfg =
      if is_no_bet w.status || le w.stake_sol nought
      then some (record { passed = true; failures = []; wager = w })
      else do
        failures ← run_checks w proof_ref cfg
        if is_empty failures
            then passed_verdict w (unwrap_or proof_ref [])
            else some (failed_verdict w failures)
