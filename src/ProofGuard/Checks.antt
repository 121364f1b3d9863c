-- ===== src/ProofGuard/Checks.antt =====
-- run_checks of crates/agent-core/src/proof_guard.rs.
use txodds_agent_desk.Prelude.{
  ℕ, ◌<◌, ◌≤◌, ◌≡◌, ◌↔◌, refl, true, false, Option, none, some, List, [], ◌∷◌, ◌++◌, arith,
  Option-cases, inl, inr, is_some,
}
use txodds_agent_desk.Text.{Text, IsAscii, byte_len}
use txodds_agent_desk.Float.{Float, nought, one}
use txodds_agent_desk.Wager.{Wager, implied_probability}
use txodds_agent_desk.ProofGuard.{
  ProofGuardConfig, is_valid_proof_ref, shorten, prob_failures, edge_failures, odds_failures,
  stake_failures, malformed_message, proof_failures, run_checks,
}
use txodds_agent_desk.ProofGuard.Reference.{
  shorten-IsAscii, shorten-panics, is_valid_proof_ref-wide,
}

-- A well-shaped reference is present.
abbrev pub IsAttested : Option Text → Type 0
IsAttested pr = (r : Text) × (pr ≡ some r) × (is_valid_proof_ref r ≡ true)

abbrev pub IsAsciiRef : Option Text → Type 0
IsAsciiRef none = Unit
IsAsciiRef (some r) = IsAscii r

module _ {F : Type 0} ⦃d : Float F⦄ where
  abbrev pub InOpenUnit : F → Type 0
  InOpenUnit p = (d.is_finite p ≡ true) × (d.lt nought p ≡ true) × (d.lt p one ≡ true)

  -- `a` is within the tolerance of `b`, as the code measures it.
  abbrev pub Agrees : F → F → F → Type 0
  Agrees tol a b = d.lt tol (d.abs (d.sub a b)) ≡ false

  -- A wager whose figures fit one another.
  pub record IsSound (cfg : ProofGuardConfig F) (w : Wager F) : Type 0 where
    pub prob : InOpenUnit w.model_prob
    pub market : InOpenUnit w.market_implied
    pub edge : Agrees cfg.consistency_tol (d.sub w.model_prob w.market_implied) w.edge
    pub odds :
        (i : F) × (implied_probability w.fair_odds ≡ some i)
        × Agrees cfg.consistency_tol i w.model_prob
    pub stake : (d.is_finite w.stake_sol ≡ true) × (d.le nought w.stake_sol ≡ true)

  abbrev Parts : ProofGuardConfig F → Wager F → Type 0
  Parts cfg w =
      (prob_failures w ≡ [])
      × (edge_failures w cfg ≡ [])
      × (odds_failures w cfg ≡ [])
      × (stake_failures w ≡ [])

  Parts-IsSound : (cfg : ProofGuardConfig F) (w : Wager F) → Parts cfg w → IsSound cfg w
  unfolding prob_failures edge_failures odds_failures stake_failures
  Parts-IsSound cfg w (p, e, o, s) = elim (Option-cases (implied_probability w.fair_odds)) [
    | inl f ↦ absurd (ground arith)
    | inr (i, f) ↦ record {
      prob = ground arith;
      market = ground arith;
      edge = ground arith;
      odds = (i, f, ground arith);
      stake = ground arith;
    }
  ]

  IsSound-Parts : (cfg : ProofGuardConfig F) (w : Wager F) → IsSound cfg w → Parts cfg w
  unfolding prob_failures edge_failures odds_failures stake_failures
  IsSound-Parts cfg w s = let (i, f, a) = s.odds in ground arith

append-eq-nil {ℓ} : {A : Type ℓ} (xs ys : List A) → xs ++ ys ≡ [] → (xs ≡ []) × (ys ≡ [])
append-eq-nil [] ys h = (refl, h)
append-eq-nil (x ∷ xs) ys h = absurd cc

module _ (debug : Text → Text) where
  proof_failures-IsAttested : (pr : Option Text) → proof_failures debug pr ≡ some [] → IsAttested pr
  unfolding proof_failures malformed_message
  proof_failures-IsAttested none h = cc
  proof_failures-IsAttested (some r) h = elim (Option-cases (shorten r)) [
    | inl e ↦ (r, refl, ground arith)
    | inr (t, e) ↦ (r, refl, ground arith)
  ]

  IsAttested-proof_failures : (pr : Option Text) → IsAttested pr → proof_failures debug pr ≡ some []
  unfolding proof_failures malformed_message
  IsAttested-proof_failures pr (r, e, v) = ground arith

module _ {F : Type 0} ⦃d : Float F⦄ (debug : Text → Text) where
  -- The checks raise no failure exactly if the model and market probabilities are finite and inside
  -- (0, 1), the claimed edge is their difference within the tolerance, the fair odds are a valid
  -- price whose probability is the model's within the tolerance, the stake is finite and not
  -- negative, and a well-shaped attestation reference is present.
  pub run_checks_iff :
      (w : Wager F) (pr : Option Text) (cfg : ProofGuardConfig F)
      → (run_checks debug w pr cfg ≡ some []) ↔ (IsSound cfg w × IsAttested pr)
  unfolding run_checks
  run_checks_iff w pr cfg = (forward, backward)
    where
      forward : run_checks debug w pr cfg ≡ some [] → IsSound cfg w × IsAttested pr
      forward h = elim (Option-cases (proof_failures debug pr)) [
        | inl e ↦ absurd (ground arith)
        | inr (last, e) ↦
            let whole : prob_failures w
                  ++ (edge_failures w cfg ++ (odds_failures w cfg ++ (stake_failures w ++ last)))
                ≡ [] =
              ground arith in
            let (p, rest) = append-eq-nil _ _ whole in
            let (g, rest2) = append-eq-nil _ _ rest in
            let (o, rest3) = append-eq-nil _ _ rest2 in
            let (k, l) = append-eq-nil _ _ rest3 in
            (Parts-IsSound cfg w (p, g, o, k), proof_failures-IsAttested debug pr (rw (← l) e))
      ]

      backward : IsSound cfg w × IsAttested pr → run_checks debug w pr cfg ≡ some []
      backward (s, a) =
          let (p, e, o, k) = IsSound-Parts cfg w s in
          rw (IsAttested-proof_failures debug pr a, p, e, o, k)

  -- A reference of more than 20 bytes in which eleven single bytes are followed by a longer character
  -- makes the checks panic, on every wager, instead of reporting it as malformed.
  pub run_checks-panics :
      (w : Wager F) (cfg : ProofGuardConfig F) (front : Text) (c : ℕ) (rest : Text)
      → IsAscii front
      → byte_len front ≡ 11
      → 0x80 ≤ c
      → 20 < byte_len (front ++ c ∷ rest)
      → run_checks debug w (some (front ++ c ∷ rest)) cfg ≡ none
  unfolding run_checks proof_failures malformed_message
  run_checks-panics w cfg front c rest ascii size wide long =
      rw (
        is_valid_proof_ref-wide front c rest wide,
        shorten-panics front c rest ascii size wide long,
      )

  -- The checks return on every wager if the reference, when there is one, is ASCII.
  pub run_checks-IsAscii :
      (w : Wager F) (pr : Option Text) (cfg : ProofGuardConfig F)
      → IsAsciiRef pr
      → is_some (run_checks debug w pr cfg) ≡ true
  unfolding run_checks proof_failures malformed_message
  run_checks-IsAscii w none cfg a = refl
  run_checks-IsAscii w (some r) cfg a = ground (arith, shorten-IsAscii r a)
