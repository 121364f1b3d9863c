-- ===== src/Authority/Stake.antt =====
-- adjudicate of native/src/services/agent/authority.rs: what a ruling may be.
use txodds_agent_desk.Prelude.{
  ◌≡◌, ◌⊎◌, Returns->>=, true, false, ◌&&◌, none, some, arith, Returns, is_some, if◌then◌else◌,
}
use txodds_agent_desk.Float.{Float, nought, one, clamp}
use txodds_agent_desk.Float.Order.{IsOrdered, clamp_total}
use txodds_agent_desk.Wager.{
  Wager, no_bet, proof_passed, debated, kelly_fraction, implied_probability,
}
use txodds_agent_desk.Wager.Kelly.{kelly_fraction_bounds, InUnit}
use txodds_agent_desk.Authority.{
  AuthorityPolicy, AuthorityRuling, stake_wager, price_wager, adjudicate,
}

module _ {F : Type 0} ⦃d : Float F⦄ where
  -- No bet: the stake is not above zero.
  pub record IsNoBet (r : Wager F) : Type 0 where
    pub status_no_bet : r.status ≡ no_bet
    pub stake_not_pos : d.lt nought r.stake_sol ≡ false

  -- A bet: the stake is neither at most zero nor above the cap, and the status tells whether the
  -- proposal carries an attestation.
  pub record IsStaked (policy : AuthorityPolicy F) (r : Wager F) : Type 0 where
    pub status_bet : r.status ≡ (if is_some r.proof_ref then proof_passed else debated)
    pub stake_pos : d.le r.stake_sol nought ≡ false
    pub stake_capped : d.lt policy.max_devnet_spend_sol r.stake_sol ≡ false

  -- The recomputed edge is above the minimum, on valid odds and a model probability inside (0, 1).
  pub record IsPriced (policy : AuthorityPolicy F) (w : Wager F) (odds : F) (r : Wager F)
      : Type 0 where
    pub odds_valid : implied_probability odds ≡ some (d.div one odds)
    pub prob_valid : (d.lt nought w.model_prob && d.lt w.model_prob one) ≡ true
    pub edge_recomputed : r.edge ≡ d.sub w.model_prob (d.div one odds)
    pub edge_above : d.le r.edge policy.min_edge ≡ false

  abbrev pub IsRuled : AuthorityPolicy F → Wager F → F → AuthorityRuling F → Type 0
  IsRuled policy w odds r =
      IsNoBet r.wager ⊎ IsStaked policy r.wager × IsPriced policy w odds r.wager

module _ {F : Type 0} ⦃d : Float F⦄ (laws : IsOrdered F) where
  open laws use {number_of_le, not_lt_of_le}

  stake_wager_lem :
      (w : Wager F) (odds : F) (policy : AuthorityPolicy F)
      → d.le nought policy.max_devnet_spend_sol ≡ true
      → Returns
          (stake_wager w odds policy)
          λ r. (IsNoBet r.wager ⊎ IsStaked policy r.wager) × (r.wager.edge ≡ w.edge)
  unfolding stake_wager
  stake_wager_lem w odds policy ok =
      Returns->>= InUnit _ (kelly_fraction w.model_prob odds) _
        (kelly_fraction_bounds laws w.model_prob odds)
        λ k unit.
          let sized = d.mul (d.mul k policy.kelly_fraction_multiplier) policy.bankroll_sol in
          Returns->>= (λ c. (d.lt c nought ≡ false) × (d.lt policy.max_devnet_spend_sol c ≡ false))
            _ (clamp sized nought policy.max_devnet_spend_sol) _
            (clamp_total laws sized nought policy.max_devnet_spend_sol ok)
            λ c bounds. ground (arith, not_lt_of_le c nought)

  price_wager_lem :
      (w : Wager F) (odds : F) (policy : AuthorityPolicy F)
      → implied_probability odds ≡ some (d.div one odds)
      → d.le nought policy.max_devnet_spend_sol ≡ true
      → Returns (price_wager w odds (d.div one odds) policy) (IsRuled policy w odds)
  unfolding price_wager
  price_wager_lem w odds policy valid ok =
      let priced = record w {
        market_implied = d.div one odds;
        edge = d.sub w.model_prob (d.div one odds);
        fair_odds = d.div one w.model_prob;
      } in
      ground (
        arith,
        stake_wager_lem priced odds policy ok,
        number_of_le nought policy.max_devnet_spend_sol ok,
        not_lt_of_le nought nought,
      )

  implied_probability_lem :
      (odds : F)
      → (implied_probability odds ≡ none) ⊎ (implied_probability odds ≡ some (d.div one odds))
  unfolding implied_probability
  implied_probability_lem odds = ground arith

  -- With a cap that is not negative or NaN, whatever the proposal says and whatever the odds are, the
  -- Authority rules without a panic. Its ruling is a no-bet whose stake is not above zero, or a bet
  -- on valid odds and a probability inside (0, 1) whose recomputed edge is above the minimum and
  -- whose stake is neither at most zero nor above the cap, `ProofPassed` exactly if it carries an
  -- attestation.
  pub adjudicate-IsRuled :
      (w : Wager F) (odds : F) (policy : AuthorityPolicy F)
      → d.le nought policy.max_devnet_spend_sol ≡ true
      → Returns (adjudicate w odds policy) (IsRuled policy w odds)
  unfolding adjudicate
  adjudicate-IsRuled w odds policy ok = ground (
    arith,
    implied_probability_lem odds,
    price_wager_lem w odds policy,
    number_of_le nought policy.max_devnet_spend_sol ok,
    not_lt_of_le nought nought,
  )
