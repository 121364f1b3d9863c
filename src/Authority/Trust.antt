-- ===== src/Authority/Trust.antt =====
-- adjudicate of native/src/services/agent/authority.rs: what it takes from a proposal.

use txodds_agent_desk.Prelude.{
  ◌≡◌, true, Option, none, some, arith, Returns, Option-cases, inl, inr,
}
use txodds_agent_desk.Text.{Text}
use txodds_agent_desk.Float.{Float, nought, one, clamp}
use txodds_agent_desk.Float.Order.{IsOrdered}
use txodds_agent_desk.Wager.{Wager, WagerStatus, kelly_fraction, implied_probability}
use txodds_agent_desk.Authority.{
  AuthorityPolicy, AuthorityRuling, stake_wager, price_wager, adjudicate, from_max_spend,
}
use txodds_agent_desk.Authority.Stake.{IsRuled, adjudicate-IsRuled}

-- The figures and the status of a ruling, with its justification.
pub record Outcome (F : Type 0) : Type 0 where
  pub stake : F
  pub edge : F
  pub implied : F
  pub status : WagerStatus
  pub reason : Text

module _ {F : Type 0} where
  abbrev outcome : AuthorityRuling F → Outcome F
  outcome r = record {
    stake = r.wager.stake_sol;
    edge = r.wager.edge;
    implied = r.wager.market_implied;
    status = r.wager.status;
    reason = r.reason;
  }

  abbrev pub outcomes : Option (AuthorityRuling F) → Option (Outcome F)
  outcomes none = none
  outcomes (some r) = some (outcome r)

  -- A proposal with the probability and the attestation of `w`, and all else from `v`.
  abbrev pub forge : Wager F → Wager F → Wager F
  forge w v = record v { model_prob = w.model_prob; proof_ref = w.proof_ref }

module _ {F : Type 0} ⦃d : Float F⦄ where
  -- After pricing, the two proposals have the same edge and implied probability.
  abbrev forge_priced : Wager F → Wager F → Wager F
  forge_priced w v = record (forge w v) {
    edge = w.edge;
    market_implied = w.market_implied;
    fair_odds = w.fair_odds;
  }

  stake_wager_forged :
      (w v : Wager F) (odds : F) (policy : AuthorityPolicy F)
      → outcomes (stake_wager (forge_priced w v) odds policy) ≡ outcomes (stake_wager w odds policy)
  unfolding stake_wager
  stake_wager_forged w v odds policy = elim (Option-cases (kelly_fraction w.model_prob odds)) [
    | inl e ↦ ground arith
    | inr (k, e) ↦
        let sized = d.mul (d.mul k policy.kelly_fraction_multiplier) policy.bankroll_sol in
        elim (Option-cases (clamp sized nought policy.max_devnet_spend_sol)) [
          | inl f ↦ ground arith
          | inr (c, f) ↦ ground arith
        ]
  ]

  price_wager_forged :
      (w v : Wager F) (odds implied : F) (policy : AuthorityPolicy F)
      → outcomes (price_wager (forge w v) odds implied policy)
        ≡ outcomes (price_wager w odds implied policy)
  unfolding price_wager
  price_wager_forged w v odds implied policy =
      let priced = record w {
        market_implied = implied;
        edge = d.sub w.model_prob implied;
        fair_odds = d.div one w.model_prob;
      } in
      ground (arith, stake_wager_forged priced v odds policy)

  -- The edge, odds, stake and status that a proposal claims, like all of it but the model probability
  -- and whether there is an attestation, change nothing in the ruling's stake, edge, implied
  -- probability, status and justification: two proposals with the same probability and attestation
  -- are ruled alike, also when the ruling panics.
  pub adjudicate-forge :
      (w v : Wager F) (odds : F) (policy : AuthorityPolicy F)
      → outcomes (adjudicate (forge w v) odds policy) ≡ outcomes (adjudicate w odds policy)
  unfolding adjudicate
  adjudicate-forge w v odds policy = elim (Option-cases (implied_probability odds)) [
    | inl e ↦ ground arith
    | inr (implied, e) ↦ ground (arith, price_wager_forged w v odds implied policy)
  ]

module _ {F : Type 0} ⦃d : Float F⦄ (laws : IsOrdered F) where
  open laws use {le_max_right, number_of_le, le_of_lt, nought_lt_one}

  cap_ok : (max_spend : F) → d.le nought (from_max_spend max_spend).max_devnet_spend_sol ≡ true
  unfolding from_max_spend
  cap_ok max_spend = ground (
    arith,
    le_of_lt nought one nought_lt_one,
    number_of_le nought one,
    le_max_right max_spend nought,
  )

  -- For any configured spend cap, negative or NaN ones included, the policy made from it never makes
  -- the Authority panic, and the ruling is as `IsRuled` says.
  pub adjudicate-from_max_spend :
      (w : Wager F) (odds max_spend : F)
      → Returns
          (adjudicate w odds (from_max_spend max_spend))
          (IsRuled (from_max_spend max_spend) w odds)
  adjudicate-from_max_spend w odds max_spend =
      adjudicate-IsRuled laws w odds (from_max_spend max_spend) (cap_ok max_spend)
