-- ===== src/Authority.antt =====
-- native/src/services/agent/authority.rs: the Authority recomputes the edge of a proposed wager, sizes
-- its stake and decides its status.
pub mod Stake
pub mod Trust
use txodds_agent_desk.Prelude.{
  ℕ, Bool, true, false, not, ◌&&◌, Option, none, some, ◌++◌, if◌then◌else◌, is_some, ◌>>=◌,
}
use txodds_agent_desk.Text.{Text, lit}
use txodds_agent_desk.Float.{Float, nought, one, clamp}
use txodds_agent_desk.Wager.{
  Wager, WagerStatus, no_bet, proof_passed, debated, proposed, proof_failed, signed, settled,
  refunded, kelly_fraction, implied_probability,
}

pub record AuthorityPolicy (F : Type 0) : Type 0 where
  pub min_edge : F
  pub kelly_fraction_multiplier : F
  pub bankroll_sol : F
  pub max_devnet_spend_sol : F

pub record AuthorityRuling (F : Type 0) : Type 0 where
  pub wager : Wager F
  pub reason : Text

-- `{:?}` of a status
pub status_debug : WagerStatus → Text
status_debug proposed = lit "Proposed"
status_debug debated = lit "Debated"
status_debug no_bet = lit "NoBet"
status_debug proof_passed = lit "ProofPassed"
status_debug proof_failed = lit "ProofFailed"
status_debug signed = lit "Signed"
status_debug settled = lit "Settled"
status_debug refunded = lit "Refunded"

module _ {F : Type 0} ⦃d : Float F⦄ where
  open d use {lt, le, sub, mul, div, abs, max_f, dec, epsilon, show_f, show_fixed}

  unfoldable pub from_max_spend : F → AuthorityPolicy F
  from_max_spend max_spend = record {
    min_edge = dec 2 100;
    kelly_fraction_multiplier = dec 25 100;
    bankroll_sol = max_f max_spend nought;
    max_devnet_spend_sol = max_f max_spend nought;
  }

  pub invalid_odds_reason : F → Text
  invalid_odds_reason odds = lit "invalid market odds " ++ show_f odds ++ lit "; no bet"

  pub degenerate_reason : F → Text
  degenerate_reason p = lit "degenerate model probability " ++ show_f p ++ lit "; no bet"

  pub no_value_reason : F → F → Text
  no_value_reason edge min_edge =
      lit "edge "
      ++ (show_fixed 4 edge
          ++ (lit " ≤ min " ++ (show_fixed 4 min_edge ++ lit "; no positive-value bet")))

  pub staked_reason : AuthorityPolicy F → F → F → F → Bool → WagerStatus → Text
  staked_reason policy edge full_kelly staked clamped status =
      lit "edge "
      ++ (show_fixed 4 edge
          ++ (lit " > min "
              ++ (show_fixed 4 policy.min_edge
                  ++ (lit "; "
                      ++ (show_f policy.kelly_fraction_multiplier
                          ++ (lit "× kelly "
                              ++ (show_fixed 4 full_kelly
                                  ++ (lit " → stake "
                                      ++ (show_fixed 5 staked
                                          ++ (lit " SOL"
                                              ++ ((if clamped
                                                    then lit " [clamped to cap]"
                                                    else lit "")
                                                  ++ (lit " (status "
                                                      ++ (status_debug status
                                                          ++ lit ")")))))))))))))

  -- Steps 4 and 5: size, clamp, and gate on the attestation. The wager has its new edge and odds.
  stake_wager : Wager F → F → AuthorityPolicy F → Option (AuthorityRuling F)
  stake_wager w odds policy = do
    full_kelly ← kelly_fraction w.model_prob odds
    let sized = mul (mul full_kelly policy.kelly_fraction_multiplier) policy.bankroll_sol
    staked ← clamp sized nought policy.max_devnet_spend_sol
    some (
        if le staked nought
        then record {
          wager = record w { stake_sol = staked; status = no_bet };
          reason = lit "kelly stake rounded to zero; no bet";
        }
        else let clamped = lt epsilon (abs (sub sized staked)) in
          let status = if is_some w.proof_ref then proof_passed else debated in
          record {
            wager = record w { stake_sol = staked; status = status };
            reason = staked_reason policy w.edge full_kelly staked clamped status;
          })

  -- Steps 2 and 3, once the market's probability is known.
  price_wager : Wager F → F → F → AuthorityPolicy F → Option (AuthorityRuling F)
  unfolding stake_wager
  price_wager w odds market_implied policy =
      if not (lt nought w.model_prob && lt w.model_prob one)
      then some (record {
        wager = record w {
          market_implied = market_implied;
          stake_sol = nought;
          edge = nought;
          status = no_bet;
        };
        reason = degenerate_reason w.model_prob;
      })
      else let edge = sub w.model_prob market_implied in
        let fair_odds = div one w.model_prob in
        if le edge policy.min_edge
        then some (record {
          wager = record w {
            market_implied = market_implied;
            edge = edge;
            fair_odds = fair_odds;
            stake_sol = nought;
            status = no_bet;
          };
          reason = no_value_reason edge policy.min_edge;
        })
        else stake_wager
            (record w { market_implied = market_implied; edge = edge; fair_odds = fair_odds }) odds
            policy

  -- `none` is the panic of a clamp.
  unfoldable pub adjudicate : Wager F → F → AuthorityPolicy F → Option (AuthorityRuling F)
  unfolding price_wager
  adjudicate w odds policy = elim (implied_probability odds) [
    | none ↦ some (record {
      wager = record w {
        stake_sol = nought;
        status = no_bet;
        market_implied = nought;
        edge = nought;
      };
      reason = invalid_odds_reason odds;
    })
    | some market_implied ↦ price_wager w odds market_implied policy
  ]
