-- ===== src/Features.antt =====
-- crates/agent-core/src/features.rs: the features of one event.
use txodds_agent_desk.Prelude.{
  ℕ, Bool, not, Option, none, some, List, [], ◌∷◌, if◌then◌else◌, is_some, is_some_and, is_empty,
}
use txodds_agent_desk.Text.{Text, lit}
use txodds_agent_desk.Float.{Float, nought, one}
use txodds_agent_desk.Event.{
  TxLineEventKind, goal, red_card, final_whistle, odds_move, odds_update, proof_received, fixture,
  score_update, OddsQuote, TxLineProofReceipt, TxLineEvent, is_passed, kind_debug,
}

pub record MarketFeatures (F : Type 0) : Type 0 where
  pub fixture_id : ℕ
  pub kind : Text
  pub has_score : Bool
  pub has_odds : Bool
  pub best_implied_probability : Option F
  pub proof_present : Bool
  pub root_present : Bool
  pub txoracle_passed : Bool
  pub severity_score : F
  pub actionability_score : F
  pub reasons : List Text

abbrev pub proof_present_of : Option TxLineProofReceipt → Bool
proof_present_of proof = is_some_and proof λ p. p.proof_present

abbrev pub root_present_of : Option TxLineProofReceipt → Bool
root_present_of proof = is_some_and proof λ p. p.root_present

abbrev pub txoracle_passed_of : Option TxLineProofReceipt → Bool
txoracle_passed_of proof = is_some_and proof λ p. is_passed p.simulation_status

reason_of : TxLineEventKind → Text
reason_of goal = lit "goal changes match state"
reason_of red_card = lit "red card can reprice market"
reason_of final_whistle = lit "final whistle can trigger resolution"
reason_of odds_move = lit "odds update observed"
reason_of odds_update = lit "odds update observed"
reason_of proof_received = lit "proof receipt arrived"
reason_of fixture = lit "context update observed"
reason_of score_update = lit "context update observed"

module _ {F : Type 0} ⦃d : Float F⦄ where
  open d use {lt, is_finite, add, dec, min_f}

  -- `max_by(partial_cmp)`: the last of the largest. `unwrap_or(Equal)` is for NaN, which the filter
  -- has taken out.
  max_onto : F → List (OddsQuote F) → F
  max_onto best [] = best
  max_onto best (q ∷ qs) =
      max_onto
        (if is_finite q.implied_probability
          then if lt q.implied_probability best then best else q.implied_probability
          else best)
        qs

  best_of : List (OddsQuote F) → Option F
  unfolding max_onto
  best_of [] = none
  best_of (q ∷ qs) =
      let rest = best_of qs in
      if is_finite q.implied_probability then some (max_onto q.implied_probability qs) else rest

  unfoldable pub best_implied_probability : Option (List (OddsQuote F)) → Option F
  unfolding best_of
  best_implied_probability none = none
  best_implied_probability (some quotes) = best_of quotes

  unfoldable pub severity_of : TxLineEventKind → F
  severity_of goal = add nought (dec 80 100)
  severity_of red_card = add nought (dec 78 100)
  severity_of final_whistle = add nought (dec 72 100)
  severity_of odds_move = add nought (dec 64 100)
  severity_of odds_update = add nought (dec 64 100)
  severity_of proof_received = add nought (dec 70 100)
  severity_of fixture = add nought (dec 35 100)
  severity_of score_update = add nought (dec 35 100)

  -- `if flag { score += 0.20; }`
  abbrev bonus : Bool → F → F
  bonus flag score = if flag then add score (dec 20 100) else score

  unfoldable pub derive_features : TxLineEvent F → MarketFeatures F
  unfolding severity_of reason_of
  derive_features event =
      let has_score = is_some event.score in
      let has_odds = is_some_and event.odds (λ items. not (is_empty items)) in
      let proof_present = proof_present_of event.proof in
      let root_present = root_present_of event.proof in
      let txoracle_passed = txoracle_passed_of event.proof in
      let actionability =
        bonus txoracle_passed
          (bonus root_present (bonus proof_present (bonus has_score (bonus has_odds nought)))) in
      record {
        fixture_id = event.fixture_id;
        kind = kind_debug event.kind;
        has_score = has_score;
        has_odds = has_odds;
        best_implied_probability = best_implied_probability event.odds;
        proof_present = proof_present;
        root_present = root_present;
        txoracle_passed = txoracle_passed;
        severity_score = min_f (severity_of event.kind) one;
        actionability_score = min_f actionability one;
        reasons = reason_of event.kind ∷ [];
      }
