-- ===== src/Signal.antt =====
-- native/src/services/agent/runtime/signal.rs: the signal of an event, if it carries one. The fresh
-- identifier and the time are arguments.
use txodds_agent_desk.Prelude.{Option, none, some, List, [], ◌∷◌, ◌++◌, if◌then◌else◌, ◌>>=◌}
use txodds_agent_desk.Text.{Text, lit}
use txodds_agent_desk.Float.{Float}
use txodds_agent_desk.Event.{
  TxLineEventKind, goal, red_card, final_whistle, odds_move, odds_update, proof_received, fixture,
  score_update, TxLineEvent,
}
use txodds_agent_desk.Decision.{
  SignalType, score_event, red_card_reprice, sharp_odds_move, proof_ready, SignalSeverity, critical,
  high, medium, low, Measure, num, flag, AgentSignal,
}
use txodds_agent_desk.Features.{MarketFeatures}
use txodds_agent_desk.ProofGuard.{join}

unfoldable pub signal_type_of : TxLineEventKind → Option SignalType
signal_type_of odds_move = some sharp_odds_move
signal_type_of odds_update = some sharp_odds_move
signal_type_of goal = some score_event
signal_type_of score_update = some score_event
signal_type_of red_card = some red_card_reprice
signal_type_of final_whistle = some proof_ready
signal_type_of proof_received = some proof_ready
signal_type_of fixture = none

module _ {F : Type 0} ⦃d : Float F⦄ where
  open d use {le, dec, max_f}

  unfoldable pub severity_for : F → SignalSeverity
  severity_for score =
      if le (dec 85 100) score
      then critical
      else if le (dec 70 100) score
      then high
      else if le (dec 55 100) score
      then medium
      else low

  -- The `BTreeMap`, in the order of its keys.
  abbrev measured : MarketFeatures F → List (Text × Measure F)
  measured derived =
      (lit "actionabilityScore", num derived.actionability_score)
      ∷ (best derived.best_implied_probability
          ++ ((lit "proofPresent", flag derived.proof_present)
              ∷ (lit "rootPresent", flag derived.root_present)
              ∷ (lit "severityScore", num derived.severity_score)
              ∷ (lit "txoraclePassed", flag derived.txoracle_passed)
              ∷ []))
    where
      best : Option F → List (Text × Measure F)
      best none = []
      best (some p) = (lit "bestImpliedProbability", num p) ∷ []

  unfoldable pub build_signal :
      (uuid now : Text) → TxLineEvent F → MarketFeatures F → Option (AgentSignal F)
  unfolding signal_type_of severity_for
  build_signal uuid now event derived = do
    signal_type ← signal_type_of event.kind
    some (record {
      id = lit "signal-" ++ uuid;
      fixture_id = event.fixture_id;
      source_event_id = event.id;
      signal_type = signal_type;
      severity = severity_for derived.severity_score;
      confidence = max_f derived.severity_score derived.actionability_score;
      features = measured derived;
      rationale = join derived.reasons;
      created_at = now;
    })
