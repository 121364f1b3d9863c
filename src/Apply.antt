-- ===== src/Apply.antt =====
-- native/src/services/agent/runtime/decision.rs: a decision written into the run. The serialised
-- package and its SHA-256 are parameters.
use txodds_agent_desk.Prelude.{
  Bool, true, false, ◌&&◌, Option, none, some, [], ◌∷◌, ◌++◌, if◌then◌else◌,
}
use txodds_agent_desk.Text.{Text, lit}
use txodds_agent_desk.Float.{Float, nought}
use txodds_agent_desk.Event.{TrackMode, settlement, trading, fan}
use txodds_agent_desk.Run.{
  AgentRole, sharp, pundit, verifier, AgentBid, AgentDelivery, VerificationVerdict, needs_review,
  txline_input, proof, policy, not_started, SettlementReceipt, AgentRun,
}
use txodds_agent_desk.Decision.{
  ProofGateDecision, SignalType, score_event, red_card_reprice, sharp_odds_move, proof_ready,
  context_update, AgentSignal, AgentAction, trigger_resolution, fetch_proof, simulate_position,
  notify, watch, AgentDecision,
}
use txodds_agent_desk.Gate.{verdict_from_gate}

unfoldable pub role_for_track : TrackMode → AgentRole
role_for_track settlement = verifier
role_for_track trading = sharp
role_for_track fan = pundit

abbrev is_settlement : TrackMode → Bool
is_settlement settlement = true
is_settlement _ = false

abbrev is_trading : TrackMode → Bool
is_trading trading = true
is_trading _ = false

abbrev is_fan : TrackMode → Bool
is_fan fan = true
is_fan _ = false

abbrev pub match_intelligence_agent : Text
match_intelligence_agent = lit "match-intelligence-agent"

-- `{:?}`
pub signal_debug : SignalType → Text
signal_debug score_event = lit "ScoreEvent"
signal_debug red_card_reprice = lit "RedCardReprice"
signal_debug sharp_odds_move = lit "SharpOddsMove"
signal_debug proof_ready = lit "ProofReady"
signal_debug context_update = lit "ContextUpdate"

unfoldable pub action_debug : AgentAction → Text
action_debug trigger_resolution = lit "TriggerResolution"
action_debug fetch_proof = lit "FetchProof"
action_debug simulate_position = lit "SimulatePosition"
action_debug notify = lit "Notify"
action_debug watch = lit "Watch"

-- `run.verdict`
unfoldable pub verdict_for : TrackMode → ProofGateDecision → VerificationVerdict
unfolding verdict_from_gate
verdict_for track gate =
    if gate.pass && is_settlement track then verdict_from_gate gate else record {
      status = needs_review;
      reason =
          if is_settlement track
          then gate.reason
          else lit "non-settlement decision recorded; settlement remains proof-gated";
      checked = txline_input ∷ proof ∷ policy ∷ [];
    }

module _ {F : Type 0} where
  -- `if let Some(settlement) = run.settlement.as_mut()`
  unfoldable pub bind_settlement :
      Text → Option (SettlementReceipt F) → Option (SettlementReceipt F)
  bind_settlement sha256 none = none
  bind_settlement sha256 (some s) =
      some (record s { reference = some (lit "sha256:" ++ sha256); status = not_started })

module _ {F : Type 0} ⦃d : Float F⦄ (sha256_hex : Text → Text) where
  abbrev bid_for : TrackMode → AgentSignal F → AgentDecision F → AgentBid F
  bid_for track signal decision = record {
    agent_id = match_intelligence_agent;
    role = role_for_track track;
    price_sol = nought;
    confidence = decision.confidence;
    eta_ms = 0;
    note =
        lit "Real Rust Coral agent: "
        ++ (signal_debug signal.signal_type
            ++ (lit " with "
                ++ (action_debug decision.action ++ lit "; no seller auction or fake verifier.")));
  }

  abbrev delivery_for : TrackMode → Text → AgentDecision F → AgentDelivery
  delivery_for track payload decision = record {
    agent_id = match_intelligence_agent;
    title = lit "Match Intelligence decision package";
    payload = payload;
    sha256 = sha256_hex payload;
    citations = lit "Live TxLINE SSE event" ∷ lit "Read-only txoracle validation bridge" ∷ [];
    strategy =
        if is_trading track then some (lit "simulate only; no position is executed") else none;
    risk = some (lit "LLM cannot pass proof, release funds, or sign transactions");
    fan_copy = if is_fan track then some decision.explanation else none;
  }

  -- `payload` is the serialised package of the run, signal, decision, features, gate and receipt.
  unfoldable pub apply_decision_to_run :
      AgentRun F
      → TrackMode
      → Text
      → ProofGateDecision
      → AgentSignal F
      → AgentDecision F
      → AgentRun F
  unfolding verdict_for bind_settlement
  apply_decision_to_run run track payload gate signal decision =
      let bid = bid_for track signal decision in
      record run {
        bids = bid ∷ [];
        winner = some bid;
        delivery = some (delivery_for track payload decision);
        verdict = some (verdict_for track gate);
        settlement = bind_settlement (sha256_hex payload) run.settlement;
      }
