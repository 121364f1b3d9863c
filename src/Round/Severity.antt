-- ===== src/Round/Severity.antt =====
-- build_signal of native/src/services/agent/runtime/signal.rs on derived features: its severities.
use Prim.Native.Nat.{◌<◌, ◌≤◌}
use txodds_agent_desk.Prelude.{ℕ, ◌≡◌, ◌≢◌, true, false, some, arith}
use txodds_agent_desk.Text.{Text}
use txodds_agent_desk.Float.{Float, nought, one}
use txodds_agent_desk.Event.{
  TxLineEventKind, goal, red_card, final_whistle, odds_move, odds_update, proof_received, fixture,
  score_update, TxLineEvent,
}
use txodds_agent_desk.Decision.{SignalSeverity, critical, high, medium, low, AgentSignal}
use txodds_agent_desk.Features.{severity_of, derive_features}
use txodds_agent_desk.Signal.{severity_for, build_signal}

-- Literals of two decimals between 0 and 1: the documented order of the numbers that they denote,
-- and 0 as the unit of the sum.
pub record IsDecimal (F : Type 0) ⦃d : Float F⦄ : Type 0 where
  pub le_dec : (a b : ℕ) → a ≤ b → b ≤ 100 → d.le (d.dec a 100) (d.dec b 100) ≡ true
  pub not_le_dec : (a b : ℕ) → a < b → b ≤ 100 → d.le (d.dec b 100) (d.dec a 100) ≡ false
  pub nought_add_dec : (a : ℕ) → a ≤ 100 → d.add nought (d.dec a 100) ≡ d.dec a 100
  pub min_dec_one : (a : ℕ) → a ≤ 100 → d.min_f (d.dec a 100) one ≡ d.dec a 100

-- The severity of each kind of event.
abbrev pub severity_table : TxLineEventKind → SignalSeverity
severity_table goal = high
severity_table red_card = high
severity_table final_whistle = high
severity_table proof_received = high
severity_table odds_move = medium
severity_table odds_update = medium
severity_table fixture = low
severity_table score_update = low

abbrev hundredths : TxLineEventKind → ℕ
hundredths goal = 80
hundredths red_card = 78
hundredths final_whistle = 72
hundredths odds_move = 64
hundredths odds_update = 64
hundredths proof_received = 70
hundredths fixture = 35
hundredths score_update = 35

module _ {F : Type 0} ⦃d : Float F⦄ (laws : IsDecimal F) where
  open laws use {le_dec, not_le_dec, nought_add_dec, min_dec_one}

  score_lem : (k : TxLineEventKind) → d.min_f (severity_of k) one ≡ d.dec (hundredths k) 100
  unfolding severity_of
  score_lem k = ground (arith, nought_add_dec (hundredths k), min_dec_one (hundredths k))

  severity_for_lem :
      (k : TxLineEventKind) → severity_for (d.dec (hundredths k) 100) ≡ severity_table k
  unfolding severity_for
  severity_for_lem k = ground (
    arith,
    not_le_dec (hundredths k) 85,
    not_le_dec (hundredths k) 70,
    le_dec 70 (hundredths k),
    not_le_dec (hundredths k) 55,
    le_dec 55 (hundredths k),
  )

  -- A signal built from an event's own features has the severity of the table: no event gives a
  -- critical one.
  pub build_signal-severity :
      (uuid now : Text) (event : TxLineEvent F) (signal : AgentSignal F)
      → build_signal uuid now event (derive_features event) ≡ some signal
      → (signal.severity ≡ severity_table event.kind) × (signal.severity ≢ critical)
  unfolding build_signal derive_features
  build_signal-severity uuid now event signal h =
      ground (arith, score_lem event.kind, severity_for_lem event.kind)
