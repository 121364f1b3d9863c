-- ===== src/Autonomous.antt =====
-- native/src/services/autonomous.rs: one poll of a fixture's odds by the autonomous loop, and when it
-- triggers a round. The ticks are those parsed from the answer of the feed; the order in which a
-- `HashMap` is walked, the clocks and the formatting of times are parameters.
pub mod Distinct
pub mod Latest
pub mod Moved
pub mod Told
pub mod RateLimit
pub mod Trigger
use txodds_agent_desk.Prelude.{
  ℕ, ◌+◌, ◌-◌, ◌*◌, Bool, true, false, not, ◌&&◌, Option, none, some, List, [], ◌∷◌, ◌++◌,
  if◌then◌else◌, ltb, ◌==◌, is_some, is_some_and, map, is_empty,
}
use txodds_agent_desk.Prelude.Int.{ℤ, ltb_ℤ}
use txodds_agent_desk.Text.{Text, lit, text_eq}
use txodds_agent_desk.Decimal.{show_ℕ}
use txodds_agent_desk.Float.{Float, nought, one}
use txodds_agent_desk.Event.{OddsQuote, TxLineEvent, odds_move}

-- Nanoseconds.
abbrev pub min_retrigger_interval : ℕ
min_retrigger_interval = 3_600 * 1_000_000_000

pub record LiveFixture : Type 0 where
  pub fixture_id : ℕ
  pub home : Text
  pub away : Text

pub record OddsTick (F : Type 0) : Type 0 where
  pub ts : ℤ
  pub outcome : Text
  pub decimal : F

-- An outcome with its time and odds.
abbrev pub Quote : Type 0 → Type 0
Quote F = Text × (ℤ × F)

-- The shared maps of the desktop's state that the loop reads and writes.
pub record LoopMemory (F : Type 0) : Type 0 where
  pub last_seen : ℕ → Text → Option F
  pub last_triggered : ℕ → Option ℕ

-- What moved: the outcome, its previous and current odds, and the change in percent.
pub record Move (F : Type 0) : Type 0 where
  pub outcome : Text
  pub previous : F
  pub current : F
  pub pct : F

abbrev pub trigger_at : ℕ → ℕ → (ℕ → Option ℕ) → ℕ → Option ℕ
trigger_at fixture_id now last_triggered f = if f == fixture_id then some now else last_triggered f

-- `last.elapsed() < MIN_RETRIGGER_INTERVAL`
abbrev pub too_soon : ℕ → Option ℕ → Bool
too_soon asked last = is_some_and last λ t. ltb (asked - t) min_retrigger_interval

module _ {F : Type 0} where
  -- `and_modify`, `or_insert`
  unfoldable pub enter_tick : List (Quote F) → OddsTick F → List (Quote F)
  enter_tick [] tick = (tick.outcome, (tick.ts, tick.decimal)) ∷ []
  enter_tick ((name, (ts, decimal)) ∷ rest) tick =
      let entered = enter_tick rest tick in
      if text_eq name tick.outcome
      then (name, (if ltb_ℤ ts tick.ts then (tick.ts, tick.decimal) else (ts, decimal))) ∷ rest
      else (name, (ts, decimal)) ∷ entered

  unfoldable pub enter_ticks : List (Quote F) → List (OddsTick F) → List (Quote F)
  unfolding enter_tick
  enter_ticks latest [] = latest
  enter_ticks latest (t ∷ ts) = enter_ticks (enter_tick latest t) ts

  unfoldable pub latest_per_outcome : List (OddsTick F) → List (Quote F)
  unfolding enter_ticks
  latest_per_outcome ticks = enter_ticks [] ticks

  -- `last_seen.insert(key, current)`
  abbrev see : ℕ → Text → F → (ℕ → Text → Option F) → ℕ → Text → Option F
  see fixture_id outcome current last_seen f o =
      if f == fixture_id && text_eq o outcome then some current else last_seen f o

module _ {F : Type 0} ⦃d : Float F⦄ where
  open d use {lt, le, sub, mul, div, abs, dec, show_fixed}

  abbrev pub pct_change : F → F → F
  pct_change previous current = abs (mul (div (sub current previous) previous) (dec 100 1))

  abbrev pub is_move : F → F → F → Bool
  is_move trigger_pct previous current =
      lt nought previous && le trigger_pct (pct_change previous current)

  -- The first move found stays.
  abbrev note_move : F → Text → Option F → F → Option (Move F) → Option (Move F)
  note_move trigger_pct outcome previous current (some m) = some m
  note_move trigger_pct outcome none current none = none
  note_move trigger_pct outcome (some previous) current none =
      if is_move trigger_pct previous current
      then some (record {
        outcome = outcome;
        previous = previous;
        current = current;
        pct = pct_change previous current;
      })
      else none

  unfoldable pub diff :
      F
      → ℕ
      → List (Quote F)
      → (ℕ → Text → Option F)
      → Option (Move F)
      → (ℕ → Text → Option F) × Option (Move F)
  diff trigger_pct fixture_id [] last_seen triggered = (last_seen, triggered)
  diff trigger_pct fixture_id ((outcome, (ts, current)) ∷ rest) last_seen triggered =
      diff trigger_pct fixture_id rest (see fixture_id outcome current last_seen)
        (note_move trigger_pct outcome (last_seen fixture_id outcome) current triggered)

  abbrev quote_of : (ℤ → Text) → ℕ → Quote F → OddsQuote F
  quote_of ts_to_iso fixture_id (name, (ts, decimal)) = record {
    fixture_id = fixture_id;
    outcome = name;
    decimal = decimal;
    implied_probability = if lt nought decimal then div one decimal else nought;
    source = some (lit "autonomous-loop");
    ts = ts_to_iso ts;
  }

  pub move_event :
      (ℤ → Text) → (id_time ts_time : Text) → LiveFixture → List (Quote F) → Move F → TxLineEvent F
  move_event ts_to_iso id_time ts_time fixture latest m = record {
    id = lit "autonomous-" ++ (show_ℕ fixture.fixture_id ++ (lit "-" ++ id_time));
    kind = odds_move;
    fixture_id = fixture.fixture_id;
    seq = none;
    txline_ts = none;
    action = none;
    confirmed = none;
    participant = none;
    period = none;
    stat_keys = lit "odds.autonomous" ∷ [];
    schema_family = some (lit "odds");
    title = fixture.home ++ (lit " vs " ++ fixture.away);
    body =
        lit "Autonomous trigger: "
        ++ (m.outcome
            ++ (lit " odds moved "
                ++ (show_fixed 1 m.pct
                    ++ (lit "% ("
                        ++ (show_fixed 2 m.previous
                            ++ (lit " → " ++ (show_fixed 2 m.current ++ lit ")")))))));
    ts = ts_time;
    raw = none;
    odds = some (map (quote_of ts_to_iso fixture.fixture_id) latest);
    score = none;
    proof = none;
  }

-- One poll: its fixture and ticks, the instants at which the last trigger's age is read and the new
-- one recorded, and the two times of the event as text.
pub record Poll (F : Type 0) : Type 0 where
  pub fixture : LiveFixture
  pub ticks : List (OddsTick F)
  pub asked : ℕ
  pub now : ℕ
  pub id_time : Text
  pub ts_time : Text

module _ {F : Type 0} ⦃d : Float F⦄ (trigger_pct : F) (ts_to_iso : ℤ → Text)
    (walk : List (Quote F) → List (Quote F)) where
  -- The rate limit, once a move was found.
  abbrev pub rate_limited :
      LoopMemory F
      → Poll F
      → List (Quote F)
      → Option (Move F)
      → LoopMemory F × Option (TxLineEvent F)
  rate_limited memory poll latest none = (memory, none)
  rate_limited memory poll latest (some m) =
      if too_soon poll.asked (memory.last_triggered poll.fixture.fixture_id)
      then (memory, none)
      else (
        record memory {
          last_triggered = trigger_at poll.fixture.fixture_id poll.now memory.last_triggered;
        },
        some (move_event ts_to_iso poll.id_time poll.ts_time poll.fixture latest m),
      )

  -- The event that starts a round, if the poll triggers one.
  unfoldable pub poll_fixture : LoopMemory F → Poll F → LoopMemory F × Option (TxLineEvent F)
  unfolding latest_per_outcome diff move_event
  poll_fixture memory poll =
      let latest = walk (latest_per_outcome poll.ticks) in
      let (last_seen, triggered) =
        diff trigger_pct poll.fixture.fixture_id latest memory.last_seen none in
      if is_empty poll.ticks
      then (memory, none)
      else rate_limited (record memory { last_seen = last_seen }) poll latest triggered
