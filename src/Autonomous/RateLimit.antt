-- ===== src/Autonomous/RateLimit.antt =====
-- The rate limit of native/src/services/autonomous.rs, over any sequence of polls.
use txodds_agent_desk.Prelude.{
  ℕ, ◌+◌, ◌≤◌, ◌≡◌, refl, false, Option, none, some, List, [], ◌∷◌, arith, ◌==◌, inl, inr,
  Bool-cases, if◌then◌else◌, is_empty,
}
use txodds_agent_desk.Prelude.Int.{ℤ}
use txodds_agent_desk.Text.{Text}
use txodds_agent_desk.Float.{Float}
use txodds_agent_desk.Event.{TxLineEvent}
use txodds_agent_desk.Autonomous.{
  min_retrigger_interval, LoopMemory, Quote, Poll, Move, rate_limited, poll_fixture, trigger_at,
  too_soon, diff, latest_per_outcome,
}

-- The rounds triggered so far, the newest first: the fixture and the instant.
abbrev pub Log : Type 0
Log = List (ℕ × ℕ)

abbrev last_of : ℕ → Log → Option ℕ
last_of f [] = none
last_of f ((g, t) ∷ log) = if f == g then some t else last_of f log

-- Every earlier round of the fixture is at least the interval before the instant.
abbrev pub Before : ℕ → ℕ → Log → Type 0
Before f t [] = Unit
Before f t ((g, u) ∷ log) = (f ≡ g → u + min_retrigger_interval ≤ t) × Before f t log

abbrev pub IsSpaced : Log → Type 0
IsSpaced [] = Unit
IsSpaced ((f, t) ∷ log) = Before f t log × IsSpaced log

Before-later : (f t u : ℕ) (log : Log) → t ≤ u → Before f t log → Before f u log
Before-later f t u [] h b = tt
Before-later f t u ((g, v) ∷ log) h b =
    (λ e. let near = b.0 e in omega (arith, near, h), Before-later f t u log h b.1)

Before-none : (f t : ℕ) (log : Log) → last_of f log ≡ none → Before f t log
Before-none f t [] h = tt
Before-none f t ((g, u) ∷ log) h = ground (arith, Before-none f t log)

Before-some :
    (f t u : ℕ) (log : Log)
    → last_of f log ≡ some u
    → u + min_retrigger_interval ≤ t
    → IsSpaced log
    → Before f t log
Before-some f t u [] h near spaced = tt
Before-some f t u ((g, v) ∷ log) h near spaced = elim (Bool-cases (f == g)) [
  | inl same ↦
      let e : f ≡ g = ground arith in
      let here : v ≡ u = ground arith in
      (λ e'. omega arith, Before-later f v t log (omega arith) (rw e spaced.0))
  | inr other ↦ (λ e'. absurd (ground arith), Before-some f t u log (ground arith) near spaced.1)
]

-- The memory knows the last round of every fixture.
abbrev Tracks : (ℕ → Option ℕ) → Log → Type 0
Tracks last log = (f : ℕ) → last f ≡ last_of f log

Tracks-trigger :
    (f t : ℕ) (last : ℕ → Option ℕ) (log : Log)
    → Tracks last log
    → Tracks (trigger_at f t last) ((f, t) ∷ log)
Tracks-trigger f t last log h g = ground (arith, h g)

module _ {F : Type 0} where
  abbrev log_event : ℕ → ℕ → Option (TxLineEvent F) → Log → Log
  log_event f t none log = log
  log_event f t (some e) log = (f, t) ∷ log

  abbrev pub forgetful : LoopMemory F
  forgetful = record { last_seen = λ f o. none; last_triggered = λ f. none }

  -- The instant recorded is not before the one at which the age was read.
  abbrev pub InOrder : List (Poll F) → Type 0
  InOrder [] = Unit
  InOrder (p ∷ ps) = (p.asked ≤ p.now) × InOrder ps

Before-soon :
    (f asked now : ℕ) (last : Option ℕ) (log : Log)
    → last ≡ last_of f log
    → too_soon asked last ≡ false
    → asked ≤ now
    → IsSpaced log
    → Before f now log
Before-soon f asked now none log e h le spaced = Before-none f now log (ground arith)
Before-soon f asked now (some u) log e h le spaced =
    Before-some f now u log (ground arith) (ground arith) spaced

module _ {F : Type 0} ⦃d : Float F⦄ (trigger_pct : F) (ts_to_iso : ℤ → Text)
    (walk : List (Quote F) → List (Quote F)) where
  -- The memory and the log after all polls.
  unfoldable pub poll_all : LoopMemory F → Log → List (Poll F) → LoopMemory F × Log
  poll_all memory log [] = (memory, log)
  poll_all memory log (p ∷ ps) =
      let (memory', event) = poll_fixture trigger_pct ts_to_iso walk memory p in
      poll_all memory' (log_event p.fixture.fixture_id p.now event log) ps

  -- Both parts of the invariant.
  abbrev Kept : LoopMemory F × Option (TxLineEvent F) → Poll F → Log → Type 0
  Kept (memory, event) p log =
      let log' = log_event p.fixture.fixture_id p.now event log in
      Tracks memory.last_triggered log' × IsSpaced log'

  rate_limited-Kept :
      (memory : LoopMemory F) (p : Poll F) (latest : List (Quote F)) (m : Option (Move F))
      (log : Log)
      → Tracks memory.last_triggered log
      → IsSpaced log
      → p.asked ≤ p.now
      → Kept (rate_limited trigger_pct ts_to_iso walk memory p latest m) p log
  rate_limited-Kept memory p latest none log tracks spaced le = (tracks, spaced)
  rate_limited-Kept memory p latest (some m) log tracks spaced le =
      let f = p.fixture.fixture_id in
      elim (Bool-cases (too_soon p.asked (memory.last_triggered f))) [
        | inl soon ↦ rw soon (tracks, spaced)
        | inr late ↦ rw late (
          Tracks-trigger f p.now memory.last_triggered log tracks,
          (
            Before-soon f p.asked p.now (memory.last_triggered f) log (tracks f) late le spaced,
            spaced,
          ),
        )
      ]

  poll_fixture-Kept :
      (memory : LoopMemory F) (p : Poll F) (log : Log)
      → Tracks memory.last_triggered log
      → IsSpaced log
      → p.asked ≤ p.now
      → Kept (poll_fixture trigger_pct ts_to_iso walk memory p) p log
  unfolding poll_fixture
  poll_fixture-Kept memory p log tracks spaced le =
      let latest = walk (latest_per_outcome p.ticks) in
      let found = diff trigger_pct p.fixture.fixture_id latest memory.last_seen none in
      elim (Bool-cases (is_empty p.ticks)) [
        | inl t ↦ rw t (tracks, spaced)
        | inr t ↦ rw t (
            rate_limited-Kept (record memory { last_seen = found.0 }) p latest found.1 log tracks
              spaced le)
      ]

  poll_all-IsSpaced :
      (memory : LoopMemory F) (log : Log) (polls : List (Poll F))
      → Tracks memory.last_triggered log
      → IsSpaced log
      → InOrder polls
      → IsSpaced (poll_all memory log polls).1
  unfolding poll_all
  poll_all-IsSpaced memory log [] tracks spaced order = spaced
  poll_all-IsSpaced memory log (p ∷ ps) tracks spaced order =
      let step = poll_fixture trigger_pct ts_to_iso walk memory p in
      let kept = poll_fixture-Kept memory p log tracks spaced order.0 in
      poll_all-IsSpaced step.0 (log_event p.fixture.fixture_id p.now step.1 log) ps kept.0 kept.1
        order.1

  -- Over any sequence of polls of any fixtures, from an empty memory, two rounds triggered on the same
  -- fixture are at least an hour apart, if each poll reads the age of the last round no later than it
  -- records the new one.
  pub poll_fixture-IsSpaced :
      (polls : List (Poll F)) → InOrder polls → IsSpaced (poll_all forgetful [] polls).1
  poll_fixture-IsSpaced polls order = poll_all-IsSpaced forgetful [] polls (λ f. refl) tt order
