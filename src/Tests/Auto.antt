-- ===== src/Tests/Auto.antt =====
-- Runs of `Autonomous`: odds that move from 2.0 to 1.5.
use txodds_agent_desk.Prelude.{ℕ, ◌+◌, ◌≡◌, refl, none, some, [], ◌∷◌, List, arith}
use txodds_agent_desk.Prelude.Int.{ℤ, pos, ◌-ℤ◌, ◌*ℤ◌, ◌/ℤ◌}
use txodds_agent_desk.Text.{Text, text_eq}
use txodds_agent_desk.Float.Micro.{Micro, micro_float, literal}
use txodds_agent_desk.Event.{TxLineEvent}
use txodds_agent_desk.Autonomous.{
  LoopMemory, Quote, OddsTick, Poll, Move, poll_fixture, latest_per_outcome, move_event,
}
use txodds_agent_desk.Autonomous.Latest.{quote_for}
use txodds_agent_desk.Autonomous.RateLimit.{
  IsSpaced, InOrder, poll_all, forgetful, poll_fixture-IsSpaced,
}
use txodds_agent_desk.Autonomous.Distinct.{IsWalk}
use txodds_agent_desk.Autonomous.Trigger.{IsDecided, poll_fixture-IsDecided}

abbrev home : Text
home = b'h' ∷ []

abbrev tick : ℕ → ℕ → OddsTick Micro
tick ts cents = record { ts = pos ts; outcome = home; decimal = literal cents 100 }

abbrev iso : ℤ → Text
iso ts = []

abbrev as_is : List (Quote Micro) → List (Quote Micro)
as_is quotes = quotes

abbrev poll : ℕ → ℕ → Poll Micro
poll at cents = record {
  fixture = record { fixture_id = 7; home = home; away = [] };
  ticks = tick 1 300 ∷ tick 2 cents ∷ [];
  asked = at;
  now = at + 1;
  id_time = [];
  ts_time = [];
}

abbrev five : Micro
five = literal 5 1

abbrev seen_two : LoopMemory Micro
seen_two = record { last_seen = λ f o. some (literal 2 1); last_triggered = λ f. none }

latest_quote :
    quote_for home (latest_per_outcome (tick 1 300 ∷ tick 2 150 ∷ []))
    ≡ some (pos 2, literal 150 100)
unfolding latest_per_outcome text_eq
latest_quote = refl

in_order : InOrder (poll 10 200 ∷ poll 20 150 ∷ poll 30 100 ∷ [])
in_order = ground arith

poll_fixture-IsSpaced_example :
    IsSpaced (poll_all five iso as_is forgetful [] (poll 10 200 ∷ poll 20 150 ∷ poll 30 100 ∷ [])).1
poll_fixture-IsSpaced_example =
    poll_fixture-IsSpaced five iso as_is (poll 10 200 ∷ poll 20 150 ∷ poll 30 100 ∷ []) in_order

abbrev a_move : Move Micro
a_move = record {
  outcome = home;
  previous = literal 2 1;
  current = literal 150 100;
  pct = literal 25 1;
}

abbrev told : TxLineEvent Micro
told =
    move_event iso [] [] (record { fixture_id = 7; home = home; away = [] })
      ((home, (pos 2, literal 150 100)) ∷ []) a_move

triggers : (poll_fixture five iso as_is seen_two (poll 20 150)).1 ≡ some told
unfolding poll_fixture text_eq ◌-ℤ◌ ◌*ℤ◌ ◌/ℤ◌
triggers = refl

as_is-IsWalk : IsWalk as_is
as_is-IsWalk = record {
  distinct = λ qs h. h;
  none_added = λ qs o c h. h;
  none_lost = λ qs o c h. h;
}

poll_fixture-IsDecided_example :
    IsDecided five iso as_is seen_two
      (poll 20 150)
      (poll_fixture five iso as_is seen_two (poll 20 150)).1
poll_fixture-IsDecided_example =
    poll_fixture-IsDecided five iso as_is seen_two (poll 20 150) as_is-IsWalk
