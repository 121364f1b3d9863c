-- ===== src/Tests/Replay.antt =====
-- A run of `Backtest`.
use txodds_agent_desk.Prelude.{ℕ, refl, [], ◌∷◌, List}
use txodds_agent_desk.Prelude.Int.{ℤ, pos}
use txodds_agent_desk.Text.{Text, lit}
use txodds_agent_desk.Float.Micro.{Micro, micro_float, Micro-IsOrdered, literal}
use txodds_agent_desk.Autonomous.{OddsTick}
use txodds_agent_desk.Backtest.{replay_fixture}
use txodds_agent_desk.Backtest.Opposites.{AreOpposite, replay_fixture-AreOpposite}

abbrev home : Text
home = lit "home"

abbrev ticks : List (OddsTick Micro)
ticks =
    record { ts = pos 1; outcome = home; decimal = literal 2 1 }
    ∷ record { ts = pos 2; outcome = home; decimal = literal 15 10 }
    ∷ []

abbrev no_text : ℕ → Text
no_text n = []

abbrev no_time : ℤ → Text
no_time n = []

replay_fixture-AreOpposite_example :
    AreOpposite (replay_fixture (literal 5 1) no_text no_text no_time 7 home [] ticks)
replay_fixture-AreOpposite_example =
    replay_fixture-AreOpposite (literal 5 1) no_text no_text no_time 7 home [] Micro-IsOrdered ticks
      (refl, (refl, tt))
