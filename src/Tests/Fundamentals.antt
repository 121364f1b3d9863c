-- ===== src/Tests/Fundamentals.antt =====
-- Runs of `Fundamentals`.
use txodds_agent_desk.Prelude.{◌≡◌, refl, true, none, some, ◌∷◌, [], Returns}
use txodds_agent_desk.Text.{lit}
use txodds_agent_desk.Float.Micro.{Micro, micro_float, literal, Micro-IsOrdered}
use txodds_agent_desk.Float.{nought}
use txodds_agent_desk.Json.{Value, number, object, field, end}
use txodds_agent_desk.Fundamentals.{Functions, minus_one, extract_stats}
use txodds_agent_desk.Fundamentals.Head.{IsBounded, extract_stats-IsBounded}

below_zero : micro_float.le (minus_one {F = Micro}) nought ≡ true
unfolding txodds_agent_desk.Prelude.Int.◌-ℤ◌
below_zero = refl

-- Every number of a text reads as 3.
abbrev functions : Functions Micro
functions = record {
  exp = λ x. x;
  ln = λ x. x;
  tanh = λ x. x;
  json_f64 = λ t. some (literal 3 1);
  of_i64 = λ n. literal 3 1;
  parse = λ t. none;
}

abbrev signal : Value
signal = object (field (lit "h2h") (number (b'3' ∷ [])) end)

extract_stats-IsBounded_example :
    Returns (extract_stats functions signal) λ stats. IsBounded Micro-IsOrdered functions stats.h2h
extract_stats-IsBounded_example =
    extract_stats-IsBounded Micro-IsOrdered functions signal below_zero
