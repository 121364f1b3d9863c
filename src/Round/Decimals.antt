-- ===== src/Round/Decimals.antt =====
-- The fixed point numbers of `Float.Micro` as decimals.
use txodds_agent_desk.Prelude.{arith, ap, ◌*◌, ◌/◌}
use txodds_agent_desk.Prelude.Int.{zero_add_ℤ}
use txodds_agent_desk.Float.Micro.{Micro, micro_float, fix, scale}
use txodds_agent_desk.Round.Severity.{IsDecimal}

pub Micro-IsDecimal : IsDecimal Micro
Micro-IsDecimal = record {
  le_dec = λ a b h k. ground arith;
  not_le_dec = λ a b h k. ground arith;
  nought_add_dec = λ a h. ap fix (zero_add_ℤ (a * scale / 100));
  min_dec_one = λ a h. ground arith;
}
