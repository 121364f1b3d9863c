-- ===== src/Tests/Market.antt =====
-- Runs of `Wager` and `Authority`.
use txodds_agent_desk.Prelude.{◌≡◌, refl, Returns}
use txodds_agent_desk.Float.Micro.{micro_float, Micro-IsOrdered}
use txodds_agent_desk.Authority.{adjudicate}
use txodds_agent_desk.Authority.Stake.{IsRuled, adjudicate-IsRuled}
use txodds_agent_desk.Authority.Trust.{outcomes, forge, adjudicate-forge}
use txodds_agent_desk.Tests.{backed_home, inflated, two_to_one, small_cap}

adjudicate-IsRuled_example :
    Returns (adjudicate inflated two_to_one small_cap) (IsRuled small_cap inflated two_to_one)
adjudicate-IsRuled_example = adjudicate-IsRuled Micro-IsOrdered inflated two_to_one small_cap refl

adjudicate-forge_example :
    outcomes (adjudicate (forge backed_home inflated) two_to_one small_cap)
    ≡ outcomes (adjudicate backed_home two_to_one small_cap)
adjudicate-forge_example = adjudicate-forge backed_home inflated two_to_one small_cap
