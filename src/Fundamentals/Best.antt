-- ===== src/Fundamentals/Best.antt =====
-- best_selection of crates/agent-core/src/fundamentals.rs.
use txodds_agent_desk.Prelude.{◌≡◌, true, arith}
use txodds_agent_desk.Float.{Float, IsNumber}
use txodds_agent_desk.Float.Order.{IsOrdered}
use txodds_agent_desk.Wager.{Selection, home, draw, away}
use txodds_agent_desk.Fundamentals.{Distribution, prob, best_selection}

module _ {F : Type 0} ⦃d : Float F⦄ (laws : IsOrdered F) where
  open laws use {le_of_lt, lt_of_not_le, le_trans}

  -- Of three probabilities none of which is NaN, the selection has one that no other exceeds.
  pub best_selection-prob :
      (m : Distribution F) (sel : Selection)
      → IsNumber m.home
      → IsNumber m.draw
      → IsNumber m.away
      → d.le (prob m sel) (prob m (best_selection m)) ≡ true
  unfolding prob best_selection
  best_selection-prob m home h k a = ground (
    arith,
    lt_of_not_le m.draw m.home k h,
    lt_of_not_le m.away m.home a h,
    lt_of_not_le m.draw m.away k a,
    le_of_lt m.home m.draw,
    le_of_lt m.home m.away,
    le_of_lt m.away m.draw,
    le_trans m.home m.away m.draw,
    le_trans m.home m.draw m.away,
  )
  best_selection-prob m draw h k a = ground (
    arith,
    lt_of_not_le m.draw m.home k h,
    lt_of_not_le m.away m.home a h,
    lt_of_not_le m.draw m.away k a,
    le_of_lt m.home m.draw,
    le_of_lt m.home m.away,
    le_of_lt m.away m.draw,
    le_trans m.draw m.home m.away,
  )
  best_selection-prob m away h k a = ground (
    arith,
    lt_of_not_le m.draw m.home k h,
    lt_of_not_le m.away m.home a h,
    lt_of_not_le m.draw m.away k a,
    le_of_lt m.home m.draw,
    le_of_lt m.home m.away,
    le_of_lt m.away m.draw,
    le_trans m.away m.home m.draw,
  )
