-- ===== src/Wager/Kelly.antt =====
-- kelly_fraction of crates/txodds-types/src/wager.rs.
use txodds_agent_desk.Prelude.{◌≡◌, false, arith, Returns}
use txodds_agent_desk.Float.{Float, nought, one}
use txodds_agent_desk.Float.Order.{IsOrdered, clamp_total}
use txodds_agent_desk.Wager.{kelly_fraction}

module _ {F : Type 0} ⦃d : Float F⦄ where
  abbrev pub InUnit : F → Type 0
  InUnit k = (d.lt k nought ≡ false) × (d.lt one k ≡ false)

module _ {F : Type 0} ⦃d : Float F⦄ (laws : IsOrdered F) where
  open laws use {le_of_lt, number_of_le, not_lt_of_le, nought_lt_one}

  -- On any input, finite or not, `kelly_fraction` does not panic, and its result is neither below 0
  -- nor above 1.
  pub kelly_fraction_bounds : (p o : F) → Returns (kelly_fraction p o) InUnit
  unfolding kelly_fraction
  kelly_fraction_bounds p o = ground (
    arith,
    clamp_total laws (d.div (d.sub (d.mul (d.sub o one) p) (d.sub one p)) (d.sub o one)) nought one,
    le_of_lt nought one nought_lt_one,
    number_of_le nought one,
    not_lt_of_le nought one,
    not_lt_of_le nought nought,
  )
