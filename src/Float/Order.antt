-- ===== src/Float/Order.antt =====
-- The documented behaviour of `f64` comparisons, `min` and `max` that the proofs rely on: they hold
-- of NaN and of the infinities too.
use txodds_agent_desk.Prelude.{◌≡◌, true, false, some, arith, Returns}
use txodds_agent_desk.Float.{Float, nought, one, clamp, IsNumber}

pub record IsOrdered (F : Type 0) ⦃d : Float F⦄ : Type 0 where
  -- `a < b` implies that neither is NaN
  pub le_of_lt : (x y : F) → d.lt x y ≡ true → d.le x y ≡ true
  pub number_of_le : (x y : F) → d.le x y ≡ true → IsNumber x × IsNumber y
  pub le_trans : (x y z : F) → d.le x y ≡ true → d.le y z ≡ true → d.le x z ≡ true
  -- `<` is the negation of the reversed `<=` away from NaN
  pub lt_of_not_le : (x y : F) → IsNumber x → IsNumber y → d.le x y ≡ false → d.lt y x ≡ true
  pub le_of_not_lt : (x y : F) → IsNumber x → IsNumber y → d.lt x y ≡ false → d.le y x ≡ true
  pub not_lt_of_le : (x y : F) → d.le x y ≡ true → d.lt y x ≡ false
  pub nought_lt_one : d.lt nought one ≡ true
  -- `f64::max` and `f64::min` ignore a NaN
  pub le_max_right : (x y : F) → IsNumber y → d.le y (d.max_f x y) ≡ true
  pub min_le_right : (x y : F) → IsNumber y → d.le (d.min_f x y) y ≡ true

module _ {F : Type 0} ⦃d : Float F⦄ (laws : IsOrdered F) where
  open laws use {le_of_lt, number_of_le, le_of_not_lt, not_lt_of_le}

  -- A clamped number lies between the bounds.
  pub clamp_bounds :
      (x lo hi c : F)
      → clamp x lo hi ≡ some c
      → IsNumber x
      → (d.le lo c ≡ true) × (d.le c hi ≡ true)
  unfolding clamp
  clamp_bounds x lo hi c h n =
      ground (arith, number_of_le lo hi, le_of_not_lt x lo n, le_of_not_lt hi x)

  -- A clamp to bounds in order does not panic, and is never outside them, a NaN included.
  pub clamp_total :
      (x lo hi : F)
      → d.le lo hi ≡ true
      → Returns (clamp x lo hi) λ c. (d.lt c lo ≡ false) × (d.lt hi c ≡ false)
  unfolding clamp
  clamp_total x lo hi h =
      ground (arith, number_of_le lo hi, not_lt_of_le lo lo, not_lt_of_le hi hi, not_lt_of_le lo hi)
