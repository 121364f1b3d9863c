-- ===== src/Float/Micro.antt =====
-- An executable instance of the `f64` interface, for tests and witnesses: fixed point numbers of six
-- decimals, and NaN.
use txodds_agent_desk.Prelude.{
  ℕ, zero, suc, ◌*◌, ◌/◌, refl, Bool, true, false, [], ◌∷◌, arith, if◌then◌else◌,
}
use txodds_agent_desk.Prelude.Int.{ℤ, pos, negsuc, ◌+ℤ◌, ◌-ℤ◌, ◌*ℤ◌, ◌/ℤ◌, ltb_ℤ, leb_ℤ}
use txodds_agent_desk.Text.{Text}
use txodds_agent_desk.Float.{Float}
use txodds_agent_desk.Float.Order.{IsOrdered}

pub data Micro : Type 0 where
  nan : Micro
  fix : ℤ → Micro

abbrev pub scale : ℕ
scale = 1_000_000

abbrev test2 : (ℤ → ℤ → Bool) → Micro → Micro → Bool
test2 f nan b = false
test2 f (fix a) nan = false
test2 f (fix a) (fix b) = f a b

abbrev lift2 : (ℤ → ℤ → Micro) → Micro → Micro → Micro
lift2 f nan b = nan
lift2 f (fix a) nan = nan
lift2 f (fix a) (fix b) = f a b

abbrev div_ℤ : ℤ → ℤ → Micro
div_ℤ a (pos zero) = nan
div_ℤ a (pos (suc n)) = fix ((a *ℤ pos scale) /ℤ suc n)
div_ℤ a (negsuc n) = fix ((pos 0 -ℤ a *ℤ pos scale) /ℤ suc n)

abbrev pick : (ℤ → ℤ → Bool) → Micro → Micro → Micro
pick f nan b = b
pick f (fix a) nan = fix a
pick f (fix a) (fix b) = if f a b then fix a else fix b

abbrev finite : Micro → Bool
finite nan = false
finite (fix _) = true

abbrev magnitude : Micro → Micro
magnitude nan = nan
magnitude (fix (pos n)) = fix (pos n)
magnitude (fix (negsuc n)) = fix (pos (suc n))

-- The value as one or two code points, enough to tell values apart in a test.
abbrev show_micro : Micro → Text
show_micro nan = b'N' ∷ []
show_micro (fix (pos n)) = n ∷ []
show_micro (fix (negsuc n)) = b'-' ∷ suc n ∷ []

abbrev pub literal : ℕ → ℕ → Micro
literal n den = fix (pos (n * scale / den))

instance abbrev pub micro_float : Float Micro
micro_float = record {
  lt = test2 ltb_ℤ;
  le = test2 leb_ℤ;
  is_finite = finite;
  add = lift2 λ a b. fix (a +ℤ b);
  sub = lift2 λ a b. fix (a -ℤ b);
  mul = lift2 λ a b. fix ((a *ℤ b) /ℤ scale);
  div = lift2 div_ℤ;
  abs = magnitude;
  min_f = pick leb_ℤ;
  max_f = pick λ a b. leb_ℤ b a;
  dec = literal;
  epsilon = fix (pos 0);
  empty_sum = fix (pos 0);
  show_f = show_micro;
  show_fixed = λ _. show_micro;
  show_signed = λ _. show_micro;
}

-- The laws can be met.
pub Micro-IsOrdered : IsOrdered Micro
Micro-IsOrdered = record {
  le_of_lt = ground arith;
  number_of_le = ground arith;
  le_trans = ground arith;
  lt_of_not_le = ground arith;
  le_of_not_lt = ground arith;
  not_lt_of_le = ground arith;
  nought_lt_one = refl;
  le_max_right = ground arith;
  min_le_right = ground arith;
}
