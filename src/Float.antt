-- ===== src/Float.antt =====
-- What the code does with an `f64`: comparisons, arithmetic, literals and formatting, over any type
-- with these operations. `clamp` is the standard library's, defined from the comparisons.
pub mod Micro
pub mod Order
use txodds_agent_desk.Prelude.{
  ℕ, ◌≡◌, Bool, true, false, not, ◌&&◌, Option, none, some, List, [], ◌∷◌, if◌then◌else◌,
}
use txodds_agent_desk.Text.{Text}

pub record Float (F : Type 0) : Type 0 where
  -- `a < b` and `a <= b`; both are false on a NaN
  pub lt : F → F → Bool
  pub le : F → F → Bool
  pub is_finite : F → Bool
  pub add : F → F → F
  pub sub : F → F → F
  pub mul : F → F → F
  pub div : F → F → F
  pub abs : F → F
  pub min_f : F → F → F
  pub max_f : F → F → F
  -- the literal n / d, such as 0.55 for 55 and 100
  pub dec : ℕ → ℕ → F
  pub epsilon : F
  -- the sum of no values
  pub empty_sum : F
  -- `{}`, `{:.p}` and `{:+.p}`
  pub show_f : F → Text
  pub show_fixed : ℕ → F → Text
  pub show_signed : ℕ → F → Text

module _ {F : Type 0} ⦃d : Float F⦄ where
  open d use {lt, le, dec, add}

  abbrev pub nought : F
  nought = dec 0 1

  abbrev pub one : F
  one = dec 1 1

  -- `f64::clamp`; `none` is its panic, on bounds out of order or NaN.
  unfoldable pub clamp : F → F → F → Option F
  clamp x lo hi =
      if not (le lo hi) then none else some (if lt x lo then lo else if lt hi x then hi else x)

  -- `Iterator::sum`
  abbrev pub sum_from : F → List F → F
  sum_from acc [] = acc
  sum_from acc (x ∷ xs) = sum_from (add acc x) xs

  -- NaN is the value that is not `<=` itself.
  abbrev pub IsNumber : F → Type 0
  IsNumber x = le x x ≡ true
