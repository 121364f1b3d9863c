-- ===== src/Decimal.antt =====
-- `u64` and `i64` printed in decimal, as `to_string` does.
pub mod Parse
use txodds_agent_desk.Prelude.{ℕ, zero, suc, ◌+◌, ◌/◌, ◌%◌, [], ◌∷◌, ltb, if◌then◌else◌}
use txodds_agent_desk.Prelude.Int.{ℤ, pos, negsuc}
use txodds_agent_desk.Text.{Text}

-- `digits_before fuel n acc` puts the digits of `n` before `acc`.
digits_before : ℕ → ℕ → Text → Text
digits_before zero n acc = acc
digits_before (suc f) n acc =
    let rest = digits_before f (n / 10) ((48 + n % 10) ∷ acc) in
    if ltb n 10 then (48 + n) ∷ acc else rest

unfoldable pub show_ℕ : ℕ → Text
unfolding digits_before
show_ℕ n = digits_before (suc n) n []

unfoldable pub show_ℤ : ℤ → Text
unfolding show_ℕ
show_ℤ (pos n) = show_ℕ n
show_ℤ (negsuc n) = b'-' ∷ show_ℕ (suc n)
