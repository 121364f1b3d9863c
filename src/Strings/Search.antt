-- ===== src/Strings/Search.antt =====
-- `str::find`, and the slices at the position that it finds.
use txodds_agent_desk.Prelude.{ℕ, zero, suc, ◌+◌, ◌-◌, ◌≡◌, refl, some, [], ◌∷◌, ◌++◌, arith}
use txodds_agent_desk.Text.{Text, byte_len, slice_to, slice_from, utf8_width, utf8_width_pos}

slice_to-step :
    (c : ℕ) (s u : Text) (m n : ℕ)
    → n ≡ utf8_width c + m
    → slice_to s m ≡ some u
    → slice_to (c ∷ s) n ≡ some (c ∷ u)
unfolding slice_to
slice_to-step c s u m zero e h = absurd (omega (arith, utf8_width_pos c))
slice_to-step c s u m (suc n) e h =
    let rest : suc n - utf8_width c ≡ m = omega arith in rw (rest, h) (ground arith)

slice_from-step :
    (c : ℕ) (s u : Text) (m n : ℕ)
    → n ≡ utf8_width c + m
    → slice_from s m ≡ some u
    → slice_from (c ∷ s) n ≡ some u
unfolding slice_from
slice_from-step c s u m zero e h = absurd (omega (arith, utf8_width_pos c))
slice_from-step c s u m (suc n) e h =
    let rest : suc n - utf8_width c ≡ m = omega arith in rw (rest, h) (ground arith)

-- The slices at the end of a prefix are the prefix and what follows it.
pub slice_to-append : (s t : Text) → slice_to (s ++ t) (byte_len s) ≡ some s
unfolding slice_to byte_len
slice_to-append [] t = refl
slice_to-append (c ∷ s) t = slice_to-step c (s ++ t) s (byte_len s) _ refl (slice_to-append s t)

pub slice_from-append : (s t : Text) → slice_from (s ++ t) (byte_len s) ≡ some t
unfolding slice_from byte_len
slice_from-append [] t = refl
slice_from-append (c ∷ s) t =
    slice_from-step c (s ++ t) t (byte_len s) _ refl (slice_from-append s t)
