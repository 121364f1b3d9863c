-- ===== src/ProofGuard/Reference.antt =====
-- is_valid_proof_ref and shorten of crates/agent-core/src/proof_guard.rs.
use txodds_agent_desk.Prelude.{
  ℕ, suc, ◌-◌, ◌≤◌, ◌<◌, ◌≡◌, refl, true, false, none, [], ◌∷◌, ◌++◌, arith, all, is_some,
  Bool-cases, inl, inr,
}
use txodds_agent_desk.Text.{
  Text, lit, byte_len, is_ascii_alphanumeric, IsAscii, slice_to-IsAscii, slice_from-IsAscii,
  slice_to-inside,
}
use txodds_agent_desk.ProofGuard.{shorten, is_ref_char, is_valid_proof_ref}

is_ref_char-ascii : (c : ℕ) → is_ref_char c ≡ true → c < 0x80
unfolding is_ascii_alphanumeric
is_ref_char-ascii c h = ground arith

all-is_ref_char-IsAscii : (s : Text) → all is_ref_char s ≡ true → IsAscii s
all-is_ref_char-IsAscii [] h = tt
all-is_ref_char-IsAscii (c ∷ s) h = ground (arith, is_ref_char-ascii c, all-is_ref_char-IsAscii s)

pub is_valid_proof_ref-IsAscii :
    (s : Text) → is_valid_proof_ref s ≡ true → IsAscii s × (8 ≤ byte_len s)
unfolding is_valid_proof_ref
is_valid_proof_ref-IsAscii s h = ground (arith, all-is_ref_char-IsAscii s)

byte_len-ellipsis : byte_len (lit "…") ≡ 3
unfolding byte_len lit
byte_len-ellipsis = refl

not-IsAscii : (front : Text) (c : ℕ) (rest : Text) → 0x80 ≤ c → ¬ (IsAscii (front ++ c ∷ rest))
not-IsAscii [] c rest wide a = omega arith
not-IsAscii (x ∷ front) c rest wide a = not-IsAscii front c rest wide a.1

-- A reference of single bytes is shortened without a panic.
pub shorten-IsAscii : (s : Text) → IsAscii s → is_some (shorten s) ≡ true
unfolding shorten
shorten-IsAscii s a =
    ground (arith, slice_to-IsAscii s 12 a, slice_from-IsAscii s (byte_len s - 4) a)

-- A reference of more than 20 bytes in which eleven single bytes are followed by a longer character
-- cannot be shortened: the code panics.
pub shorten-panics :
    (front : Text) (c : ℕ) (rest : Text)
    → IsAscii front
    → byte_len front ≡ 11
    → 0x80 ≤ c
    → 20 < byte_len (front ++ c ∷ rest)
    → shorten (front ++ c ∷ rest) ≡ none
unfolding shorten
shorten-panics front c rest ascii size wide long =
    let inside = slice_to-inside front c rest ascii wide in
    let at_limit : suc (byte_len front) ≡ 12 = omega arith in
    let none_there = rw at_limit at inside in ground arith

-- Such a reference is never a well-shaped one.
pub is_valid_proof_ref-wide :
    (front : Text) (c : ℕ) (rest : Text) → 0x80 ≤ c → is_valid_proof_ref (front ++ c ∷ rest) ≡ false
is_valid_proof_ref-wide front c rest wide =
    elim (Bool-cases (is_valid_proof_ref (front ++ c ∷ rest))) [
      | inl e ↦ absurd (not-IsAscii front c rest wide (is_valid_proof_ref-IsAscii _ e).0)
      | inr e ↦ e
    ]
