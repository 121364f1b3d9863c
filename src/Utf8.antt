-- ===== src/Utf8.antt =====
-- `String::from_utf8_lossy`, which native/src/services/txline/ingest.rs applies to each chunk of the
-- stream, as a machine over the bytes: a sequence that is cut off or wrong becomes U+FFFD, and the byte
-- that broke it is read anew.
pub mod RoundTrip
use txodds_agent_desk.Prelude.{
  ℕ, zero, suc, ◌+◌, ◌-◌, ◌*◌, ◌/◌, ◌%◌, ◌<◌, ◌≤◌, ◌≡◌, refl, ◌⊎◌, inl, inr, ◌&&◌, List, [], ◌∷◌,
  ◌++◌, arith, if◌then◌else◌, ltb, leb, ◌==◌, append_assoc, ◌∙◌, ap, sym,
}
use txodds_agent_desk.Text.{Text}

abbrev pub Bytes : Type 0
Bytes = List ℕ

abbrev pub replacement : ℕ
replacement = 0xfffd

-- What the machine waits for: the start of a character, or `suc left` more bytes of one whose bits so
-- far are `value`, the next between `lo` and `hi`.
pub data Pending : Type 0 where
  start : Pending
  need : ℕ → ℕ → ℕ → ℕ → Pending

unfoldable pub start_byte : ℕ → Text × Pending
start_byte b =
    if ltb b 0x80
    then (b ∷ [], start)
    else if ltb b 0xc2
    then (replacement ∷ [], start)
    else if ltb b 0xe0
    then ([], need 0 0x80 0xbf (b - 0xc0))
    else if b == 0xe0
    then ([], need 1 0xa0 0xbf 0)
    else if b == 0xed
    then ([], need 1 0x80 0x9f 13)
    else if ltb b 0xf0
    then ([], need 1 0x80 0xbf (b - 0xe0))
    else if b == 0xf0
    then ([], need 2 0x90 0xbf 0)
    else if ltb b 0xf4
    then ([], need 2 0x80 0xbf (b - 0xf0))
    else if b == 0xf4
    then ([], need 2 0x80 0x8f 4)
    else (replacement ∷ [], start)

abbrev next_byte : ℕ → ℕ → ℕ → Text × Pending
next_byte zero value b = ((value * 64 + (b - 0x80)) ∷ [], start)
next_byte (suc left) value b = ([], need left 0x80 0xbf (value * 64 + (b - 0x80)))

unfoldable pub decode_byte : Pending → ℕ → Text × Pending
unfolding start_byte
decode_byte start b = start_byte b
decode_byte (need left lo hi value) b =
    let (out, after) = start_byte b in
    if leb lo b && leb b hi then next_byte left value b else (replacement ∷ out, after)

abbrev give_up : Pending → Text
give_up start = []
give_up (need left lo hi value) = replacement ∷ []

unfoldable pub decode : Pending → Bytes → Text
unfolding decode_byte
decode p [] = give_up p
decode p (b ∷ bs) = let (out, after) = decode_byte p b in out ++ decode after bs

unfoldable pub from_utf8_lossy : Bytes → Text
unfolding decode
from_utf8_lossy bytes = decode start bytes

-- The bytes of a character.
unfoldable pub encode_char : ℕ → Bytes
encode_char c =
    if ltb c 0x80
    then c ∷ []
    else if ltb c 0x800
    then (0xc0 + c / 64) ∷ (0x80 + c % 64) ∷ []
    else if ltb c 0x10000
    then (0xe0 + c / 4096) ∷ (0x80 + c / 64 % 64) ∷ (0x80 + c % 64) ∷ []
    else (0xf0 + c / 262_144) ∷ (0x80 + c / 4096 % 64) ∷ (0x80 + c / 64 % 64) ∷ (0x80 + c % 64) ∷ []

unfoldable pub encode : Text → Bytes
unfolding encode_char
encode [] = []
encode (c ∷ s) = encode_char c ++ encode s

-- A code point that is a character of Unicode: no surrogate, and below the end.
abbrev pub IsScalar : ℕ → Type 0
IsScalar c = (c < 0x11_0000) × ((c < 0xd800) ⊎ (0xe000 ≤ c))

abbrev pub AreScalars : Text → Type 0
AreScalars [] = Unit
AreScalars (c ∷ s) = IsScalar c × AreScalars s
