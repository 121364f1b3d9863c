-- ===== src/Utf8/RoundTrip.antt =====
-- Encoding and decoding UTF-8 text: `String::from_utf8_lossy` on the bytes of characters.
use txodds_agent_desk.Prelude.{
  ℕ, ◌+◌, ◌-◌, ◌*◌, ◌/◌, ◌%◌, ◌<◌, ◌≤◌, ◌≡◌, refl, ◌⊎◌, [], ◌∷◌, ◌++◌, arith, append_assoc, ◌∙◌, ap,
  append-nil, sym,
}
use txodds_agent_desk.Text.{Text}
use txodds_agent_desk.Utf8.{
  Bytes, start, decode, encode_char, encode, IsScalar, AreScalars, from_utf8_lossy,
}

one_byte : (c : ℕ) (rest : Bytes) → c < 0x80 → decode start (c ∷ rest) ≡ c ∷ decode start rest
unfolding decode
one_byte c rest h = ground arith

two_bytes :
    (a b : ℕ) (rest : Bytes)
    → 0xc2 ≤ a
    → a < 0xe0
    → 0x80 ≤ b
    → b ≤ 0xbf
    → decode start (a ∷ b ∷ rest) ≡ ((a - 0xc0) * 64 + (b - 0x80)) ∷ decode start rest
unfolding decode
two_bytes a b rest h1 h2 h3 h4 = ground arith

three_bytes :
    (a b c : ℕ) (rest : Bytes)
    → 0xe0 ≤ a
    → a < 0xf0
    → 0x80 ≤ b
    → b ≤ 0xbf
    → (a ≡ 0xe0 → 0xa0 ≤ b)
    → (a ≡ 0xed → b ≤ 0x9f)
    → 0x80 ≤ c
    → c ≤ 0xbf
    → decode start (a ∷ b ∷ c ∷ rest)
      ≡ (((a - 0xe0) * 64 + (b - 0x80)) * 64 + (c - 0x80)) ∷ decode start rest
unfolding decode
three_bytes a b c rest h1 h2 h3 h4 h5 h6 h7 h8 = ground arith

four_bytes :
    (a b c e : ℕ) (rest : Bytes)
    → 0xf0 ≤ a
    → a ≤ 0xf4
    → 0x80 ≤ b
    → b ≤ 0xbf
    → (a ≡ 0xf0 → 0x90 ≤ b)
    → (a ≡ 0xf4 → b ≤ 0x8f)
    → 0x80 ≤ c
    → c ≤ 0xbf
    → 0x80 ≤ e
    → e ≤ 0xbf
    → decode start (a ∷ b ∷ c ∷ e ∷ rest)
      ≡ ((((a - 0xf0) * 64 + (b - 0x80)) * 64 + (c - 0x80)) * 64 + (e - 0x80)) ∷ decode start rest
unfolding decode
four_bytes a b c e rest h1 h2 h3 h4 h5 h6 h7 h8 h9 h10 = ground arith

module _ (c : ℕ) (rest : Bytes) where
  char_two :
      0x80 ≤ c
      → c < 0x800
      → decode start ((0xc0 + c / 64) ∷ (0x80 + c % 64) ∷ rest) ≡ c ∷ decode start rest
  char_two h k =
      two_bytes (0xc0 + c / 64) (0x80 + c % 64) rest (omega arith) (omega arith) (omega arith)
        (omega arith)
      ∙ ap (λ x. x ∷ decode start rest) (omega arith)

  char_three :
      0x800 ≤ c
      → c < 0x10000
      → ((c < 0xd800) ⊎ (0xe000 ≤ c))
      → decode start ((0xe0 + c / 4096) ∷ (0x80 + c / 64 % 64) ∷ (0x80 + c % 64) ∷ rest)
        ≡ c ∷ decode start rest
  char_three h k s =
      three_bytes (0xe0 + c / 4096) (0x80 + c / 64 % 64) (0x80 + c % 64) rest (omega arith)
        (omega arith) (omega arith) (omega arith) (λ e. omega arith) (λ e. ground arith)
        (omega arith) (omega arith)
      ∙ ap (λ x. x ∷ decode start rest) (omega arith)

  char_four :
      0x10000 ≤ c
      → c < 0x11_0000
      → decode start (
          (0xf0 + c / 262_144)
          ∷ (0x80 + c / 4096 % 64)
          ∷ (0x80 + c / 64 % 64)
          ∷ (0x80 + c % 64)
          ∷ rest)
        ≡ c ∷ decode start rest
  char_four h k =
      four_bytes (0xf0 + c / 262_144) (0x80 + c / 4096 % 64) (0x80 + c / 64 % 64) (0x80 + c % 64)
        rest (omega arith) (omega arith) (omega arith) (omega arith) (λ e. omega arith)
        (λ e. omega arith) (omega arith) (omega arith) (omega arith) (omega arith)
      ∙ ap (λ x. x ∷ decode start rest) (omega arith)

-- A character's bytes are read back as that character.
decode-encode_char :
    (c : ℕ) (rest : Bytes)
    → IsScalar c
    → decode start (encode_char c ++ rest) ≡ c ∷ decode start rest
unfolding encode_char
decode-encode_char c rest (h, k) =
    ground (arith, one_byte c rest, char_two c rest, char_three c rest, char_four c rest)

-- Text that was encoded is read back, in front of any bytes.
pub decode-encode :
    (s : Text) (rest : Bytes)
    → AreScalars s
    → decode start (encode s ++ rest) ≡ s ++ decode start rest
unfolding encode
decode-encode [] rest h = refl
decode-encode (c ∷ s) rest (h, hs) =
    ap (decode start) (append_assoc (encode_char c) (encode s) rest)
    ∙ decode-encode_char c (encode s ++ rest) h
    ∙ ap (λ t. c ∷ t) (decode-encode s rest hs)

-- Text that was encoded is read back as it was.
pub from_utf8_lossy-encode : (s : Text) → AreScalars s → from_utf8_lossy (encode s) ≡ s
unfolding from_utf8_lossy
from_utf8_lossy-encode s h =
    ap (decode start) (sym (append-nil (encode s))) ∙ decode-encode s [] h ∙ append-nil s

pub encode-append : (s t : Text) → encode (s ++ t) ≡ encode s ++ encode t
unfolding encode
encode-append [] t = refl
encode-append (c ∷ s) t =
    ap (λ r. encode_char c ++ r) (encode-append s t)
    ∙ sym (append_assoc (encode_char c) (encode s) (encode t))

pub AreScalars-append : (s t : Text) → AreScalars s → AreScalars t → AreScalars (s ++ t)
AreScalars-append [] t h k = k
AreScalars-append (c ∷ s) t h k = (h.0, AreScalars-append s t h.1 k)
