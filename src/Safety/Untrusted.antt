-- ===== src/Safety/Untrusted.antt =====
-- wrap_untrusted of crates/agent-core/src/safety.rs: its text, size and panics.
use txodds_agent_desk.Prelude.{
  ℕ, suc, ◌∷◌, ◌+◌, ◌≤◌, ◌<◌, ◌≡◌, ◌⊎◌, refl, true, none, some, ◌++◌, arith, is_some, Option-cases,
  inl, inr,
}
use txodds_agent_desk.Text.{
  Text, lit, byte_len, slice_to, IsAscii, byte_len-append, byte_len-slice_to, slice_to-prefix,
  slice_to-IsAscii, slice_to-inside, byte_len-wide,
}
use txodds_agent_desk.Safety.{max_content_bytes, truncate_content, wrap_untrusted}

-- `t` is the content, or its first 32768 bytes if it is longer.
abbrev pub IsTruncated : Text → Text → Type 0
IsTruncated content t =
    ((byte_len content ≤ max_content_bytes) × (t ≡ content))
    ⊎ ((max_content_bytes < byte_len content)
        × ((u : Text) × (content ≡ t ++ u))
        × (byte_len t ≡ max_content_bytes))

truncate_content_lem :
    (content t : Text) → truncate_content content ≡ some t → IsTruncated content t
unfolding truncate_content
truncate_content_lem content t h = elim (Option-cases (slice_to content max_content_bytes)) [
  | inl e ↦ ground arith
  | inr (s, e) ↦
      let (u, p) = slice_to-prefix content max_content_bytes s e in
      ground (arith, byte_len-slice_to content max_content_bytes s e)
]

byte_len-delimiters :
    byte_len (lit "<untrusted_source label=\"")
      + (byte_len (lit "\">\n") + byte_len (lit "\n</untrusted_source>"))
    ≡ 48
unfolding byte_len lit
byte_len-delimiters = refl

-- The delimited form of a text.
abbrev pub delimited : Text → Text → Text
delimited label t =
    lit "<untrusted_source label=\""
    ++ (label ++ (lit "\">\n" ++ (t ++ lit "\n</untrusted_source>")))

byte_len-delimited :
    (label t : Text) → byte_len (delimited label t) ≡ byte_len label + byte_len t + 48
byte_len-delimited label t =
    let opening = lit "<untrusted_source label=\"" in
    let middle = lit "\">\n" in
    let closing = lit "\n</untrusted_source>" in
    omega (
      arith,
      byte_len-append opening (label ++ (middle ++ (t ++ closing))),
      byte_len-append label (middle ++ (t ++ closing)),
      byte_len-append middle (t ++ closing),
      byte_len-append t closing,
      byte_len-delimiters,
    )

-- Whenever untrusted content is wrapped, the result is the content, or exactly its first 32768 bytes
-- if it is longer, between the two delimiters, and has at most 32816 bytes beyond the label's.
pub wrap_untrusted_lem :
    (label content out : Text)
    → wrap_untrusted label content ≡ some out
    → ((t : Text) × (out ≡ delimited label t) × IsTruncated content t)
      × (byte_len out ≤ byte_len label + 32_816)
unfolding wrap_untrusted
wrap_untrusted_lem label content out h = elim (Option-cases (truncate_content content)) [
  | inl e ↦ absurd (ground arith)
  | inr (t, e) ↦
      let kept = truncate_content_lem content t e in
      ((t, ground arith, kept), ground (arith, byte_len-delimited label t))
]

-- Content of single bytes, of any length, is wrapped without a panic.
pub wrap_untrusted-IsAscii :
    (label content : Text) → IsAscii content → is_some (wrap_untrusted label content) ≡ true
unfolding wrap_untrusted truncate_content
wrap_untrusted-IsAscii label content a =
    ground (arith, slice_to-IsAscii content max_content_bytes a)

-- Content in which 32767 bytes of single-byte characters are followed by a longer character makes
-- the call panic, whatever follows.
pub wrap_untrusted-panics :
    (label front : Text) (c : ℕ) (rest : Text)
    → IsAscii front
    → byte_len front ≡ 32_767
    → 0x80 ≤ c
    → wrap_untrusted label (front ++ c ∷ rest) ≡ none
unfolding wrap_untrusted truncate_content
wrap_untrusted-panics label front c rest ascii size wide =
    let inside = slice_to-inside front c rest ascii wide in
    let at_limit : suc (byte_len front) ≡ max_content_bytes = omega arith in
    let none_there = rw at_limit at inside in
    ground (arith, byte_len-append front (c ∷ rest), byte_len-wide c rest wide)
