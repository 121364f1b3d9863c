-- ===== src/Feed/Torn.antt =====
-- native/src/services/txline/ingest.rs: what becomes of a character whose bytes two chunks share.
use txodds_agent_desk.Prelude.{
  ℕ, ◌+◌, ◌<◌, ◌≤◌, ◌≡◌, refl, sym, ap, ◌∙◌, Option, none, some, [], ◌∷◌, ◌++◌, arith, ◌>>=◌, ◌/◌,
  ◌%◌,
}
use txodds_agent_desk.Text.{Text}
use txodds_agent_desk.Float.{Float}
use txodds_agent_desk.Utf8.{
  Bytes, from_utf8_lossy, decode, start, encode, encode_char, replacement, AreScalars,
}
use txodds_agent_desk.Utf8.RoundTrip.{decode-encode, from_utf8_lossy-encode, AreScalars-append}
use txodds_agent_desk.Feed.Event.{Outside}
use txodds_agent_desk.Feed.Stream.{FeedState, ended, receive, read_stream}
use txodds_agent_desk.Feed.Chunks.{chunks_of}

replacement-AreScalars : AreScalars (replacement ∷ [])
replacement-AreScalars = (omega arith, ground arith)

-- The first of two bytes, at the end of a chunk.
lead :
    (a : Text) (c : ℕ)
    → AreScalars a
    → 0x80 ≤ c
    → c < 0x800
    → from_utf8_lossy (encode a ++ (0xc0 + c / 64) ∷ []) ≡ a ++ replacement ∷ []
unfolding from_utf8_lossy decode
lead a c s h k = decode-encode a ((0xc0 + c / 64) ∷ []) s ∙ ap (λ t. a ++ t) (ground arith)

follower :
    (b : Text) (c : ℕ)
    → AreScalars b
    → from_utf8_lossy ((0x80 + c % 64) ∷ encode b) ≡ replacement ∷ b
unfolding from_utf8_lossy decode
follower b c s = broken ∙ ap (λ t. replacement ∷ t) (from_utf8_lossy-encode b s)
  where
    broken : decode start ((0x80 + c % 64) ∷ encode b) ≡ replacement ∷ decode start (encode b)
    broken = ground arith

module _ {F : Type 0} ⦃d : Float F⦄ (o : Outside F) (stream : Text) where
  receive-same :
      (s : FeedState F) (x y : Bytes)
      → from_utf8_lossy x ≡ from_utf8_lossy y
      → receive o stream s x ≡ receive o stream s y
  unfolding receive
  receive-same s x y e = rw e

  second-same :
      (m : Option (FeedState F)) (x y : Bytes)
      → from_utf8_lossy x ≡ from_utf8_lossy y
      → (m >>= λ s. read_stream o stream s (some x ∷ []))
        ≡ (m >>= λ s. read_stream o stream s (some y ∷ []))
  unfolding read_stream
  second-same none x y e = refl
  second-same (some s) x y e = ap (λ m. m >>= λ t. some (ended, t)) (receive-same s x y e)

  two-same :
      (s : FeedState F) (x y x' y' : Bytes)
      → from_utf8_lossy x ≡ from_utf8_lossy x'
      → from_utf8_lossy y ≡ from_utf8_lossy y'
      → read_stream o stream s (some x ∷ some y ∷ [])
        ≡ read_stream o stream s (some x' ∷ some y' ∷ [])
  unfolding read_stream
  two-same s x y x' y' e f =
      ap (λ m. m >>= λ t. read_stream o stream t (some y ∷ [])) (receive-same s x x' e)
      ∙ second-same (receive o stream s x') y y' f

  -- A two-byte character that is divided between two chunks is read as two replacement characters.
  pub read_stream-torn :
      (a b : Text) (c : ℕ) (s : FeedState F)
      → AreScalars a
      → AreScalars b
      → 0x80 ≤ c
      → c < 0x800
      → (encode_char c ≡ (0xc0 + c / 64) ∷ (0x80 + c % 64) ∷ [])
        × (read_stream o stream s
              (some (encode a ++ (0xc0 + c / 64) ∷ []) ∷ some ((0x80 + c % 64) ∷ encode b) ∷ [])
            ≡ read_stream o stream s (chunks_of ((a ++ replacement ∷ []) ∷ (replacement ∷ b) ∷ [])))
  unfolding encode_char
  read_stream-torn a b c s ha hb h k = (
    ground arith,
    two-same s _ _ _ _
        (lead a c ha h k
          ∙ sym (
              from_utf8_lossy-encode (a ++ replacement ∷ [])
                (AreScalars-append a (replacement ∷ []) ha replacement-AreScalars)))
        (follower b c hb
          ∙ sym (from_utf8_lossy-encode (replacement ∷ b) (replacement-AreScalars.0, hb))),
  )
