-- ===== src/Feed/Division.antt =====
-- native/src/services/txline/ingest.rs: what reading the body of a connection comes to, whatever its
-- chunks.
use txodds_agent_desk.Prelude.{
  ◌≡◌, refl, sym, ap, ◌∙◌, Option, none, some, List, [], ◌∷◌, arith, all, is_some, if◌then◌else◌,
  ◌>>=◌,
}
use txodds_agent_desk.Text.{Text, lit}
use txodds_agent_desk.Utf8.{Bytes, from_utf8_lossy}
use txodds_agent_desk.Float.{Float}
use txodds_agent_desk.Feed.{find_sse_separator}
use txodds_agent_desk.Feed.Blocks.{cut, cut-none, find_sse_separator-none}
use txodds_agent_desk.Feed.Event.{Outside}
use txodds_agent_desk.Feed.Stream.{
  FeedState, Ending, ended, failed, receive, read_stream, push_str, fuel_for,
}
use txodds_agent_desk.Feed.Chunks.{
  concat, AreAllScalars, chunks_of, AreScalars-concat, drain-Drains, Drains-end, Drains-receive,
  read_stream-Drains,
}

module _ {F : Type 0} ⦃d : Float F⦄ (o : Outside F) (stream : Text) where
  -- A state of the reading is one with no complete block left.
  read_whole :
      (ts : List Text) (s : FeedState F)
      → AreAllScalars ts
      → cut s.buffer ≡ none
      → read_stream o stream s (chunks_of ts) ≡ read_stream o stream s (chunks_of (concat ts ∷ []))
  unfolding read_stream
  read_whole ts s h e =
      let (u, p, r) = read_stream-Drains o stream ts s h e in
      p
      ∙ sym (
          ap (λ m. m >>= λ s'. some (ended, s'))
            (Drains-receive o stream s u (concat ts) (AreScalars-concat ts h) r))

  -- However a body of whole characters is divided into chunks, the reading comes to the same.
  pub read_stream-concat :
      (ts us : List Text) (s : FeedState F)
      → find_sse_separator s.buffer ≡ none
      → AreAllScalars ts
      → AreAllScalars us
      → concat ts ≡ concat us
      → read_stream o stream s (chunks_of ts) ≡ read_stream o stream s (chunks_of us)
  read_stream-concat ts us s e ht hu p =
      read_whole ts s ht (cut-none s.buffer e)
      ∙ ap (λ t. read_stream o stream s (chunks_of (t ∷ []))) p
      ∙ sym (read_whole us s hu (cut-none s.buffer e))

  receive-none :
      (s : FeedState F) (chunk : Bytes)
      → (t : FeedState F) × (receive o stream s chunk ≡ some t) × (cut t.buffer ≡ none)
  unfolding receive
  receive-none s chunk =
      let s' : FeedState F = push_str s (from_utf8_lossy chunk) in
      let (t, p, r) = drain-Drains o stream (fuel_for s') s' (omega arith) in
      (t, p, Drains-end o stream r)

  abbrev pub ending_of : List (Option Bytes) → Ending
  ending_of chunks = if all is_some chunks then ended else failed (lit "TxLINE stream chunk failed")

  -- Whatever bytes arrive, in whatever chunks, the reading ends without a panic and leaves no complete
  -- block in the buffer, and it reports a failure exactly if a chunk failed.
  pub read_stream-Returns :
      (chunks : List (Option Bytes)) (s : FeedState F)
      → find_sse_separator s.buffer ≡ none
      → (u : FeedState F) × (read_stream o stream s chunks ≡ some (ending_of chunks, u))
        × (find_sse_separator u.buffer ≡ none)
  unfolding read_stream
  read_stream-Returns [] s e = (s, refl, e)
  read_stream-Returns (none ∷ chunks) s e = (s, refl, e)
  read_stream-Returns (some chunk ∷ chunks) s e =
      let (t, p, k) = receive-none s chunk in
      let (u, p', k') = read_stream-Returns chunks t (find_sse_separator-none t.buffer k) in
      (u, ap (λ m. m >>= λ s'. read_stream o stream s' chunks) p ∙ p', k')
