-- ===== src/Feed/Round.antt =====
-- native/src/services/txline/ingest.rs: one round of live_stream_loop with a server that writes whole
-- blocks, and what becomes of a character that two chunks share.
use txodds_agent_desk.Prelude.{
  ℕ, ◌≡◌, refl, ap, ◌∙◌, Bool, true, false, some, List, [], ◌∷◌, ◌++◌, arith, ◌==◌, Returns,
  append_assoc,
}
use txodds_agent_desk.Text.{Text, lit}
use txodds_agent_desk.Float.{Float}
use txodds_agent_desk.Decimal.{show_ℕ}
use txodds_agent_desk.Feed.Event.{Outside}
use txodds_agent_desk.Feed.Stream.{
  FeedState, Action, emit_status, send_sse_request, sleep, ended, answered, Network, act, follow,
  is_success, after_answer, connect_sse_once, told, ending_detail, backoff_secs, stream_round,
}
use txodds_agent_desk.Feed.Chunks.{concat, AreAllScalars, chunks_of}
use txodds_agent_desk.Feed.Delivery.{
  AreBlocks, written, newest, deliveries, delivered, read_stream-written,
}

module _ {F : Type 0} ⦃d : Float F⦄ (o : Outside F) (stream : Text) (show_status : ℕ → Text)
    (url jwt : Text) (ts : List Text) (bs : List (Text × Bool)) (scalars : AreAllScalars ts)
    (blocks : AreBlocks bs) (whole : concat ts ≡ written bs) where
  pub follow-written :
      (s : FeedState F)
      → follow o stream s (chunks_of ts)
        ≡ some (
          ended,
          delivered o stream
              (act s (emit_status (lit "connected") (told o stream (lit "connected")) ∷ []))
              bs,
        )
  unfolding follow act
  follow-written s =
      read_stream-written o stream ts bs
        (record (act s (emit_status (lit "connected") (told o stream (lit "connected")) ∷ [])) {
          buffer = [];
        })
        scalars blocks refl whole

  accepted : (status : ℕ) → is_success status ≡ true → (status == 401) ≡ false
  accepted status h = ground arith

  first-written :
      (s : FeedState F) (net : Network) (status : ℕ)
      → is_success status ≡ true
      → after_answer o stream show_status url s net (answered status (chunks_of ts))
        ≡ follow o stream s (chunks_of ts)
  unfolding after_answer
  first-written s net status h = rw (accepted status h, h)

  connect-written :
      (s : FeedState F) (net : Network) (status : ℕ)
      → net.first ≡ answered status (chunks_of ts)
      → is_success status ≡ true
      → connect_sse_once o stream show_status url s jwt net
        ≡ some (
          ended,
          delivered o stream
              (act
                (act s (send_sse_request url jwt s.last_event_id ∷ []))
                (emit_status (lit "connected") (told o stream (lit "connected")) ∷ []))
              bs,
        )
  unfolding connect_sse_once
  connect-written s net status e h =
      ap
        (after_answer o stream show_status url
          (act s (send_sse_request url jwt s.last_event_id ∷ [])) net)
        e
      ∙ first-written (act s (send_sse_request url jwt s.last_event_id ∷ [])) net status h
      ∙ follow-written (act s (send_sse_request url jwt s.last_event_id ∷ []))

  -- On an accepted connection whose body is whole blocks in UTF-8, however it is divided into chunks
  -- between characters, a round asks to resume after the last identifier, delivers each block's event
  -- once and in order, keeps the newest identifier, and waits.
  pub stream_round-written :
      (attempt : ℕ) (s : FeedState F) (net : Network) (status : ℕ)
      → net.first ≡ answered status (chunks_of ts)
      → is_success status ≡ true
      → Returns (stream_round o stream show_status url attempt s jwt net) λ t.
        (t.last_event_id ≡ newest s.last_event_id bs)
        × (t.actions
            ≡ s.actions
              ++ (emit_status (lit "connecting") (
                    lit "connecting to TxLINE "
                    ++ (stream ++ (lit " SSE attempt " ++ show_ℕ attempt)))
                  ∷ send_sse_request url jwt s.last_event_id
                  ∷ emit_status (lit "connected") (told o stream (lit "connected"))
                  ∷ (deliveries o stream s.blocks bs
                      ++ emit_status (lit "reconnecting") (ending_detail o stream ended)
                        ∷ sleep (backoff_secs attempt)
                        ∷ [])))
  unfolding stream_round act
  stream_round-written attempt s net status e h =
      let new : Action F =
        emit_status (lit "connecting")
          (lit "connecting to TxLINE " ++ (stream ++ (lit " SSE attempt " ++ show_ℕ attempt))) in
      rw (connect-written (act s (new ∷ [])) net status e h) (refl, simp append_assoc)
