-- ===== src/Feed/Refresh.antt =====
-- native/src/services/txline/ingest.rs: a round of live_stream_loop whose token has expired.
use txodds_agent_desk.Prelude.{
  ℕ, ◌≡◌, refl, ◌∙◌, Bool, true, List, [], ◌∷◌, ◌++◌, Returns, append_assoc, Option,
}
use txodds_agent_desk.Text.{Text, lit}
use txodds_agent_desk.Float.{Float}
use txodds_agent_desk.Utf8.{Bytes}
use txodds_agent_desk.Decimal.{show_ℕ}
use txodds_agent_desk.Feed.Event.{Outside}
use txodds_agent_desk.Feed.Stream.{
  FeedState, Action, emit_status, send_sse_request, sleep, ended, answered, refreshed,
  refresh_guest_jwt, Network, act, follow, is_success, after_retry, after_refresh, after_answer,
  connect_sse_once, told, ending_detail, backoff_secs, stream_round,
}
use txodds_agent_desk.Feed.Chunks.{concat, AreAllScalars, chunks_of}
use txodds_agent_desk.Feed.Delivery.{AreBlocks, written, newest, deliveries}
use txodds_agent_desk.Feed.Round.{follow-written}

module _ {F : Type 0} ⦃d : Float F⦄ (o : Outside F) (stream : Text) (show_status : ℕ → Text)
    (url jwt jwt' : Text) where
  -- What is done on a 401 answer before the stream is followed.
  refreshing : List (Action F)
  refreshing =
      emit_status (lit "refreshing_jwt") (told o stream (lit "returned 401; refreshing guest JWT"))
      ∷ refresh_guest_jwt
      ∷ []

  connect-refreshed :
      (s : FeedState F) (net : Network) (old new : List (Option Bytes)) (status : ℕ)
      → net.first ≡ answered 401 old
      → net.refresh ≡ refreshed jwt'
      → net.retry ≡ answered status new
      → is_success status ≡ true
      → connect_sse_once o stream show_status url s jwt net
        ≡ follow o stream
            (act
              (act (act s (send_sse_request url jwt s.last_event_id ∷ [])) refreshing)
              (send_sse_request url jwt' s.last_event_id ∷ []))
            new
  unfolding connect_sse_once after_answer after_refresh after_retry act refreshing
  connect-refreshed s net old new status e f g h = rw (e, f, g, h)

  module _ (ts : List Text) (bs : List (Text × Bool)) (scalars : AreAllScalars ts)
      (blocks : AreBlocks bs) (whole : concat ts ≡ written bs) where
    -- On a 401 answer a round refreshes the token once, and asks again with the new token and the same
    -- identifier; the blocks of the second answer are delivered as on an accepted connection.
    pub stream_round-refreshed :
        (attempt : ℕ) (s : FeedState F) (net : Network) (old : List (Option Bytes)) (status : ℕ)
        → net.first ≡ answered 401 old
        → net.refresh ≡ refreshed jwt'
        → net.retry ≡ answered status (chunks_of ts)
        → is_success status ≡ true
        → Returns (stream_round o stream show_status url attempt s jwt net) λ t.
          (t.last_event_id ≡ newest s.last_event_id bs)
          × (t.actions
              ≡ s.actions
                ++ (emit_status (lit "connecting") (
                      lit "connecting to TxLINE "
                      ++ (stream ++ (lit " SSE attempt " ++ show_ℕ attempt)))
                    ∷ send_sse_request url jwt s.last_event_id
                    ∷ emit_status
                        (lit "refreshing_jwt")
                        (told o stream (lit "returned 401; refreshing guest JWT"))
                    ∷ refresh_guest_jwt
                    ∷ send_sse_request url jwt' s.last_event_id
                    ∷ emit_status (lit "connected") (told o stream (lit "connected"))
                    ∷ (deliveries o stream s.blocks bs
                        ++ emit_status (lit "reconnecting") (ending_detail o stream ended)
                          ∷ sleep (backoff_secs attempt)
                          ∷ [])))
    unfolding stream_round act refreshing
    stream_round-refreshed attempt s net old status e f g h =
        let new : Action F =
          emit_status (lit "connecting")
            (lit "connecting to TxLINE " ++ (stream ++ (lit " SSE attempt " ++ show_ℕ attempt))) in
        let t : FeedState F = act s (new ∷ []) in
        rw
          (connect-refreshed t net old (chunks_of ts) status e f g h
            ∙ follow-written o stream show_status url jwt ts bs scalars blocks whole (
                act (act (act t (send_sse_request url jwt t.last_event_id ∷ [])) refreshing)
                  (send_sse_request url jwt' t.last_event_id ∷ [])))
          (refl, simp append_assoc)
