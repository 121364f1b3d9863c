-- ===== src/Feed/Backoff.antt =====
-- native/src/services/txline/ingest.rs: how long live_stream_loop waits between its connections.
use mathlib.Core.Path.{subst}
use txodds_agent_desk.Prelude.{
  ℕ, zero, suc, ◌+◌, ◌≡◌, refl, sym, ap, ◌∙◌, Bool, true, false, Option, none, some, List, [], ◌∷◌,
  ◌++◌, arith, length, if◌then◌else◌, min, Returns, Returns->>=, Returns-map, ◌==◌, append-nil,
  append_assoc,
}
use txodds_agent_desk.Text.{Text, lit}
use txodds_agent_desk.Float.{Float}
use txodds_agent_desk.Utf8.{Bytes, from_utf8_lossy}
use txodds_agent_desk.Decimal.{show_ℕ}
use txodds_agent_desk.Event.{TxLineEvent}
use txodds_agent_desk.Feed.Event.{Outside, parse_sse_block}
use txodds_agent_desk.Feed.Stream.{
  FeedState, Action, emit_status, send_sse_request, refresh_guest_jwt, append_replay_file,
  emit_event, sleep, Ending, Answer, unsent, answered, Refresh, refreshed, not_refreshed, Network,
  act, append_replay, deliver, on_block, receive, read_stream, push_str, fuel_for, follow,
  is_success, after_retry, after_refresh, after_answer, connect_sse_once, told, ending_detail,
  u64_max, next_attempt, backoff_secs, stream_round, live_stream_loop,
}
use txodds_agent_desk.Feed.Chunks.{Drains, stop, step, drain-Drains}

module _ {F : Type 0} where
  -- The waits among the actions, in order.
  unfoldable pub sleeps : List (Action F) → List ℕ
  sleeps [] = []
  sleeps (sleep secs ∷ rest) = secs ∷ sleeps rest
  sleeps (emit_status _ _ ∷ rest) = sleeps rest
  sleeps (send_sse_request _ _ _ ∷ rest) = sleeps rest
  sleeps (refresh_guest_jwt ∷ rest) = sleeps rest
  sleeps (append_replay_file _ _ ∷ rest) = sleeps rest
  sleeps (emit_event _ ∷ rest) = sleeps rest

  sleeps-append : (a b : List (Action F)) → sleeps (a ++ b) ≡ sleeps a ++ sleeps b
  unfolding sleeps
  sleeps-append [] b = refl
  sleeps-append (sleep secs ∷ a) b = ap (λ r. secs ∷ r) (sleeps-append a b)
  sleeps-append (emit_status _ _ ∷ a) b = sleeps-append a b
  sleeps-append (send_sse_request _ _ _ ∷ a) b = sleeps-append a b
  sleeps-append (refresh_guest_jwt ∷ a) b = sleeps-append a b
  sleeps-append (append_replay_file _ _ ∷ a) b = sleeps-append a b
  sleeps-append (emit_event _ ∷ a) b = sleeps-append a b

  sleeps-deliver : (e : Option (TxLineEvent F)) → sleeps (deliver e) ≡ []
  unfolding sleeps append_replay
  sleeps-deliver none = refl
  sleeps-deliver (some event) = ground arith

  -- The state has waited as often as the other.
  abbrev Same : FeedState F → FeedState F → Type 0
  Same s t = sleeps t.actions ≡ sleeps s.actions

  Same-act : (s : FeedState F) (new : List (Action F)) → sleeps new ≡ [] → Same s (act s new)
  unfolding act
  Same-act s new e =
      sleeps-append s.actions new
      ∙ ap (λ r. sleeps s.actions ++ r) e
      ∙ append-nil (sleeps s.actions)

module _ {F : Type 0} ⦃d : Float F⦄ (o : Outside F) (stream : Text) where
  Same-on_block : (s : FeedState F) (block : Text) → Same s (on_block o stream s block)
  unfolding on_block
  Same-on_block s block =
      sleeps-append s.actions (deliver (parse_sse_block o s.blocks stream block))
      ∙ ap (λ r. sleeps s.actions ++ r) (sleeps-deliver (parse_sse_block o s.blocks stream block))
      ∙ append-nil (sleeps s.actions)

  Same-Drains : {s t : FeedState F} → Drains o stream s t → Same s t
  Same-Drains (stop e p) = ap (λ (x : FeedState F). sleeps x.actions) (sym p)
  Same-Drains {s} (step block rest e r) =
      Same-Drains r ∙ Same-on_block (record s { buffer = rest }) block

  -- A step of the connection returns, and does not wait.
  abbrev Quick : FeedState F → Option (Ending × FeedState F) → Type 0
  Quick s r = Returns r λ q. Same s q.1

  receive-Same : (s : FeedState F) (chunk : Bytes) → Returns (receive o stream s chunk) (Same s)
  unfolding receive
  receive-Same s chunk =
      let s' : FeedState F = push_str s (from_utf8_lossy chunk) in
      let (t, p, r) = drain-Drains o stream (fuel_for s') s' (omega arith) in
      subst (λ (m : Option (FeedState F)). Returns m (Same s)) (sym p) (Same-Drains r)

  Quick-after :
      (s t : FeedState F) (r : Option (Ending × FeedState F)) → Same s t → Quick t r → Quick s r
  Quick-after s t none p q = q
  Quick-after s t (some (e, u)) p q = q ∙ p

  read_stream-Quick :
      (chunks : List (Option Bytes)) (s : FeedState F) → Quick s (read_stream o stream s chunks)
  unfolding read_stream
  read_stream-Quick [] s = refl
  read_stream-Quick (none ∷ chunks) s = refl
  read_stream-Quick (some chunk ∷ chunks) s =
      Returns->>= (Same s) (λ q. Same s q.1) (receive o stream s chunk)
        (λ t. read_stream o stream t chunks) (receive-Same s chunk)
        (λ t p. Quick-after s t (read_stream o stream t chunks) p (read_stream-Quick chunks t))

  Quick-if :
      (s : FeedState F) (b : Bool) (x y : Option (Ending × FeedState F))
      → Quick s x
      → Quick s y
      → Quick s (if b then x else y)
  Quick-if s true x y p q = p
  Quick-if s false x y p q = q

  follow-Quick :
      (s : FeedState F) (chunks : List (Option Bytes)) → Quick s (follow o stream s chunks)
  unfolding follow sleeps
  follow-Quick s chunks =
      let t : FeedState F =
        act s (emit_status (lit "connected") (told o stream (lit "connected")) ∷ []) in
      Quick-after s (record t { buffer = [] })
        (read_stream o stream (record t { buffer = [] }) chunks)
        (Same-act s (emit_status (lit "connected") (told o stream (lit "connected")) ∷ []) refl)
        (read_stream-Quick chunks (record t { buffer = [] }))

  module _ (show_status : ℕ → Text) (url : Text) where
    after_retry-Quick :
        (s : FeedState F) (answer : Answer)
        → Quick s (after_retry o stream show_status url s answer)
    unfolding after_retry
    after_retry-Quick s (unsent err) = refl
    after_retry-Quick s (answered status chunks) =
        Quick-if s (is_success status) (follow o stream s chunks) _ (follow-Quick s chunks) refl

    after_refresh-Quick :
        (s : FeedState F) (refresh : Refresh) (retry : Answer)
        → Quick s (after_refresh o stream show_status url s refresh retry)
    unfolding after_refresh sleeps
    after_refresh-Quick s (not_refreshed err) retry = refl
    after_refresh-Quick s (refreshed jwt) retry =
        let t : FeedState F = act s (send_sse_request url jwt s.last_event_id ∷ []) in
        Quick-after s t (after_retry o stream show_status url t retry)
          (Same-act s (send_sse_request url jwt s.last_event_id ∷ []) refl)
          (after_retry-Quick t retry)

    after_answer-Quick :
        (s : FeedState F) (net : Network) (answer : Answer)
        → Quick s (after_answer o stream show_status url s net answer)
    unfolding after_answer sleeps
    after_answer-Quick s net (unsent err) = refl
    after_answer-Quick s net (answered status chunks) =
        let new : List (Action F) =
          emit_status (lit "refreshing_jwt")
            (told o stream (lit "returned 401; refreshing guest JWT"))
          ∷ refresh_guest_jwt
          ∷ [] in
        Quick-if s (status == 401)
          (after_refresh o stream show_status url (act s new) net.refresh net.retry) _
          (Quick-after s (act s new)
            (after_refresh o stream show_status url (act s new) net.refresh net.retry)
            (Same-act s new refl) (after_refresh-Quick (act s new) net.refresh net.retry))
          (Quick-if s (is_success status) (follow o stream s chunks) _ (follow-Quick s chunks) refl)

    connect_sse_once-Quick :
        (s : FeedState F) (jwt : Text) (net : Network)
        → Quick s (connect_sse_once o stream show_status url s jwt net)
    unfolding connect_sse_once sleeps
    connect_sse_once-Quick s jwt net =
        let t : FeedState F = act s (send_sse_request url jwt s.last_event_id ∷ []) in
        Quick-after s t (after_answer o stream show_status url t net net.first)
          (Same-act s (send_sse_request url jwt s.last_event_id ∷ []) refl)
          (after_answer-Quick t net net.first)

    stream_round-sleeps :
        (attempt : ℕ) (s : FeedState F) (jwt : Text) (net : Network)
        → Returns
            (stream_round o stream show_status url attempt s jwt net)
            λ t. sleeps t.actions ≡ sleeps s.actions ++ backoff_secs attempt ∷ []
    unfolding stream_round sleeps
    stream_round-sleeps attempt s jwt net =
        let new : List (Action F) =
          emit_status (lit "connecting")
            (lit "connecting to TxLINE " ++ (stream ++ (lit " SSE attempt " ++ show_ℕ attempt)))
          ∷ [] in
        let r : Option (Ending × FeedState F) =
          connect_sse_once o stream show_status url (act s new) jwt net in
        Returns->>= (λ q. Same s q.1)
          (λ t. sleeps t.actions ≡ sleeps s.actions ++ backoff_secs attempt ∷ []) r _
          (Quick-after s (act s new) r (Same-act s new refl)
            (connect_sse_once-Quick (act s new) jwt net))
          λ q p.
            sleeps-append q.1.actions (
              emit_status (lit "reconnecting") (ending_detail o stream q.0)
              ∷ sleep (backoff_secs attempt)
              ∷ [])
            ∙ ap (λ x. x ++ backoff_secs attempt ∷ []) p

    -- The waits of `n` rounds after `k` attempts: one second more each time, up to thirty.
    abbrev pub backoffs : ℕ → ℕ → List ℕ
    backoffs k zero = []
    backoffs k (suc n) = min (k + 1) 30 ∷ backoffs (k + 1) n

    rounds-sleeps :
        (nets : List Network) (k : ℕ) (s : FeedState F) (jwt : Text)
        → Returns
            (live_stream_loop o stream show_status url (min k u64_max) s jwt nets)
            λ t. sleeps t.actions ≡ sleeps s.actions ++ backoffs k (length nets)
    unfolding live_stream_loop
    rounds-sleeps [] k s jwt = sym (append-nil (sleeps s.actions))
    rounds-sleeps (net ∷ nets) k s jwt =
        let next : next_attempt (min k u64_max) ≡ min (k + 1) u64_max = omega arith in
        let wait : backoff_secs (min (k + 1) u64_max) ≡ min (k + 1) 30 = omega arith in
        rw next (
          Returns->>= (λ t. sleeps t.actions ≡ sleeps s.actions ++ min (k + 1) 30 ∷ []) _
            (stream_round o stream show_status url (min (k + 1) u64_max) s jwt net) _
            (Returns-map (stream_round o stream show_status url (min (k + 1) u64_max) s jwt net)
              (stream_round-sleeps (min (k + 1) u64_max) s jwt net)
              (λ t p. p ∙ ap (λ w. sleeps s.actions ++ w ∷ []) wait))
            λ t p.
              Returns-map
                (live_stream_loop o stream show_status url (min (k + 1) u64_max) t jwt nets)
                (rounds-sleeps nets (k + 1) t jwt)
                (λ u q.
                  q
                  ∙ ap (λ x. x ++ backoffs (k + 1) (length nets)) p
                  ∙ append_assoc (sleeps s.actions) (min (k + 1) 30 ∷ [])
                      (backoffs (k + 1) (length nets))))

    -- Whatever the server and the network do, the loop goes on without a panic, and waits one second
    -- longer after each connection, up to thirty seconds.
    pub live_stream_loop-sleeps :
        (nets : List Network) (s : FeedState F) (jwt : Text)
        → Returns
            (live_stream_loop o stream show_status url 0 s jwt nets)
            λ t. sleeps t.actions ≡ sleeps s.actions ++ backoffs 0 (length nets)
    live_stream_loop-sleeps nets s jwt = rounds-sleeps nets 0 s jwt
