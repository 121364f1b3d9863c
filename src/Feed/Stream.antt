-- ===== src/Feed/Stream.antt =====
-- native/src/services/txline/ingest.rs: connect_sse_once and live_stream_loop. What the server and the
-- network answer is an argument; what the code sends, emits and writes is the list of its actions. The
-- best-effort writes of the replay files are recorded as if they worked.
use txodds_agent_desk.Prelude.{
  ℕ, zero, suc, ◌+◌, ◌-◌, ◌^◌, Bool, ◌&&◌, Option, none, some, List, [], ◌∷◌, ◌++◌, if◌then◌else◌,
  ltb, leb, ◌==◌, ◌>>=◌, length, is_empty, min, max,
}
use txodds_agent_desk.Text.{Text, lit}
use txodds_agent_desk.Strings.{trim}
use txodds_agent_desk.Utf8.{Bytes, from_utf8_lossy}
use txodds_agent_desk.Decimal.{show_ℕ}
use txodds_agent_desk.Float.{Float}
use txodds_agent_desk.Event.{TxLineEvent}
use txodds_agent_desk.Feed.{take_block, sse_block_id}
use txodds_agent_desk.Feed.Event.{Outside, parse_sse_block}

pub data Action (F : Type 0) : Type 0 where
  -- the state and the detail; the source is the stream
  emit_status : Text → Text → Action F
  -- the address, the guest token and the Last-Event-ID header
  send_sse_request : Text → Text → Option Text → Action F
  refresh_guest_jwt : Action F
  append_replay_file : Text → TxLineEvent F → Action F
  emit_event : TxLineEvent F → Action F
  -- seconds
  sleep : ℕ → Action F

-- The answer to a request: an error, or a status and the chunks of the body, `none` being a failure.
pub data Answer : Type 0 where
  unsent : Text → Answer
  answered : ℕ → List (Option Bytes) → Answer

pub data Refresh : Type 0 where
  refreshed : Text → Refresh
  not_refreshed : Text → Refresh

-- What one connection meets.
pub record Network : Type 0 where
  pub first : Answer
  pub refresh : Refresh
  pub retry : Answer

pub record FeedState (F : Type 0) : Type 0 where
  pub buffer : Text
  pub last_event_id : Option Text
  -- the number of blocks seen
  pub blocks : ℕ
  pub actions : List (Action F)

pub data Ending : Type 0 where
  ended : Ending
  failed : Text → Ending

abbrev pub update_id : Option Text → Option Text → Option Text
update_id none last = last
update_id (some id) last = some id

abbrev pub is_success : ℕ → Bool
is_success status = leb 200 status && leb status 299

abbrev pub u64_max : ℕ
u64_max = 2 ^ 64 - 1

-- `attempt.saturating_add(1)`
abbrev pub next_attempt : ℕ → ℕ
next_attempt attempt = min (attempt + 1) u64_max

-- `attempt.clamp(1, 30)`
abbrev pub backoff_secs : ℕ → ℕ
backoff_secs attempt = min (max attempt 1) 30

module _ {F : Type 0} where
  unfoldable pub act : FeedState F → List (Action F) → FeedState F
  act s new = record s { actions = s.actions ++ new }

  abbrev pub fuel_for : FeedState F → ℕ
  fuel_for s = suc (length s.buffer)

  abbrev pub push_str : FeedState F → Text → FeedState F
  push_str s text = record s { buffer = s.buffer ++ text }

  unfoldable pub append_replay : TxLineEvent F → List (Action F)
  unfolding show_ℕ
  append_replay event =
      append_replay_file (lit "default.jsonl") event
      ∷ (if ltb 0 event.fixture_id
          then append_replay_file (show_ℕ event.fixture_id ++ lit ".jsonl") event ∷ []
          else [])

  abbrev pub deliver : Option (TxLineEvent F) → List (Action F)
  deliver none = []
  deliver (some event) = append_replay event ++ emit_event event ∷ []

module _ {F : Type 0} ⦃d : Float F⦄ (o : Outside F) (stream : Text) where
  -- The body of the inner loop, on a block.
  unfoldable pub on_block : FeedState F → Text → FeedState F
  unfolding append_replay sse_block_id parse_sse_block
  on_block s block = record s {
    last_event_id = update_id (sse_block_id block) s.last_event_id;
    blocks = s.blocks + 1;
    actions = s.actions ++ deliver (parse_sse_block o s.blocks stream block);
  }

  -- The inner loop; `none` is a panic or too little fuel.
  unfoldable pub drain : ℕ → FeedState F → Option (FeedState F)
  unfolding take_block on_block
  drain zero s = none
  drain (suc fuel) s = elim (take_block s.buffer) [
    | none ↦ none
    | some none ↦ some s
    | some (some (block, rest)) ↦ drain fuel (on_block (record s { buffer = rest }) block)
  ]

  -- One chunk of the body.
  unfoldable pub receive : FeedState F → Bytes → Option (FeedState F)
  unfolding drain from_utf8_lossy
  receive s chunk = let s' = push_str s (from_utf8_lossy chunk) in drain (fuel_for s') s'

  unfoldable pub read_stream : FeedState F → List (Option Bytes) → Option (Ending × FeedState F)
  unfolding receive
  read_stream s [] = some (ended, s)
  read_stream s (none ∷ chunks) = some (failed (lit "TxLINE stream chunk failed"), s)
  read_stream s (some chunk ∷ chunks) = receive s chunk >>= λ s'. read_stream s' chunks

  -- `TxLINE {stream} SSE ...`
  abbrev pub told : Text → Text
  told what = lit "TxLINE " ++ (stream ++ (lit " SSE " ++ what))

  unfoldable pub stream_url : Text → Option Text → Text
  unfolding trim
  stream_url origin fixture_id =
      let url = origin ++ (lit "/api/" ++ (stream ++ lit "/stream")) in
      elim fixture_id [
        | none ↦ url
        | some fixture ↦
            if is_empty (trim fixture) then url else url ++ (lit "?fixtureId=" ++ fixture)
      ]

  -- From an accepted answer on.
  unfoldable pub follow : FeedState F → List (Option Bytes) → Option (Ending × FeedState F)
  unfolding read_stream act
  follow s chunks =
      read_stream
        (record (act s (emit_status (lit "connected") (told (lit "connected")) ∷ [])) {
          buffer = [];
        })
        chunks

  abbrev pub ending_detail : Ending → Text
  ending_detail ended = lit "TxLINE " ++ (stream ++ lit " stream ended; reconnecting")
  ending_detail (failed err) = err

  -- `{status}` of an HTTP status is a parameter.
  module _ (show_status : ℕ → Text) (url : Text) where
    unfoldable pub after_retry : FeedState F → Answer → Option (Ending × FeedState F)
    unfolding follow
    after_retry s (unsent err) = some (failed (told (lit "retry failed: " ++ err)), s)
    after_retry s (answered status chunks) =
        if is_success status
        then follow s chunks
        else some
            (failed (told (lit "HTTP " ++ (show_status status ++ lit " after JWT refresh"))), s)

    unfoldable pub after_refresh : FeedState F → Refresh → Answer → Option (Ending × FeedState F)
    unfolding act after_retry
    after_refresh s (not_refreshed err) retry =
        some (failed (lit "TxLINE JWT refresh failed: " ++ err), s)
    after_refresh s (refreshed jwt) retry =
        after_retry (act s (send_sse_request url jwt s.last_event_id ∷ [])) retry

    unfoldable pub after_answer : FeedState F → Network → Answer → Option (Ending × FeedState F)
    unfolding act after_refresh follow
    after_answer s net (unsent err) = some (failed (told (lit "connection failed: " ++ err)), s)
    after_answer s net (answered status chunks) =
        if status == 401
        then after_refresh
            (act s (
              emit_status (lit "refreshing_jwt") (told (lit "returned 401; refreshing guest JWT"))
              ∷ refresh_guest_jwt
              ∷ []))
            net.refresh net.retry
        else if is_success status
        then follow s chunks
        else some (failed (told (lit "HTTP " ++ show_status status)), s)

    unfoldable pub connect_sse_once : FeedState F → Text → Network → Option (Ending × FeedState F)
    unfolding act after_answer
    connect_sse_once s jwt net =
        after_answer (act s (send_sse_request url jwt s.last_event_id ∷ [])) net net.first

    -- One round of the loop, its attempt counted already.
    unfoldable pub stream_round : ℕ → FeedState F → Text → Network → Option (FeedState F)
    unfolding act connect_sse_once show_ℕ
    stream_round attempt s jwt net = do
      (ending, s') ←
          connect_sse_once
            (act s (
              emit_status (lit "connecting")
                (lit "connecting to TxLINE " ++ (stream ++ (lit " SSE attempt " ++ show_ℕ attempt)))
              ∷ []))
            jwt net
      some (
          act s' (
            emit_status (lit "reconnecting") (ending_detail ending)
            ∷ sleep (backoff_secs attempt)
            ∷ []))

    -- The loop, for as long as the network's answers are given.
    unfoldable pub live_stream_loop : ℕ → FeedState F → Text → List Network → Option (FeedState F)
    unfolding stream_round
    live_stream_loop attempt s jwt [] = some s
    live_stream_loop attempt s jwt (net ∷ nets) =
        stream_round (next_attempt attempt) s jwt net >>= λ s'.
        live_stream_loop (next_attempt attempt) s' jwt nets
