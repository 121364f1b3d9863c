-- ===== src/Tests/Feed.antt =====
-- Runs of `Feed`: two events, the first one's text divided inside a line.
use txodds_agent_desk.Prelude.{
  ◌≡◌, refl, Bool, true, false, none, some, List, [], ◌∷◌, ◌++◌, ◌+◌, ◌/◌, ◌%◌, arith, Returns,
}
use txodds_agent_desk.Text.{Text, lit, text_eq}
use txodds_agent_desk.Strings.{join, find, lines, trim, trim_start}
use txodds_agent_desk.Strings.Lines.{line_end}
use txodds_agent_desk.Wire.{is_whitespace, strip_prefix}
use txodds_agent_desk.Utf8.{encode, encode_char, replacement}
use txodds_agent_desk.Float.Micro.{Micro, micro_float}
use txodds_agent_desk.Decimal.{show_ℕ}
use txodds_agent_desk.Json.{Value, string, object, end, field}
use txodds_agent_desk.Event.{goal}
use txodds_agent_desk.Feed.{find_sse_separator, sse_block_id}
use txodds_agent_desk.Feed.Event.{Outside, fixture_of}
use txodds_agent_desk.Feed.Parse.{sse_fields, event_kind}
use txodds_agent_desk.Feed.Stream.{
  FeedState, Network, answered, refreshed, unsent, not_refreshed, ended, read_stream, stream_round,
  live_stream_loop, emit_status, send_sse_request, refresh_guest_jwt, sleep, told, ending_detail,
}
use txodds_agent_desk.Feed.Chunks.{AreAllScalars, chunks_of}
use txodds_agent_desk.Feed.Division.{read_stream-concat, read_stream-Returns, ending_of}
use txodds_agent_desk.Feed.Delivery.{AreBlocks, written, newest, deliveries}
use txodds_agent_desk.Feed.Round.{stream_round-written}
use txodds_agent_desk.Feed.Refresh.{stream_round-refreshed}
use txodds_agent_desk.Feed.Backoff.{sleeps, live_stream_loop-sleeps}
use txodds_agent_desk.Feed.Torn.{read_stream-torn}
use txodds_agent_desk.Feed.Render.{event_lines, IsField, sse_fields-join}

-- `{"fixtureId": "7", "Action": "Goal"}`
abbrev goal_json : Value
goal_json =
    object
      (field (lit "fixtureId") (string (lit "7")) (field (lit "Action") (string (lit "Goal")) end))

abbrev desk : Outside Micro
desk = record {
  from_json = λ t. some goal_json;
  parse_f64 = λ t. none;
  new_uuid = λ n. [];
  now_iso = λ n i. [];
}

abbrev scores : Text
scores = b's' ∷ []

abbrev fresh : FeedState Micro
fresh = record { buffer = []; last_event_id = none; blocks = 0; actions = [] }

-- `id:1` and `data:x`, then `id:2` and `data:y`.
abbrev first_block : Text
first_block = b'i' ∷ b'd' ∷ b':' ∷ b'1' ∷ 10 ∷ b'd' ∷ b'a' ∷ b't' ∷ b'a' ∷ b':' ∷ b'x' ∷ []

abbrev second_block : Text
second_block = b'i' ∷ b'd' ∷ b':' ∷ b'2' ∷ 13 ∷ 10 ∷ b'd' ∷ b'a' ∷ b't' ∷ b'a' ∷ b':' ∷ b'y' ∷ []

abbrev two_blocks : List (Text × Bool)
two_blocks = (first_block, false) ∷ (second_block, true) ∷ []

abbrev parts : List Text
parts =
    (b'i' ∷ b'd' ∷ b':' ∷ b'1' ∷ 10 ∷ [])
    ∷ (b'd' ∷ b'a' ∷ b't' ∷ b'a' ∷ b':' ∷ b'x' ∷ 10 ∷ [])
    ∷ (10 ∷ (second_block ++ 13 ∷ 10 ∷ 13 ∷ 10 ∷ []))
    ∷ []

parts-AreAllScalars : AreAllScalars parts
parts-AreAllScalars = ground arith

two_blocks-AreBlocks : AreBlocks two_blocks
two_blocks-AreBlocks = ground arith

abbrev online : Network
online = record {
  first = answered 200 (chunks_of parts);
  refresh = not_refreshed [];
  retry = unsent [];
}

abbrev expired : Network
expired = record {
  first = answered 401 [];
  refresh = refreshed (b'n' ∷ []);
  retry = answered 200 (chunks_of parts);
}

goal_event : event_kind scores [] goal_json ≡ goal
unfolding event_kind lit text_eq find strip_prefix
goal_event = refl

goal_fixture : fixture_of goal_json ≡ 7
unfolding fixture_of lit text_eq
goal_fixture = refl

newest_id : newest none two_blocks ≡ some (b'2' ∷ [])
unfolding sse_block_id lit strip_prefix trim_start trim lines
newest_id = refl

stream_round-written_example : Returns (stream_round desk scores show_ℕ [] 1 fresh [] online) λ t.
    (t.last_event_id ≡ newest none two_blocks)
    × (t.actions
        ≡ emit_status
            (lit "connecting")
            (lit "connecting to TxLINE " ++ (scores ++ (lit " SSE attempt " ++ show_ℕ 1)))
          ∷ send_sse_request [] [] none
          ∷ emit_status (lit "connected") (told desk scores (lit "connected"))
          ∷ (deliveries desk scores 0 two_blocks
              ++ emit_status (lit "reconnecting") (ending_detail desk scores ended) ∷ sleep 1 ∷ []))
stream_round-written_example =
    stream_round-written desk scores show_ℕ [] [] parts two_blocks parts-AreAllScalars
      two_blocks-AreBlocks refl 1 fresh online 200 refl refl

nothing_left : find_sse_separator [] ≡ none
unfolding find_sse_separator find strip_prefix
nothing_left = refl

read_stream-concat_example :
    read_stream desk scores fresh (chunks_of parts)
    ≡ read_stream desk scores fresh (chunks_of (written two_blocks ∷ []))
read_stream-concat_example =
    read_stream-concat desk scores parts (written two_blocks ∷ []) fresh nothing_left
      parts-AreAllScalars (ground arith) refl

read_stream-Returns_example :
    (u : FeedState Micro) × (read_stream desk scores fresh (some (0xff ∷ []) ∷ none ∷ [])
      ≡ some (ending_of desk scores (some (0xff ∷ []) ∷ none ∷ []), u))
    × (find_sse_separator u.buffer ≡ none)
read_stream-Returns_example =
    read_stream-Returns desk scores (some (0xff ∷ []) ∷ none ∷ []) fresh nothing_left

live_stream_loop-sleeps_example :
    Returns
      (live_stream_loop desk scores show_ℕ [] 0 fresh [] (online ∷ expired ∷ []))
      λ t. sleeps t.actions ≡ 1 ∷ 2 ∷ []
unfolding sleeps
live_stream_loop-sleeps_example =
    live_stream_loop-sleeps desk scores show_ℕ [] (online ∷ expired ∷ []) fresh []

stream_round-refreshed_example :
    Returns (stream_round desk scores show_ℕ [] 1 fresh [] expired) λ t.
      (t.last_event_id ≡ newest none two_blocks)
      × (t.actions
          ≡ emit_status
              (lit "connecting")
              (lit "connecting to TxLINE " ++ (scores ++ (lit " SSE attempt " ++ show_ℕ 1)))
            ∷ send_sse_request [] [] none
            ∷ emit_status
                (lit "refreshing_jwt")
                (told desk scores (lit "returned 401; refreshing guest JWT"))
            ∷ refresh_guest_jwt
            ∷ send_sse_request [] (b'n' ∷ []) none
            ∷ emit_status (lit "connected") (told desk scores (lit "connected"))
            ∷ (deliveries desk scores 0 two_blocks
                ++ emit_status (lit "reconnecting") (ending_detail desk scores ended)
                  ∷ sleep 1
                  ∷ []))
stream_round-refreshed_example =
    stream_round-refreshed desk scores show_ℕ [] [] (b'n' ∷ []) parts two_blocks parts-AreAllScalars
      two_blocks-AreBlocks refl 1 fresh expired [] 200 refl refl refl refl

-- An accented letter.
read_stream-torn_example :
    (encode_char 0xe9 ≡ (0xc0 + 0xe9 / 64) ∷ (0x80 + 0xe9 % 64) ∷ [])
    × (read_stream desk scores fresh (
          some (encode (b'a' ∷ []) ++ (0xc0 + 0xe9 / 64) ∷ [])
          ∷ some ((0x80 + 0xe9 % 64) ∷ encode (b'b' ∷ []))
          ∷ [])
        ≡ read_stream desk scores fresh
            (chunks_of ((b'a' ∷ replacement ∷ []) ∷ (replacement ∷ b'b' ∷ []) ∷ [])))
read_stream-torn_example =
    read_stream-torn desk scores (b'a' ∷ []) (b'b' ∷ []) 0xe9 fresh (ground arith) (ground arith)
      (omega arith) (omega arith)

one-IsField : IsField (b'1' ∷ [])
unfolding is_whitespace
one-IsField = ground arith

sse_fields-join_example :
    let block = join (line_end true) (event_lines (b'1' ∷ []) (b'1' ∷ []) ((b'1' ∷ []) ∷ [])) in
    (sse_fields block ≡ record {
      data_lines = (b'1' ∷ []) ∷ [];
      sse_event = some (b'1' ∷ []);
      sse_id = some (b'1' ∷ []);
    })
    × (sse_block_id block ≡ some (b'1' ∷ []))
sse_fields-join_example =
    sse_fields-join (b'1' ∷ []) (b'1' ∷ []) ((b'1' ∷ []) ∷ []) true one-IsField one-IsField
      (one-IsField, tt)
