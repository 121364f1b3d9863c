-- ===== src/Feed/Event.antt =====
-- native/src/services/txline/ingest.rs: parse_odds and parse_sse_block. The JSON parser, the reading of an
-- `f64`, fresh identifiers and times are parameters.
use txodds_agent_desk.Prelude.{
  ℕ, ◌+◌, Bool, true, false, Option, none, some, List, [], ◌∷◌, ◌++◌, if◌then◌else◌, ◌>>=◌, or_else,
  unwrap_or,
}
use txodds_agent_desk.Text.{Text, lit, text_eq}
use txodds_agent_desk.Float.{Float, one}
use txodds_agent_desk.Json.{Value}
use txodds_agent_desk.Event.{TxLineEvent, OddsQuote}
use txodds_agent_desk.Feed.Fields.{extract_string, extract_u64, extract_f64, extract_bool}
use txodds_agent_desk.Feed.Parse.{
  SseFields, sse_fields, payload_of, event_kind, parse_score, stat_keys, quote_values,
  non_empty_list,
}

-- What the code takes from outside. Fresh values are functions of the number
-- of the block, and a time also of its number among those read for the block.
pub record Outside (F : Type 0) : Type 0 where
  pub from_json : Text → Option Value
  pub parse_f64 : Text → Option F
  pub new_uuid : ℕ → Text
  pub now_iso : ℕ → ℕ → Text

abbrev flatten {ℓ} : {A : Type ℓ} → Bool → Option A → Option A
flatten true o = o
flatten false o = none

unfoldable pub fixture_of : Value → ℕ
unfolding extract_u64
fixture_of raw =
    unwrap_or
      (extract_u64 raw (
        "FixtureId" ∷ "fixtureId" ∷ "fixture_id" ∷ "MatchId" ∷ "fixture" ∷ "matchId" ∷ "gameId"
        ∷ "Id" ∷ "id" ∷ []))
      0

unfoldable pub title_of : Text → Value → Option Text → Text
unfolding extract_string
title_of stream raw sse_event =
    unwrap_or
      (or_else
        (extract_string raw (
          "Title" ∷ "Headline" ∷ "Event" ∷ "Type" ∷ "Action" ∷ "title" ∷ "headline" ∷ "event"
          ∷ "type" ∷ "action" ∷ []))
        sse_event)
      (stream ++ lit " update")

unfoldable pub body_of : Value → Text
unfolding extract_string
body_of raw =
    unwrap_or
      (extract_string raw (
        "Body" ∷ "Message" ∷ "Description" ∷ "Summary" ∷ "body" ∷ "message" ∷ "description"
        ∷ "summary" ∷ []))
      (lit "Live TxLINE SSE event received by Rust")

module _ {F : Type 0} ⦃d : Float F⦄ (o : Outside F) where
  open d use {le, div}
  open o use {from_json, parse_f64, new_uuid, now_iso}

  -- `block` is the number of the block, `i` that of the quote in it.
  abbrev quote_from : ℕ → ℕ → ℕ → F → Value → OddsQuote F
  quote_from block i fixture_id decimal item = record {
    fixture_id =
        unwrap_or (extract_u64 item ("FixtureId" ∷ "fixtureId" ∷ "fixture_id" ∷ [])) fixture_id;
    outcome =
        unwrap_or
          (extract_string item (
            "Outcome" ∷ "Selection" ∷ "Name" ∷ "Side" ∷ "outcome" ∷ "selection" ∷ "name" ∷ "side"
            ∷ []))
          (lit "unknown");
    decimal = decimal;
    implied_probability = div one decimal;
    source =
        extract_string item
          ("Source" ∷ "Book" ∷ "Bookmaker" ∷ "source" ∷ "book" ∷ "bookmaker" ∷ []);
    ts =
        unwrap_or (extract_string item ("Ts" ∷ "ts" ∷ "Timestamp" ∷ "timestamp" ∷ []))
          (now_iso block i);
  }

  unfoldable pub parse_quote : ℕ → ℕ → ℕ → Value → Option (OddsQuote F)
  unfolding extract_f64 extract_u64 extract_string
  parse_quote block i fixture_id item = do
    decimal ← extract_f64 parse_f64 item ("decimal" ∷ "price" ∷ "odds" ∷ [])
    if le decimal one then none else some (quote_from block i fixture_id decimal item)

  -- `filter_map`
  unfoldable pub parse_quotes : ℕ → ℕ → ℕ → List Value → List (OddsQuote F)
  unfolding parse_quote
  parse_quotes block i fixture_id [] = []
  parse_quotes block i fixture_id (item ∷ items) =
      let rest = parse_quotes block (i + 1) fixture_id items in
      elim (parse_quote block i fixture_id item) [ none ↦ rest | some q ↦ q ∷ rest ]

  unfoldable pub parse_odds : ℕ → Value → ℕ → Option (List (OddsQuote F))
  unfolding quote_values parse_quotes
  parse_odds block raw fixture_id = do
    values ← quote_values raw
    non_empty_list (parse_quotes block 1 fixture_id values)

  unfoldable pub event_of : ℕ → Text → SseFields → Value → TxLineEvent F
  unfolding extract_string extract_u64 extract_bool fixture_of title_of body_of event_kind stat_keys
      parse_odds parse_score text_eq
  event_of block stream f raw =
      let fixture_id = fixture_of raw in
      let title = title_of stream raw f.sse_event in
      let action = extract_string raw ("Action" ∷ "action" ∷ "Type" ∷ "type" ∷ []) in
      record {
        id =
            unwrap_or (or_else f.sse_id (extract_string raw ("eventId" ∷ "event_id" ∷ "uuid" ∷ [])))
              (stream ++ (lit "-" ++ new_uuid block));
        kind = event_kind stream title raw;
        fixture_id = fixture_id;
        seq = extract_u64 raw ("Seq" ∷ "seq" ∷ "Sequence" ∷ "sequence" ∷ []);
        txline_ts = extract_string raw ("Ts" ∷ "ts" ∷ "Timestamp" ∷ "timestamp" ∷ []);
        action = action;
        confirmed = extract_bool raw ("Confirmed" ∷ "confirmed" ∷ []);
        participant =
            extract_string raw
              ("Participant" ∷ "participant" ∷ "Team" ∷ "team" ∷ "Player" ∷ "player" ∷ []);
        period = extract_string raw ("Period" ∷ "period" ∷ "Phase" ∷ "phase" ∷ []);
        stat_keys = stat_keys stream raw action;
        schema_family = some (if text_eq stream (lit "scores") then lit "scores" else lit "odds");
        title = title;
        body = body_of raw;
        ts = now_iso block 0;
        raw = some raw;
        odds = flatten (text_eq stream (lit "odds")) (parse_odds block raw fixture_id);
        score = flatten (text_eq stream (lit "scores")) (parse_score raw);
        proof = none;
      }

  unfoldable pub parse_sse_block : ℕ → Text → Text → Option (TxLineEvent F)
  unfolding sse_fields payload_of event_of
  parse_sse_block n stream block = do
    payload ← payload_of (sse_fields block)
    raw ← from_json payload
    some (event_of n stream (sse_fields block) raw)
