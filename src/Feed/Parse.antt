-- ===== src/Feed/Parse.antt =====
-- native/src/services/txline/ingest.rs: the payload of a block, event_kind, parse_score, stat_keys and the
-- list that parse_odds reads.
use txodds_agent_desk.Prelude.{
  ◌||◌, Option, none, some, List, [], ◌∷◌, ◌++◌, if◌then◌else◌, ◌>>=◌, or_else, unwrap_or, is_empty,
}
use txodds_agent_desk.Text.{Text, lit, text_eq}
use txodds_agent_desk.Strings.{trim, trim_start, lines, contains, to_ascii_lowercase, join}
use txodds_agent_desk.Wire.{strip_prefix}
use txodds_agent_desk.Json.{Value}
use txodds_agent_desk.Json.Access.{get, as_array}
use txodds_agent_desk.Event.{
  TxLineEventKind, goal, red_card, final_whistle, odds_update, score_update, Score,
}
use txodds_agent_desk.Feed.Fields.{extract_string, extract_i64, read_string}

-- The fields that the lines of a block set.
pub record SseFields : Type 0 where
  pub data_lines : List Text
  pub sse_event : Option Text
  pub sse_id : Option Text

abbrev pub no_fields : SseFields
no_fields = record { data_lines = []; sse_event = none; sse_id = none }

unfoldable pub read_line : SseFields → Text → SseFields
unfolding strip_prefix trim_start trim
read_line f line = elim (strip_prefix (lit "data:") line) [
  | some value ↦ record f { data_lines = f.data_lines ++ trim_start value ∷ [] }
  | none ↦ elim (strip_prefix (lit "event:") line) [
    | some event ↦ record f { sse_event = some (trim event) }
    | none ↦ elim (strip_prefix (lit "id:") line) [
      | some id ↦ record f { sse_id = some (trim id) }
      | none ↦ f
    ]
  ]
]

unfoldable pub read_lines : SseFields → List Text → SseFields
unfolding read_line
read_lines f [] = f
read_lines f (line ∷ rest) = read_lines (read_line f (trim_start line)) rest

unfoldable pub sse_fields : Text → SseFields
unfolding read_lines lines
sse_fields block = read_lines no_fields (lines block)

-- The payload, unless it is blank or the end marker.
unfoldable pub payload_of : SseFields → Option Text
unfolding join trim
payload_of f =
    let payload = join (10 ∷ []) f.data_lines in
    if is_empty (trim payload) || text_eq (trim payload) (lit "[DONE]") then none else some payload

unfoldable pub event_kind : Text → Text → Value → TxLineEventKind
unfolding contains to_ascii_lowercase extract_string
event_kind stream title raw =
    let status =
      unwrap_or
        (extract_string raw (
          "Action" ∷ "action" ∷ "Kind" ∷ "kind" ∷ "EventType" ∷ "eventType" ∷ "event_type"
          ∷ "Status" ∷ "status" ∷ []))
        [] in
    let needle = to_ascii_lowercase title ++ (lit " " ++ to_ascii_lowercase status) in
    if contains needle (lit "goal")
    then goal
    else if contains needle (lit "red_card") || contains needle (lit "red card")
    then red_card
    else if contains needle (lit "final")
    then final_whistle
    else if text_eq stream (lit "odds")
    then odds_update
    else score_update

unfoldable pub parse_score_object : Value → Option Score
unfolding extract_i64
parse_score_object value = do
  home ←
      extract_i64 value
        ("Home" ∷ "HomeScore" ∷ "home" ∷ "homeScore" ∷ "home_score" ∷ "homeGoals" ∷ [])
  away ←
      extract_i64 value
        ("Away" ∷ "AwayScore" ∷ "away" ∷ "awayScore" ∷ "away_score" ∷ "awayGoals" ∷ [])
  some (record { home = home; away = away })

unfoldable pub parse_score : Value → Option Score
unfolding parse_score_object get
parse_score raw = or_else (get (lit "score") raw >>= parse_score_object) (parse_score_object raw)

-- `filter_map(as_str)`, trimmed, without the empty ones
unfoldable pub string_keys : List Value → List Text
unfolding read_string
string_keys [] = []
string_keys (v ∷ vs) =
    let rest = string_keys vs in elim (read_string v) [ none ↦ rest | some key ↦ key ∷ rest ]

unfoldable pub default_stat_keys : Text → Option Text → List Text
unfolding contains to_ascii_lowercase
default_stat_keys stream action =
    if text_eq stream (lit "odds") then lit "odds.stream" ∷ [] else elim action [
      | none ↦ lit "scores.stream" ∷ []
      | some a ↦
          if contains (to_ascii_lowercase a) (lit "goal")
          then lit "score.home" ∷ lit "score.away" ∷ []
          else if contains (to_ascii_lowercase a) (lit "card")
          then lit "discipline.cards" ∷ []
          else lit "scores.stream" ∷ []
    ]

abbrev pub keys_or : List Text → List Text → List Text
keys_or [] others = others
keys_or (key ∷ keys) others = key ∷ keys

unfoldable pub stat_keys : Text → Value → Option Text → List Text
unfolding string_keys default_stat_keys get as_array
stat_keys stream raw action =
    elim (or_else (get (lit "StatKeys") raw) (get (lit "statKeys") raw) >>= as_array) [
      | none ↦ default_stat_keys stream action
      | some keys ↦ keys_or (string_keys keys) (default_stat_keys stream action)
    ]

abbrev pub non_empty_list : {A : Type 0} → List A → Option (List A)
non_empty_list [] = none
non_empty_list (x ∷ xs) = some (x ∷ xs)

-- The first field of those that holds an array.
unfoldable pub quote_values : Value → Option (List Value)
unfolding get as_array
quote_values raw = or_else (as_array raw) (
    or_else (get (lit "odds") raw >>= as_array)
      (or_else (get (lit "quotes") raw >>= as_array) (get (lit "markets") raw >>= as_array)))
