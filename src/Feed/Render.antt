-- ===== src/Feed/Render.antt =====
-- native/src/services/txline/ingest.rs: the lines of a block, as a server writes them.
use txodds_agent_desk.Prelude.{
  ◌≡◌, refl, sym, ap, ◌∙◌, Bool, some, List, [], ◌∷◌, ◌++◌, arith, map, ◌>>=◌, append_assoc,
  append-nil,
}
use txodds_agent_desk.Text.{Text, lit}
use txodds_agent_desk.Strings.{join, lines, trim, trim_start, map_some}
use txodds_agent_desk.Strings.Lines.{
  IsLine, AreLines, line_end, lines-join, StartsPlain, EndsPlain, trim-space,
  trim_start-StartsPlain, IsLine-append,
}
use txodds_agent_desk.Wire.{strip_prefix}
use txodds_agent_desk.Feed.{sse_block_id, first_id, non_empty}
use txodds_agent_desk.Feed.Parse.{SseFields, no_fields, read_line, read_lines, sse_fields}

-- The value of a field, or a line of the payload: one line that starts and ends with no whitespace.
abbrev pub IsField : Text → Type 0
IsField t = IsLine t × StartsPlain t × EndsPlain t

abbrev pub AreFields : List Text → Type 0
AreFields [] = Unit
AreFields (t ∷ ts) = IsField t × AreFields ts

abbrev data_line : Text → Text
data_line t = lit "data: " ++ t

-- An event as a server writes it.
abbrev pub event_lines : Text → Text → List Text → List Text
event_lines id event payload = (lit "id: " ++ id) ∷ (lit "event: " ++ event) ∷ map data_line payload

module _ (f : SseFields) (t : Text) (h : StartsPlain t) where
  read_data :
      read_line f (trim_start (data_line t)) ≡ record f { data_lines = f.data_lines ++ t ∷ [] }
  unfolding read_line lit strip_prefix
  read_data =
      ap (λ u. record f { data_lines = f.data_lines ++ u ∷ [] }) (trim_start-StartsPlain t h)

  read_event :
      EndsPlain t → read_line f (trim_start (lit "event: " ++ t)) ≡ record f { sse_event = some t }
  unfolding read_line lit strip_prefix
  read_event k = ap (λ u. record f { sse_event = some u }) (trim-space t h k)

  read_id : EndsPlain t → read_line f (trim_start (lit "id: " ++ t)) ≡ record f { sse_id = some t }
  unfolding read_line lit strip_prefix
  read_id k = ap (λ u. record f { sse_id = some u }) (trim-space t h k)

read_payload :
    (ts : List Text) (f : SseFields)
    → AreFields ts
    → read_lines f (map data_line ts) ≡ record f { data_lines = f.data_lines ++ ts }
unfolding read_lines
read_payload [] f h = ap (λ u. record f { data_lines = u }) (sym (append-nil f.data_lines))
read_payload (t ∷ ts) f (h, hs) =
    ap (λ g. read_lines g (map data_line ts)) (read_data f t h.1)
    ∙ read_payload ts (record f { data_lines = f.data_lines ++ t ∷ [] }) hs
    ∙ ap (λ u. record f { data_lines = u }) (append_assoc f.data_lines (t ∷ []) ts)

names-IsLine : IsLine (lit "id: ") × IsLine (lit "event: ") × IsLine (lit "data: ")
unfolding lit
names-IsLine = omega arith

payload-AreLines : (ts : List Text) → AreFields ts → AreLines (map data_line ts)
unfolding lit
payload-AreLines [] h = tt
payload-AreLines (t ∷ ts) (h, hs) =
    (IsLine-append (lit "data: ") t names-IsLine.2 h.0, tt, payload-AreLines ts hs)

event_lines-AreLines :
    (id event : Text) (payload : List Text)
    → IsField id
    → IsField event
    → AreFields payload
    → AreLines (event_lines id event payload)
unfolding lit
event_lines-AreLines id event payload hi he hp = (
  IsLine-append (lit "id: ") id names-IsLine.0 hi.0,
  tt,
  (IsLine-append (lit "event: ") event names-IsLine.1 he.0, tt, payload-AreLines payload hp),
)

first-id : (id : Text) (rest : List Text) → first_id ((lit "id: " ++ id) ∷ rest) ≡ some (32 ∷ id)
unfolding first_id lit strip_prefix trim_start
first-id id rest = refl

read_event_lines :
    (id event : Text) (payload : List Text)
    → IsField id
    → IsField event
    → AreFields payload
    → read_lines no_fields (event_lines id event payload)
      ≡ record { data_lines = payload; sse_event = some event; sse_id = some id }
unfolding read_lines
read_event_lines id event payload hi he hp =
    ap (λ g. read_lines (read_line g (trim_start (lit "event: " ++ event))) (map data_line payload))
      (read_id no_fields id hi.1 hi.2)
    ∙ ap (λ g. read_lines g (map data_line payload))
        (read_event (record no_fields { sse_id = some id }) event he.1 he.2)
    ∙ read_payload payload (record no_fields { sse_event = some event; sse_id = some id }) hp

non_empty_lem : (t : Text) → StartsPlain t → non_empty t ≡ some t
non_empty_lem [] h = absurd h
non_empty_lem (c ∷ t) h = refl

-- An event that a server writes with its identifier, its name and its lines of data, each ended by a
-- line feed or by a carriage return and a line feed, is read as those fields, and its identifier is the
-- one that a reconnection sends, if the identifier, the name and each line of data are one line that is
-- not empty and has no whitespace at its start or its end.
pub sse_fields-join :
    (id event : Text) (payload : List Text) (crlf : Bool)
    → IsField id
    → IsField event
    → AreFields payload
    → let block = join (line_end crlf) (event_lines id event payload) in
      (sse_fields block ≡ record { data_lines = payload; sse_event = some event; sse_id = some id })
      × (sse_block_id block ≡ some id)
unfolding sse_fields sse_block_id
sse_fields-join id event payload crlf hi he hp =
    let split : lines (join (line_end crlf) (event_lines id event payload))
        ≡ event_lines id event payload =
      lines-join (event_lines id event payload) crlf
        (event_lines-AreLines id event payload hi he hp) in
    (
      ap (read_lines no_fields) split ∙ read_event_lines id event payload hi he hp,
      ap (λ ls. map_some trim (first_id ls) >>= non_empty) split
          ∙ ap (λ u. map_some trim u >>= non_empty)
              (first-id id ((lit "event: " ++ event) ∷ map data_line payload))
          ∙ ap non_empty (trim-space id hi.1 hi.2)
          ∙ non_empty_lem id hi.1,
    )
