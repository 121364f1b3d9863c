-- ===== src/Feed.antt =====
-- native/src/services/txline/ingest.rs: the stream of server-sent events. The HTTP client, the clock
-- and the JSON parser are parameters.
pub mod Backoff
pub mod Blocks
pub mod Chunks
pub mod Cut
pub mod Delivery
pub mod Division
pub mod Event
pub mod Fields
pub mod Parse
pub mod Render
pub mod Round
pub mod Refresh
pub mod Stream
pub mod Torn
use txodds_agent_desk.Prelude.{
  ℕ, zero, suc, ◌+◌, Bool, true, false, not, Option, none, some, List, [], ◌∷◌, ◌++◌, if◌then◌else◌,
  ltb, ◌>>=◌, is_empty,
}
use txodds_agent_desk.Text.{Text, lit, slice_to, slice_from}
use txodds_agent_desk.Strings.{map_some, find, trim, trim_start, lines}
use txodds_agent_desk.Wire.{strip_prefix}

abbrev pub lf_lf : Text
lf_lf = 10 ∷ 10 ∷ []

abbrev pub crlf_crlf : Text
crlf_crlf = 13 ∷ 10 ∷ 13 ∷ 10 ∷ []

-- The position and the length of a separator.
abbrev pub earlier : Option ℕ → Option ℕ → Option (ℕ × ℕ)
earlier (some a) (some b) = if ltb a b then some (a, 2) else some (b, 4)
earlier (some a) none = some (a, 2)
earlier none (some b) = some (b, 4)
earlier none none = none

unfoldable pub find_sse_separator : Text → Option (ℕ × ℕ)
find_sse_separator buffer = earlier (find lf_lf buffer) (find crlf_crlf buffer)

-- The first block of the buffer and what follows its separator; the outer `none` is a panic of a slice.
unfoldable pub take_block : Text → Option (Option (Text × Text))
take_block buffer = elim (find_sse_separator buffer) [
  | none ↦ some none
  | some (index, delimiter_len) ↦ do
    block ← slice_to buffer index
    rest ← slice_from buffer (index + delimiter_len)
    some (some (block, rest))
]

-- The first line that is an `id:`.
unfoldable pub first_id : List Text → Option Text
first_id [] = none
first_id (line ∷ rest) =
    let later = first_id rest in
    elim (strip_prefix (lit "id:") (trim_start line)) [ none ↦ later | some id ↦ some id ]

abbrev non_empty : Text → Option Text
non_empty [] = none
non_empty (c ∷ s) = some (c ∷ s)

unfoldable pub sse_block_id : Text → Option Text
unfolding first_id
sse_block_id block = map_some trim (first_id (lines block)) >>= non_empty
