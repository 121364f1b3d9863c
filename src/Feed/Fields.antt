-- ===== src/Feed/Fields.antt =====
-- native/src/services/txline/ingest.rs: extract_string, extract_u64, extract_i64, extract_f64 and
-- extract_bool.
use Prim.Native.String.{String}
use txodds_agent_desk.Prelude.{
  ℕ, Bool, true, false, ◌||◌, Option, none, some, List, [], ◌∷◌, if◌then◌else◌, ◌>>=◌, or_else,
}
use txodds_agent_desk.Prelude.Int.{ℤ}
use txodds_agent_desk.Text.{Text, lit, text_eq}
use txodds_agent_desk.Strings.{trim, to_ascii_lowercase}
use txodds_agent_desk.Decimal.Parse.{parse_u64, parse_i64}
use txodds_agent_desk.Json.{Value}
use txodds_agent_desk.Json.Access.{get, as_str, as_bool, as_u64, as_i64, as_f64}
use txodds_agent_desk.Feed.{non_empty}

-- `find_map` over the names of fields
abbrev first_of : {A : Type 0} → (Value → Option A) → Value → List String → Option A
first_of read value [] = none
first_of read value (key ∷ keys) = or_else (get (lit key) value >>= read) (first_of read value keys)

unfoldable pub read_string : Value → Option Text
unfolding as_str trim
read_string item = do text ← as_str item; non_empty (trim text)

unfoldable pub extract_string : Value → List String → Option Text
unfolding read_string get
extract_string = first_of read_string

unfoldable pub extract_u64 : Value → List String → Option ℕ
unfolding get as_u64 as_str parse_u64
extract_u64 = first_of λ item. or_else (as_u64 item) (as_str item >>= parse_u64)

unfoldable pub extract_i64 : Value → List String → Option ℤ
unfolding get as_i64 as_str parse_i64
extract_i64 = first_of λ item. or_else (as_i64 item) (as_str item >>= parse_i64)

unfoldable pub extract_f64 : {F : Type 0} → (Text → Option F) → Value → List String → Option F
unfolding get as_f64 as_str
extract_f64 parse = first_of λ item. or_else (as_f64 parse item) (as_str item >>= parse)

unfoldable pub truth_of : Text → Option Bool
unfolding text_eq
truth_of text =
    if text_eq text (lit "true") || (text_eq text (lit "1") || text_eq text (lit "yes"))
    then some true
    else if text_eq text (lit "false") || (text_eq text (lit "0") || text_eq text (lit "no"))
    then some false
    else none

unfoldable pub extract_bool : Value → List String → Option Bool
unfolding get as_bool as_str truth_of to_ascii_lowercase
extract_bool =
    first_of
      λ item. or_else (as_bool item) (as_str item >>= λ text. truth_of (to_ascii_lowercase text))
