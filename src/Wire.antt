-- ===== src/Wire.antt =====
-- crates/coral-client/src/wire.rs: the flat `VERB key=value ...` grammar of the market thread. Every
-- slice of the code starts and ends at a match, so positions are suffixes of the text here.
pub mod Scan
pub mod Extract
use txodds_agent_desk.Prelude.{
  ℕ, zero, suc, ◌+◌, ◌-◌, Bool, true, false, not, ◌&&◌, ◌||◌, Option, none, some, List, [], ◌∷◌,
  ◌++◌, if◌then◌else◌, ◌==◌, leb, ◌>>=◌, length, map,
}
use txodds_agent_desk.Text.{Text}

-- `char::is_whitespace`
unfoldable pub is_whitespace : ℕ → Bool
is_whitespace c =
    leb 9 c && leb c 13
    || (c == 32
        || (c == 0x85
            || (c == 0xa0
                || (c == 0x1680
                    || (leb 0x2000 c && leb c 0x200a
                        || (c == 0x2028
                            || (c == 0x2029 || (c == 0x202f || (c == 0x205f || c == 0x3000)))))))))

-- `str::strip_prefix`
unfoldable pub strip_prefix : Text → Text → Option Text
strip_prefix [] s = some s
strip_prefix (_ ∷ _) [] = none
strip_prefix (a ∷ p) (c ∷ s) = let rest = strip_prefix p s in if a == c then rest else none

-- `split_whitespace`: `word` is the word being read, back to front.
abbrev snoc : Text → ℕ → Text
snoc w c = w ++ c ∷ []

abbrev flush : Text → List Text → List Text
flush [] words = words
flush (c ∷ w) words = (c ∷ w) ∷ words

words_from : Text → Text → List Text
words_from word [] = flush word []
words_from word (c ∷ s) =
    let ended = words_from [] s in
    let longer = words_from (snoc word c) s in if is_whitespace c then flush word ended else longer

unfoldable pub split_whitespace : Text → List Text
unfolding words_from is_whitespace
split_whitespace s = words_from [] s

unfoldable pub to_ascii_uppercase : ℕ → ℕ
to_ascii_uppercase c = if leb b'a' c && leb c b'z' then c - 32 else c

abbrev first_or_empty : List Text → Text
first_or_empty [] = []
first_or_empty (w ∷ _) = w

unfoldable pub verb : Text → Text
unfolding split_whitespace to_ascii_uppercase
verb text = map to_ascii_uppercase (first_or_empty (split_whitespace text))

-- The loop of `tok` over the words.
tok_in : Text → List Text → Option Text
tok_in key [] = none
tok_in key (w ∷ ws) =
    let rest = tok_in key ws in
    elim (strip_prefix key w >>= strip_prefix (b'=' ∷ [])) [ none ↦ rest | some v ↦ some v ]

unfoldable pub tok : Text → Text → Option Text
unfolding tok_in split_whitespace strip_prefix
tok text key = tok_in key (split_whitespace text)

-- What follows the first occurrence of a text.
unfoldable pub after_first : Text → Text → Option Text
after_first needle [] = strip_prefix needle []
after_first needle (c ∷ s) =
    let rest = after_first needle s in
    elim (strip_prefix needle (c ∷ s)) [ none ↦ rest | some v ↦ some v ]

-- What precedes the first double quote.
unfoldable pub before_quote : Text → Option Text
before_quote [] = none
before_quote (c ∷ s) =
    let rest = before_quote s in
    if c == b'"' then some [] else elim rest [ none ↦ none | some t ↦ some (c ∷ t) ]

unfoldable pub quoted : Text → Text → Option Text
unfolding after_first before_quote strip_prefix
quoted text key = after_first (key ++ (b'=' ∷ b'"' ∷ [])) text >>= before_quote

abbrev is_open : ℕ → Bool
is_open c = c == b'{' || c == b'['

abbrev is_close : ℕ → Bool
is_close c = c == b'}' || c == b']'

abbrev starts_open : Text → Bool
starts_open [] = false
starts_open (c ∷ _) = is_open c

-- Where a scan stands: outside strings, in a string, or after a backslash in one.
pub data Mode : Type 0 where
  outside inside escaped : Mode

abbrev in_string : ℕ → Mode
in_string c = if c == b'\\' then escaped else if c == b'"' then outside else inside

abbrev cons_some : ℕ → Option Text → Option Text
cons_some c none = none
cons_some c (some t) = some (c ∷ t)

-- The slice up to the bracket that brings the depth back to 0.
unfoldable pub scan : ℕ → Mode → Text → Option Text
scan depth mode [] = none
scan depth escaped (c ∷ s) = cons_some c (scan depth inside s)
scan depth inside (c ∷ s) = cons_some c (scan depth (in_string c) s)
scan depth outside (c ∷ s) =
    let quote = scan depth inside s in
    let deeper = scan (depth + 1) outside s in
    let higher = scan (depth - 1) outside s in
    let level = scan depth outside s in
    if c == b'"'
    then cons_some c quote
    else if is_open c
    then cons_some c deeper
    else if is_close c
    then if depth - 1 == 0 then some (c ∷ []) else cons_some c higher
    else cons_some c level

abbrev at_word_start : Option ℕ → Bool
at_word_start none = true
at_word_start (some c) = is_whitespace c

-- The value text after the first occurrence of the needle at a word start and before a bracket.
-- `skip` is the number of characters left of an occurrence that was passed over, `prev` the character
-- before.
unfoldable pub find_value : Text → ℕ → Option ℕ → Text → Option Text
find_value needle skip prev [] = none
find_value needle (suc k) prev (c ∷ s) = find_value needle k (some c) s
find_value needle zero prev (c ∷ s) =
    let next = find_value needle zero (some c) s in
    let past = find_value needle (length needle - 1) (some c) s in
    elim (strip_prefix needle (c ∷ s)) [
      | none ↦ next
      | some value ↦ if at_word_start prev && starts_open value then some value else past
    ]

unfoldable pub json_val : Text → Text → Option Text
unfolding find_value scan strip_prefix is_whitespace
json_val text key = find_value (key ++ b'=' ∷ []) zero none text >>= scan 0 outside
