-- ===== src/Strings.antt =====
-- What the code uses of Rust's `str`: `find`, `contains`, `trim`, `trim_start`, `lines`, `join` and
-- the ASCII lower case. A position is a byte index, as in the code.
pub mod Lines
pub mod Search
use txodds_agent_desk.Prelude.{
  ℕ, ◌+◌, Bool, true, false, ◌&&◌, Option, none, some, List, [], ◌∷◌, ◌++◌, if◌then◌else◌, leb,
  ◌==◌, is_some, map,
}
use txodds_agent_desk.Text.{Text, utf8_width}
use txodds_agent_desk.Wire.{is_whitespace, strip_prefix}

abbrev pub map_some {ℓ κ} : {A : Type ℓ} {B : Type κ} → (A → B) → Option A → Option B
map_some f none = none
map_some f (some a) = some (f a)

-- `str::find` of a text, and `contains`
unfoldable pub find : Text → Text → Option ℕ
find needle [] = map_some (λ _. 0) (strip_prefix needle [])
find needle (c ∷ s) =
    let rest = find needle s in
    elim (strip_prefix needle (c ∷ s)) [
      | none ↦ map_some (λ n. utf8_width c + n) rest
      | some _ ↦ some 0
    ]

unfoldable pub contains : Text → Text → Bool
unfolding find strip_prefix
contains s needle = is_some (find needle s)

unfoldable pub trim_start : Text → Text
unfolding is_whitespace
trim_start [] = []
trim_start (c ∷ s) = let rest = trim_start s in if is_whitespace c then rest else c ∷ s

-- The text without the whitespace at its end: a whitespace character stays if one that is none
-- follows.
abbrev pub keep_last : ℕ → Text → Text
keep_last c [] = if is_whitespace c then [] else c ∷ []
keep_last c (d ∷ s) = c ∷ d ∷ s

unfoldable pub trim_end : Text → Text
unfolding is_whitespace
trim_end [] = []
trim_end (c ∷ s) = keep_last c (trim_end s)

unfoldable pub trim : Text → Text
unfolding trim_start trim_end
trim s = trim_end (trim_start s)

unfoldable pub to_ascii_lowercase : Text → Text
to_ascii_lowercase = map λ c. if leb b'A' c && leb c b'Z' then c + 32 else c

-- A carriage return at the end of a line that a line feed ended is dropped.
unfoldable pub strip_return : Text → Text
strip_return [] = []
strip_return (c ∷ []) = if c == 13 then [] else c ∷ []
strip_return (c ∷ d ∷ s) = c ∷ strip_return (d ∷ s)

-- `str::lines`: the line being read is `line`; a last line that is empty is none.
pub lines_from : Text → Text → List Text
lines_from [] [] = []
lines_from (d ∷ line) [] = (d ∷ line) ∷ []
lines_from line (c ∷ s) =
    let ended = lines_from [] s in
    let longer = lines_from (line ++ c ∷ []) s in
    if c == 10 then strip_return line ∷ ended else longer

unfoldable pub lines : Text → List Text
unfolding lines_from strip_return
lines s = lines_from [] s

-- `[_]::join`
unfoldable pub join : Text → List Text → Text
join sep [] = []
join sep (x ∷ []) = x
join sep (x ∷ y ∷ rest) = x ++ (sep ++ join sep (y ∷ rest))
