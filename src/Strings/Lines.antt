-- ===== src/Strings/Lines.antt =====
-- `str::lines` on lines that were joined, and `str::trim` on text that has no whitespace to trim.
use txodds_agent_desk.Prelude.{
  ℕ, ◌≡◌, ◌≢◌, refl, sym, ap, ◌∙◌, Bool, true, false, List, [], ◌∷◌, ◌++◌, arith, append_assoc,
  append-nil,
}
use txodds_agent_desk.Text.{Text}
use txodds_agent_desk.Wire.{is_whitespace}
use txodds_agent_desk.Strings.{
  lines, strip_return, trim, trim_start, trim_end, join, lines_from, keep_last,
}

-- No carriage return and no line feed.
abbrev pub IsLine : Text → Type 0
IsLine [] = Unit
IsLine (c ∷ s) = (c ≢ 10) × (c ≢ 13) × IsLine s

abbrev pub NotEmpty : Text → Type 0
NotEmpty [] = ⊥
NotEmpty (_ ∷ _) = Unit

-- A line feed, or a carriage return and a line feed.
abbrev pub line_end : Bool → Text
line_end false = 10 ∷ []
line_end true = 13 ∷ 10 ∷ []

strip-line : (line : Text) → IsLine line → strip_return line ≡ line
unfolding strip_return
strip-line [] h = refl
strip-line (c ∷ []) h = ground arith
strip-line (c ∷ b ∷ s) h = ap (λ t. c ∷ t) (strip-line (b ∷ s) h.2)

strip-return : (line : Text) → strip_return (line ++ 13 ∷ []) ≡ line
unfolding strip_return
strip-return [] = refl
strip-return (c ∷ []) = refl
strip-return (c ∷ b ∷ s) = ap (λ t. c ∷ t) (strip-return (b ∷ s))

pub IsLine-append : (s t : Text) → IsLine s → IsLine t → IsLine (s ++ t)
IsLine-append [] t h k = k
IsLine-append (c ∷ s) t h k = (h.0, h.1, IsLine-append s t h.2 k)

read_char :
    (read : Text) (c : ℕ) (s : Text)
    → c ≢ 10
    → lines_from read (c ∷ s) ≡ lines_from (read ++ c ∷ []) s
unfolding lines_from
read_char [] c s h = ground arith
read_char (d ∷ read) c s h = ground arith

read_end : (read s : Text) → lines_from read (10 ∷ s) ≡ strip_return read ∷ lines_from [] s
unfolding lines_from
read_end [] s = refl
read_end (d ∷ read) s = refl

-- The characters of a line are collected.
lines_from-line :
    (line read rest : Text)
    → IsLine line
    → lines_from read (line ++ rest) ≡ lines_from (read ++ line) rest
lines_from-line [] read rest h = ap (λ r. lines_from r rest) (sym (append-nil read))
lines_from-line (c ∷ line) read rest (h, k, hs) =
    read_char read c (line ++ rest) h
    ∙ lines_from-line line (read ++ c ∷ []) rest hs
    ∙ ap (λ r. lines_from r rest) (append_assoc read (c ∷ []) line)

lines_from-end :
    (line rest : Text) (crlf : Bool)
    → IsLine line
    → lines_from line (line_end crlf ++ rest) ≡ line ∷ lines_from [] rest
lines_from-end line rest false h =
    read_end line rest ∙ ap (λ l. l ∷ lines_from [] rest) (strip-line line h)
lines_from-end line rest true h =
    read_char line 13 (10 ∷ rest) (ground arith)
    ∙ read_end (line ++ 13 ∷ []) rest
    ∙ ap (λ l. l ∷ lines_from [] rest) (strip-return line)

lines_from-last : (line : Text) → NotEmpty line → lines_from line [] ≡ line ∷ []
unfolding lines_from
lines_from-last [] h = absurd h
lines_from-last (c ∷ line) h = refl

abbrev pub AreLines : List Text → Type 0
AreLines [] = Unit
AreLines (l ∷ ls) = IsLine l × NotEmpty l × AreLines ls

-- The lines of a text of lines that are not empty are those lines.
pub lines-join : (ls : List Text) (crlf : Bool) → AreLines ls → lines (join (line_end crlf) ls) ≡ ls
unfolding lines join
lines-join [] crlf h = refl
lines-join (l ∷ []) crlf h =
    ap (lines_from []) (sym (append-nil l)) ∙ lines_from-line l [] [] h.0 ∙ lines_from-last l h.1
lines-join (l ∷ m ∷ ls) crlf h =
    lines_from-line l [] (line_end crlf ++ join (line_end crlf) (m ∷ ls)) h.0
    ∙ lines_from-end l (join (line_end crlf) (m ∷ ls)) crlf h.0
    ∙ ap (λ r. l ∷ r) (lines-join (m ∷ ls) crlf h.2)

abbrev pub EndsPlain : Text → Type 0
EndsPlain [] = ⊥
EndsPlain (c ∷ []) = is_whitespace c ≡ false
EndsPlain (c ∷ d ∷ s) = EndsPlain (d ∷ s)

abbrev pub StartsPlain : Text → Type 0
StartsPlain [] = ⊥
StartsPlain (c ∷ _) = is_whitespace c ≡ false

pub trim_start-StartsPlain : (t : Text) → StartsPlain t → trim_start t ≡ t
unfolding trim_start
trim_start-StartsPlain [] h = absurd h
trim_start-StartsPlain (c ∷ t) h = ground arith

pub trim_end-EndsPlain : (t : Text) → EndsPlain t → trim_end t ≡ t
unfolding trim_end
trim_end-EndsPlain [] h = absurd h
trim_end-EndsPlain (c ∷ []) h = ground arith
trim_end-EndsPlain (c ∷ d ∷ t) h = ap (keep_last c) (trim_end-EndsPlain (d ∷ t) h)

-- A space before text that starts and ends with no whitespace is trimmed, and nothing else.
pub trim-space : (t : Text) → StartsPlain t → EndsPlain t → trim (32 ∷ t) ≡ t
unfolding trim
trim-space t h k = ap trim_end (trim_start-StartsPlain t h) ∙ trim_end-EndsPlain t k

pub trim_start-space : (t : Text) → StartsPlain t → trim_start (32 ∷ t) ≡ t
unfolding trim_start
trim_start-space t h = trim_start-StartsPlain t h
