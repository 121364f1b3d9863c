-- ===== src/Tests/Line.antt =====
-- Runs of `Wire`.
use txodds_agent_desk.Prelude.{◌≡◌, refl, none, some, [], ◌∷◌, ◌++◌}
use txodds_agent_desk.Text.{Text}
use txodds_agent_desk.Wire.{json_val, is_whitespace, strip_prefix}
use txodds_agent_desk.Wire.Scan.{Doc, str, obj, blank, member, no_members, render}
use txodds_agent_desk.Wire.Extract.{json_val-render, IsClear, EndsWord}

-- `{ "k": "}\""}`: a bracket and an escaped quote in a string, and blanks.
abbrev tricky : Doc
tricky = obj (
    member (b' ' ∷ []) (b'k' ∷ []) [] (blank (b' ' ∷ []) (str (b'}' ∷ b'\\' ∷ b'"' ∷ [])) [])
      (no_members []))

abbrev before : Text
before = b'V' ∷ b'E' ∷ b' ' ∷ []

abbrev key : Text
key = b'w' ∷ []

abbrev after : Text
after = b' ' ∷ b'w' ∷ b'=' ∷ b'[' ∷ []

-- `VE w={ "k": "}\""} w=[`
abbrev message : Text
message = before ++ ((key ++ b'=' ∷ []) ++ (render tricky ++ after))

space_ends : EndsWord none before
unfolding is_whitespace
space_ends = refl

nothing_before : IsClear (key ++ b'=' ∷ []) before ((key ++ b'=' ∷ []) ++ (render tricky ++ after))
unfolding strip_prefix
nothing_before = (refl, (refl, (refl, tt)))

json_val-render_example : json_val message key ≡ some (render tricky)
json_val-render_example =
    json_val-render key before tricky after tt ((refl, refl, refl), (refl, refl, refl), refl)
      space_ends nothing_before
