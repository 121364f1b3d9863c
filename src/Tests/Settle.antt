-- ===== src/Tests/Settle.antt =====
-- Runs of `Settlement`.
use txodds_agent_desk.Prelude.{
  ◌≡◌, ◌↔◌, refl, true, none, some, Option, [], ◌∷◌, ◌++◌, Returns, arith,
}
use txodds_agent_desk.Text.{Text, lit, text_eq, byte_len, IsAscii}
use txodds_agent_desk.Float.Micro.{Micro, micro_float}
use txodds_agent_desk.Wager.{Wager}
use txodds_agent_desk.Wire.{verb, tok, json_val}
use txodds_agent_desk.Settlement.{reply_to, handle, parse_wager}
use txodds_agent_desk.Settlement.Verdict.{
  is_settled, IsRequest, IsSettleable, proof_ref_of, reply_to-IsRequest, handle-panics,
}
use txodds_agent_desk.Tests.{backed_home}

abbrev parser : Text → Option (Wager Micro)
parser t = some backed_home

abbrev request : Text
request = lit "SETTLE_REQUESTED proofRef=txoracle:1 wager={}"

IsAscii-proof_ref_of : IsAscii (proof_ref_of parser request)
unfolding tok lit text_eq
IsAscii-proof_ref_of = ground arith

reply_to-IsRequest_example :
    Returns (reply_to parser request) λ r. (is_settled r ≡ true) ↔ IsRequest parser request
reply_to-IsRequest_example = reply_to-IsRequest parser request IsAscii-proof_ref_of

-- Seven letters and an accented one.
abbrev accented : Text
accented = lit "SETTLE_REQUESTED proofRef=abcdefgé wager={}"

abbrev seven : Text
seven = b'a' ∷ b'b' ∷ b'c' ∷ b'd' ∷ b'e' ∷ b'f' ∷ b'g' ∷ []

asked : text_eq (verb accented) (lit "SETTLE_REQUESTED") ≡ true
unfolding verb lit text_eq
asked = refl

parsed : parse_wager parser accented ≡ some backed_home
unfolding parse_wager json_val lit
parsed = refl

the_ref : proof_ref_of parser accented ≡ seven ++ 0xE9 ∷ []
unfolding tok lit
the_ref = refl

seven_bytes : byte_len seven ≡ 7
unfolding byte_len
seven_bytes = refl

seven-IsAscii : IsAscii seven
seven-IsAscii = ground arith

settleable : IsSettleable backed_home (seven ++ 0xE9 ∷ [])
unfolding text_eq lit
settleable = record { given = refl; a_bet = refl; edge_pos = refl; stake_pos = refl }

handle-panics_example : handle parser accented ≡ none
handle-panics_example =
    handle-panics parser accented backed_home seven 0xE9 [] asked parsed the_ref seven-IsAscii
      seven_bytes (omega arith) settleable
