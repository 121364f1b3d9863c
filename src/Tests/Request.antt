-- ===== src/Tests/Request.antt =====
-- A run of `GuardAgent`.
use txodds_agent_desk.Prelude.{ℕ, ◌≡◌, ◌↔◌, true, some, Option, [], ◌∷◌, Returns, arith}
use txodds_agent_desk.Text.{Text, lit}
use txodds_agent_desk.Float.Micro.{Micro, micro_float}
use txodds_agent_desk.Wager.{Wager}
use txodds_agent_desk.Wire.{json_val}
use txodds_agent_desk.Settlement.{parse_wager}
use txodds_agent_desk.GuardAgent.{guard_reply_to}
use txodds_agent_desk.GuardAgent.Reply.{
  is_pass, RefIsAscii, IsProofRequest, guard_reply_to-IsProofRequest,
}
use txodds_agent_desk.Tests.{backed_home, loose, reference}

abbrev attested : Wager Micro
attested = record backed_home { proof_ref = some reference }

abbrev parser : Text → Option (Wager Micro)
parser t = some attested

abbrev printer : Wager Micro → Text
printer w = b'{' ∷ b'}' ∷ []

abbrev first_round : Text → ℕ
first_round t = 1

abbrev plain : Text → Text
plain t = t

abbrev request : Text
request = lit "WAGER_PROOF_REQUESTED round=1 wager={}"

parsed-RefIsAscii : RefIsAscii (parse_wager parser request)
unfolding parse_wager json_val lit
parsed-RefIsAscii = ground arith

guard_reply_to-IsProofRequest_example :
    Returns
      (guard_reply_to parser printer first_round plain loose request)
      λ r. (is_pass r ≡ true) ↔ IsProofRequest parser printer first_round plain loose request
guard_reply_to-IsProofRequest_example =
    guard_reply_to-IsProofRequest parser printer first_round plain loose request parsed-RefIsAscii
