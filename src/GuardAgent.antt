-- ===== src/GuardAgent.antt =====
-- crates/agents/proof-guard-agent/src/main.rs: the reply of the proof guard agent to a mention. The JSON
-- parser and printer of wagers and the number of the round, which is parsed as an `f64`, are parameters;
-- `none` is a panic of the checks.
pub mod Reply
use txodds_agent_desk.Prelude.{
  ℕ, Bool, true, false, not, Option, none, some, List, [], ◌∷◌, ◌++◌, if◌then◌else◌, ◌>>=◌,
}
use txodds_agent_desk.Text.{Text, lit, text_eq}
use txodds_agent_desk.Decimal.{show_ℕ}
use txodds_agent_desk.Float.{Float}
use txodds_agent_desk.Wager.{Wager}
use txodds_agent_desk.ProofGuard.{ProofGuardConfig, ProofGuardVerdict, verify, join}
use txodds_agent_desk.Settlement.{parse_wager, escape_reason}
use txodds_agent_desk.Wire.{verb}

-- What the agent answers: nothing for another verb, or a verdict.
pub data GuardReply (F : Type 0) : Type 0 where
  ignored : GuardReply F
  malformed : ℕ → GuardReply F
  judged : ℕ → ProofGuardVerdict F → GuardReply F

abbrev show_bool : Bool → Text
show_bool b = if b then lit "true" else lit "false"

module _ {F : Type 0} where
  abbrev reason_of_verdict : ProofGuardVerdict F → Text
  reason_of_verdict v =
      if v.passed then [] else lit " reason=\"" ++ (escape_reason (join v.failures) ++ lit "\"")

  pub show_guard_reply : (Wager F → Text) → GuardReply F → Text
  show_guard_reply to_string ignored = []
  show_guard_reply to_string (malformed round) =
      lit "WAGER_PROOF_VERDICT round="
      ++ (show_ℕ round
          ++ lit " wagerId=unknown passed=false reason=\"malformed delegation: no wager payload\"")
  show_guard_reply to_string (judged round v) =
      lit "WAGER_PROOF_VERDICT round="
      ++ (show_ℕ round
          ++ (lit " wagerId="
              ++ (v.wager.wager_id
                  ++ (lit " passed="
                      ++ (show_bool v.passed
                          ++ (reason_of_verdict v ++ (lit " wager=" ++ to_string v.wager)))))))

module _ {F : Type 0} ⦃d : Float F⦄ (from_str : Text → Option (Wager F))
    (to_string : Wager F → Text) (round_of : Text → ℕ) (debug : Text → Text)
    (cfg : ProofGuardConfig F) where
  abbrev on_wager : Text → Option (Wager F) → Option (GuardReply F)
  on_wager text none = some (malformed (round_of text))
  on_wager text (some wager) = do
    verdict ← verify debug wager wager.proof_ref cfg
    some (judged (round_of text) verdict)

  unfoldable pub guard_reply_to : Text → Option (GuardReply F)
  guard_reply_to text =
      if not (text_eq (verb text) (lit "WAGER_PROOF_REQUESTED"))
      then some ignored
      else on_wager text (parse_wager from_str text)

  unfoldable pub guard_handle : Text → Option Text
  unfolding guard_reply_to show_guard_reply
  guard_handle text = do reply ← guard_reply_to text; some (show_guard_reply to_string reply)
