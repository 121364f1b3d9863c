-- ===== src/Settlement.antt =====
-- crates/agents/settlement-agent/src/main.rs: the reply of the settlement agent to a mention. The JSON
-- parser of wagers and `{:?}` of a selection's constructor are a parameter and a function here;
-- `none` is the panic of a slice inside a character.
pub mod Verdict
use txodds_agent_desk.Prelude.{
  ℕ, Bool, true, false, not, ◌||◌, Option, none, some, List, [], ◌∷◌, ◌++◌, if◌then◌else◌, is_empty,
  ◌==◌, unwrap_or, min, ◌>>=◌, map,
}
use txodds_agent_desk.Text.{Text, lit, text_eq, byte_len, slice_to}
use txodds_agent_desk.Float.{Float, nought}
use txodds_agent_desk.Wager.{Wager, WagerStatus, no_bet, Selection, home, draw, away}
use txodds_agent_desk.ProofGuard.{is_no_bet}
use txodds_agent_desk.Wire.{verb, tok, json_val}

pub data SettleStatus : Type 0 where
  settled rejected : SettleStatus

-- What the agent decides: nothing for another verb, or a status with its signature and reason.
pub data SettleReply : Type 0 where
  ignored : SettleReply
  malformed : SettleReply
  verdict : (wager_id : Text) → SettleStatus → (reason tx_sig : Text) → SettleReply

unfoldable pub show_status : SettleStatus → Text
show_status settled = lit "settled"
show_status rejected = lit "rejected"

pub selection_debug : Selection → Text
selection_debug home = lit "Home"
selection_debug draw = lit "Draw"
selection_debug away = lit "Away"

-- `reason.replace('"', "'")`
pub escape_reason : Text → Text
escape_reason reason = map (λ c. if c == b'"' then b'\'' else c) reason

unfoldable pub show_reply : SettleReply → Text
show_reply ignored = []
show_reply malformed =
    lit
      "SETTLE_VERDICT wagerId=unknown status=rejected reason=\"malformed wager payload\" txSig=none"
show_reply (verdict wager_id status reason tx_sig) =
    lit "SETTLE_VERDICT wagerId="
    ++ (wager_id
        ++ (lit " status="
            ++ (show_status status
                ++ (lit " reason=\"" ++ (escape_reason reason ++ (lit "\" txSig=" ++ tx_sig))))))

abbrev pub to_reply : Text → SettleStatus × Text × Text → SettleReply
to_reply wager_id (status, tx_sig, reason) = verdict wager_id status reason tx_sig

module _ {F : Type 0} ⦃d : Float F⦄ where
  open d use {le, show_fixed}

  unfoldable pub simulate_settlement : Wager F → Text → Option (SettleStatus × Text × Text)
  simulate_settlement wager proof_ref =
      if le wager.edge nought
      then some (
        rejected,
        lit "none",
        lit "non-positive edge (" ++ (show_fixed 4 wager.edge ++ lit "); settlement rejected"),
      )
      else if le wager.stake_sol nought
      then some (rejected, lit "none", lit "zero-stake wager; settlement rejected")
      else do
        shown ← slice_to proof_ref (min (byte_len proof_ref) 8)
        some (
          settled,
          lit "devnet:settle:" ++ (wager.wager_id ++ (lit ":" ++ shown)),
          lit "settlement simulated on devnet — stake="
              ++ (show_fixed 4 wager.stake_sol
                  ++ (lit " SOL, edge="
                      ++ (show_fixed 4 wager.edge
                          ++ (lit ", selection=" ++ selection_debug wager.selection)))),
        )

  unfoldable pub judge_wager : Wager F → Text → Option SettleReply
  unfolding simulate_settlement
  judge_wager wager proof_ref =
      if text_eq proof_ref (lit "none") || is_empty proof_ref
      then some (verdict wager.wager_id rejected (lit "missing proof reference") (lit "none"))
      else if is_no_bet wager.status
      then some (verdict wager.wager_id rejected (lit "wager status is NoBet") (lit "none"))
      else do outcome ← simulate_settlement wager proof_ref; some (to_reply wager.wager_id outcome)

module _ {F : Type 0} ⦃d : Float F⦄ (from_str : Text → Option (Wager F)) where
  unfoldable pub parse_wager : Text → Option (Wager F)
  parse_wager text = json_val text (lit "wager") >>= from_str

  abbrev on_wager : Text → Option (Wager F) → Option SettleReply
  on_wager text none = some malformed
  on_wager text (some wager) =
      judge_wager wager (unwrap_or (tok text (lit "proofRef")) (lit "none"))

  unfoldable pub reply_to : Text → Option SettleReply
  unfolding parse_wager judge_wager
  reply_to text =
      if not (text_eq (verb text) (lit "SETTLE_REQUESTED"))
      then some ignored
      else on_wager text (parse_wager text)

  unfoldable pub handle : Text → Option Text
  unfolding reply_to
  handle text = do reply ← reply_to text; some (show_reply reply)
