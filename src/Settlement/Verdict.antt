-- ===== src/Settlement/Verdict.antt =====
-- handle of crates/agents/settlement-agent/src/main.rs: when the agent settles, and when it panics.
use txodds_agent_desk.Prelude.{
  Returns-map, ℕ, suc, ◌≤◌, ◌≡◌, ◌↔◌, refl, Bool, true, false, ◌||◌, Option, none, some, ◌∷◌, ◌++◌,
  arith, inl, inr, Option-cases, Bool-cases, is_empty, unwrap_or, min, Returns,
}
use txodds_agent_desk.Text.{
  Text, lit, text_eq, byte_len, slice_to, IsAscii, slice_to-IsAscii, slice_to-inside,
  byte_len-append, byte_len-wide,
}
use txodds_agent_desk.Float.{Float, nought}
use txodds_agent_desk.Wager.{Wager}
use txodds_agent_desk.ProofGuard.{is_no_bet}
use txodds_agent_desk.Wire.{verb, tok}
use txodds_agent_desk.Settlement.{
  SettleReply, verdict, settled, simulate_settlement, judge_wager, parse_wager, reply_to, on_wager,
  handle,
}

abbrev pub is_settled : SettleReply → Bool
is_settled (verdict wager_id settled reason tx_sig) = true
is_settled _ = false

-- A reference that is not the placeholder.
abbrev pub IsGiven : Text → Type 0
IsGiven proof_ref = (text_eq proof_ref (lit "none") || is_empty proof_ref) ≡ false

module _ {F : Type 0} ⦃d : Float F⦄ where
  -- What a wager must show to be settled.
  pub record IsSettleable (w : Wager F) (proof_ref : Text) : Type 0 where
    pub given : IsGiven proof_ref
    pub a_bet : is_no_bet w.status ≡ false
    pub edge_pos : d.le w.edge nought ≡ false
    pub stake_pos : d.le w.stake_sol nought ≡ false

  judge_wager_lem :
      (w : Wager F) (proof_ref : Text)
      → IsAscii proof_ref
      → Returns (judge_wager w proof_ref) λ r. (is_settled r ≡ true) ↔ IsSettleable w proof_ref
  unfolding judge_wager simulate_settlement
  judge_wager_lem w proof_ref ascii =
      let fits : min (byte_len proof_ref) 8 ≤ byte_len proof_ref = omega arith in
      elim (Option-cases (slice_to proof_ref (min (byte_len proof_ref) 8))) [
        | inl e ↦
            absurd (
              ground (arith, e, slice_to-IsAscii proof_ref (min (byte_len proof_ref) 8) ascii fits))
        | inr (shown, e) ↦ rw e (ground arith)
      ]

module _ {F : Type 0} ⦃d : Float F⦄ (from_str : Text → Option (Wager F)) where
  abbrev pub proof_ref_of : Text → Text
  proof_ref_of text = unwrap_or (tok text (lit "proofRef")) (lit "none")

  -- The mention asks for the settlement of a wager that can be settled.
  abbrev pub IsRequest : Text → Type 0
  IsRequest text =
      (text_eq (verb text) (lit "SETTLE_REQUESTED") ≡ true)
      × ((w : Wager F) × (parse_wager from_str text ≡ some w) × IsSettleable w (proof_ref_of text))

  on_wager_lem :
      (text : Text) (o : Option (Wager F))
      → IsAscii (proof_ref_of text)
      → Returns (on_wager from_str text o) λ r.
        (is_settled r ≡ true) ↔ ((w : Wager F) × (o ≡ some w) × IsSettleable w (proof_ref_of text))
  on_wager_lem text none ascii = (λ h. absurd cc, λ (w, e, s). absurd cc)
  on_wager_lem text (some w) ascii =
      Returns-map (judge_wager w (proof_ref_of text)) (judge_wager_lem w (proof_ref_of text) ascii)
        λ r h. (λ t. (w, refl, h.0 t), λ (v, e, s). h.1 (let same : v ≡ w = cc in rw (← same) s))

  -- On every mention whose proof reference is ASCII the settlement agent answers without a panic, and
  -- it answers that the wager is settled exactly if the mention has the verb, carries a wager that
  -- parses and is no no-bet, has an edge and a stake that are not at most zero, and has a proof
  -- reference other than the placeholder.
  pub reply_to-IsRequest :
      (text : Text)
      → IsAscii (proof_ref_of text)
      → Returns (reply_to from_str text) λ r. (is_settled r ≡ true) ↔ IsRequest text
  unfolding reply_to
  reply_to-IsRequest text ascii = elim (Bool-cases (text_eq (verb text) (lit "SETTLE_REQUESTED"))) [
    | inl t ↦ rw t (
        Returns-map (on_wager from_str text (parse_wager from_str text))
          (on_wager_lem text (parse_wager from_str text) ascii)
          λ r h. (λ k. (refl, h.0 k), λ (k, q). h.1 q))
    | inr t ↦ rw t (λ k. absurd cc, λ (k, q). absurd cc)
  ]

  -- A settleable wager whose proof reference has seven single bytes followed by a longer character gets
  -- no answer: the agent panics.
  pub handle-panics :
      (text : Text) (w : Wager F) (front : Text) (c : ℕ) (rest : Text)
      → text_eq (verb text) (lit "SETTLE_REQUESTED") ≡ true
      → parse_wager from_str text ≡ some w
      → proof_ref_of text ≡ front ++ c ∷ rest
      → IsAscii front
      → byte_len front ≡ 7
      → 0x80 ≤ c
      → IsSettleable w (front ++ c ∷ rest)
      → handle from_str text ≡ none
  unfolding handle reply_to judge_wager simulate_settlement
  handle-panics text w front c rest asked parsed ref ascii size wide s =
      let inside = slice_to-inside front c rest ascii wide in
      let at_limit : suc (byte_len front) ≡ 8 = omega arith in
      let none_there = rw at_limit at inside in
      let long : min (byte_len (front ++ c ∷ rest)) 8 ≡ 8 =
        omega (arith, byte_len-append front (c ∷ rest), byte_len-wide c rest wide, size) in
      rw (asked, parsed, ref, s.given, s.a_bet, s.edge_pos, s.stake_pos, long, none_there) refl
