-- ===== src/GuardAgent/Reply.antt =====
-- guard_handle of crates/agents/proof-guard-agent/src/main.rs: which wagers it answers with a pass.
use txodds_agent_desk.Prelude.{
  Returns-map, ℕ, ◌≡◌, ◌↔◌, ◌⊎◌, refl, Bool, true, false, ◌||◌, Option, none, some, inl, inr,
  Bool-cases, Returns, arith, Returns->>=,
}
use txodds_agent_desk.Text.{Text, lit, text_eq}
use txodds_agent_desk.Float.{Float, nought}
use txodds_agent_desk.Wager.{Wager}
use txodds_agent_desk.ProofGuard.{ProofGuardConfig, ProofGuardVerdict, is_no_bet, verify}
use txodds_agent_desk.ProofGuard.Checks.{IsSound, IsAttested, IsAsciiRef}
use txodds_agent_desk.ProofGuard.Verdict.{HasStake, Passed, Vetoed, verify-stake}
use txodds_agent_desk.Settlement.{parse_wager}
use txodds_agent_desk.Wire.{verb}
use txodds_agent_desk.GuardAgent.{GuardReply, judged, on_wager, guard_reply_to}

module _ {F : Type 0} where
  abbrev pub is_pass : GuardReply F → Bool
  is_pass (judged round v) = v.passed
  is_pass _ = false

  abbrev pub RefIsAscii : Option (Wager F) → Type 0
  RefIsAscii none = Unit
  RefIsAscii (some w) = IsAsciiRef w.proof_ref

module _ {F : Type 0} ⦃d : Float F⦄ (cfg : ProofGuardConfig F) where
  -- A no-bet, a wager whose stake is at most zero, or a sound and attested one.
  abbrev pub IsPassable : Wager F → Type 0
  IsPassable w =
      ((is_no_bet w.status || d.le w.stake_sol nought) ≡ true)
      ⊎ (IsSound cfg w × IsAttested w.proof_ref)

  verify-IsPassable :
      (debug : Text → Text) (w : Wager F)
      → IsAsciiRef w.proof_ref
      → Returns (verify debug w w.proof_ref cfg) λ v. (v.passed ≡ true) ↔ IsPassable w
  unfolding verify
  verify-IsPassable debug w ascii =
      elim (Bool-cases (is_no_bet w.status || d.le w.stake_sol nought)) [
        | inl t ↦ rw t (λ h. inl refl, λ h. refl)
        | inr staked ↦
            Returns-map (verify debug w w.proof_ref cfg)
              (verify-stake debug w w.proof_ref cfg staked ascii) λ v. passable v staked
      ]
    where
      passable :
          (v : ProofGuardVerdict F)
          → HasStake w
          → Passed cfg w w.proof_ref v ⊎ Vetoed cfg w w.proof_ref v
          → (v.passed ≡ true) ↔ IsPassable w
      passable v staked (inl p) = (λ h. inr (p.sound, p.attested), λ h. p.passed_true)
      passable v staked (inr n) = (
        λ h. absurd (ground (arith, n.passed_false)),
        λ h. elim h [
          | inl none_staked ↦ absurd (ground (arith, staked, none_staked))
          | inr good ↦ absurd (n.unsound good)
        ],
      )

module _ {F : Type 0} ⦃d : Float F⦄ (from_str : Text → Option (Wager F))
    (to_string : Wager F → Text) (round_of : Text → ℕ) (debug : Text → Text)
    (cfg : ProofGuardConfig F) where
  -- The mention asks for the proof of a wager that passes.
  abbrev pub IsProofRequest : Text → Type 0
  IsProofRequest text =
      (text_eq (verb text) (lit "WAGER_PROOF_REQUESTED") ≡ true)
      × ((w : Wager F) × (parse_wager from_str text ≡ some w) × IsPassable cfg w)

  on_wager_lem :
      (text : Text) (o : Option (Wager F))
      → RefIsAscii o
      → Returns
          (on_wager from_str to_string round_of debug cfg text o)
          λ r. (is_pass r ≡ true) ↔ ((w : Wager F) × (o ≡ some w) × IsPassable cfg w)
  on_wager_lem text none ascii = (λ h. absurd cc, λ (w, e, s). absurd cc)
  on_wager_lem text (some w) ascii =
      Returns->>= (λ v. (v.passed ≡ true) ↔ IsPassable cfg w) _ (verify debug w w.proof_ref cfg) _
        (verify-IsPassable cfg debug w ascii)
        λ v h. (λ t. (w, refl, h.0 t), λ (x, e, s). h.1 (let same : x ≡ w = cc in rw (← same) s))

  -- On every mention whose wager's reference, if any, is ASCII the proof guard agent answers without a
  -- panic, and it answers a pass exactly if the mention has the verb and carries a wager that parses
  -- and is a no-bet, or has a stake of at most zero, or is sound and attested by its own reference. A
  -- wager that calls itself a no-bet passes with any stake.
  pub guard_reply_to-IsProofRequest :
      (text : Text)
      → RefIsAscii (parse_wager from_str text)
      → Returns
          (guard_reply_to from_str to_string round_of debug cfg text)
          λ r. (is_pass r ≡ true) ↔ IsProofRequest text
  unfolding guard_reply_to
  guard_reply_to-IsProofRequest text ascii =
      elim (Bool-cases (text_eq (verb text) (lit "WAGER_PROOF_REQUESTED"))) [
        | inl t ↦ rw t (
            Returns-map
              (on_wager from_str to_string round_of debug cfg text (parse_wager from_str text))
              (on_wager_lem text (parse_wager from_str text) ascii)
              λ r h. (λ k. (refl, h.0 k), λ (k, q). h.1 q))
        | inr t ↦ rw t (λ k. absurd cc, λ (k, q). absurd cc)
      ]
