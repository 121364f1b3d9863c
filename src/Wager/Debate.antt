-- ===== src/Wager/Debate.antt =====
-- push_debate and next_debate_round of crates/txodds-types/src/wager.rs, over a whole debate.
use txodds_agent_desk.Prelude.{ℕ, ◌≤◌, List, [], ◌∷◌, ◌++◌, max, arith}
use txodds_agent_desk.Wager.{DebateContribution, Wager, push_debate, debate_or_empty}

module _ {F : Type 0} where
  abbrev pub rounds : Wager F → ℕ
  rounds w = (debate_or_empty w.debate).rounds

  -- Every recorded contribution stands at most at the round of the summary.
  abbrev pub RoundsWithin : ℕ → List (DebateContribution F) → Type 0
  RoundsWithin n [] = Unit
  RoundsWithin n (c ∷ cs) = (c.round ≤ n) × RoundsWithin n cs

  abbrev pub contributions : Wager F → List (DebateContribution F)
  contributions w = (debate_or_empty w.debate).contributions

  -- The invariant of a transcript.
  abbrev pub IsTracked : Wager F → Type 0
  IsTracked w = RoundsWithin (rounds w) (contributions w)

  RoundsWithin-push :
      (n : ℕ) (c : DebateContribution F) (cs : List (DebateContribution F))
      → RoundsWithin n cs
      → RoundsWithin (max n c.round) (cs ++ c ∷ [])
  RoundsWithin-push n c [] h = omega arith
  RoundsWithin-push n c (x ∷ cs) h = (omega arith, RoundsWithin-push n c cs h.1)

  unfoldable pub push_debate_all : Wager F → List (DebateContribution F) → Wager F
  push_debate_all w [] = w
  push_debate_all w (c ∷ cs) = push_debate_all (push_debate w c) cs

  pub push_debate-IsTracked :
      (w : Wager F) (c : DebateContribution F) → IsTracked w → IsTracked (push_debate w c)
  unfolding push_debate
  push_debate-IsTracked w c h = RoundsWithin-push (rounds w) c (contributions w) h
