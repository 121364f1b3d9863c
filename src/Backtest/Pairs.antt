-- ===== src/Backtest/Pairs.antt =====
-- The pair of positions that a signal of native/src/services/backtest.rs puts.
use txodds_agent_desk.Prelude.{
  ℕ, ◌+◌, ◌≡◌, refl, ap, ◌∙◌, Bool, true, false, List, [], ◌∷◌, ◌++◌, arith, length, length-append,
  inl, inr, Bool-cases,
}
use txodds_agent_desk.Prelude.Int.{ℤ}
use txodds_agent_desk.Text.{Text, lit, text_eq}
use txodds_agent_desk.Float.{Float}
use txodds_agent_desk.Arena.{ArenaPosition, keep, is_settled_of, has_won, follow_sharp, fade_sharp}
use txodds_agent_desk.Arena.Leaderboard.{keep-append, settled_of}
use txodds_agent_desk.Autonomous.{OddsTick}
use txodds_agent_desk.Backtest.{
  MovementResult, follow_agent, fade_agent, settle_position, position_on, eq_ignore_ascii_case,
  follow_direction, fade_direction,
}

module _ {F : Type 0} where
  abbrev pub won_of : Text → List (ArenaPosition F) → ℕ
  won_of agent_id ps = length (keep has_won (keep (is_settled_of agent_id) ps))

  -- Each signal has put one settled position of each agent, and one of the two has won.
  pub record IsPaired (ps : List (ArenaPosition F)) (n : ℕ) : Type 0 where
    pub follows : settled_of follow_agent ps ≡ n
    pub fades : settled_of fade_agent ps ≡ n
    pub winners : won_of follow_agent ps + won_of fade_agent ps ≡ n

  settled_of-append :
      (a : Text) (xs ys : List (ArenaPosition F))
      → settled_of a (xs ++ ys) ≡ settled_of a xs + settled_of a ys
  settled_of-append a xs ys = ap length (keep-append (is_settled_of a) xs ys) ∙ length-append _ _

  won_of-append :
      (a : Text) (xs ys : List (ArenaPosition F)) → won_of a (xs ++ ys) ≡ won_of a xs + won_of a ys
  won_of-append a xs ys =
      ap (λ l. length (keep has_won l)) (keep-append (is_settled_of a) xs ys)
      ∙ ap length (keep-append has_won (keep (is_settled_of a) xs) (keep (is_settled_of a) ys))
      ∙ length-append _ _

  pub IsPaired-append :
      (ps pair : List (ArenaPosition F)) (n : ℕ)
      → IsPaired ps n
      → IsPaired pair 1
      → IsPaired (ps ++ pair) (n + 1)
  IsPaired-append ps pair n h k = record {
    follows = omega (arith, settled_of-append follow_agent ps pair, h.follows, k.follows);
    fades = omega (arith, settled_of-append fade_agent ps pair, h.fades, k.fades);
    winners = omega (
      arith,
      won_of-append follow_agent ps pair,
      won_of-append fade_agent ps pair,
      h.winners,
      k.winners,
    );
  }

module _ {F : Type 0} ⦃d : Float F⦄ (threshold_pct : F) (uuid now : ℕ → Text) (ts_to_iso : ℤ → Text)
    (fixture_id : ℕ) (winner final_score : Text) where
  abbrev pub the_pair : OddsTick F → MovementResult F → Bool → ℕ → List (ArenaPosition F)
  the_pair tick movement shortened n =
      position_on threshold_pct uuid now ts_to_iso fixture_id winner final_score tick movement
        follow_agent follow_sharp (follow_direction shortened) n
      ∷ position_on threshold_pct uuid now ts_to_iso fixture_id winner final_score tick movement
          fade_agent fade_sharp (fade_direction shortened) (n + 1)
      ∷ []

  pub the_pair-IsPaired :
      (tick : OddsTick F) (movement : MovementResult F) (shortened : Bool) (n : ℕ)
      → IsPaired (the_pair tick movement shortened n) 1
  unfolding keep settle_position text_eq lit
  the_pair-IsPaired tick movement true n =
      elim (Bool-cases (eq_ignore_ascii_case winner tick.outcome)) [
        | inl t ↦ record { follows = refl; fades = refl; winners = rw t refl }
        | inr t ↦ record { follows = refl; fades = refl; winners = rw t refl }
      ]
  the_pair-IsPaired tick movement false n =
      elim (Bool-cases (eq_ignore_ascii_case winner tick.outcome)) [
        | inl t ↦ record { follows = refl; fades = refl; winners = rw t refl }
        | inr t ↦ record { follows = refl; fades = refl; winners = rw t refl }
      ]
