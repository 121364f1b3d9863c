-- ===== src/Arena/Leaderboard.antt =====
-- from_positions of crates/agent-core/src/arena.rs: what counts in a leaderboard entry.
use txodds_agent_desk.Prelude.{
  ℕ, ◌+◌, ◌^◌, ◌≤◌, ◌<◌, ◌≡◌, refl, Bool, true, List, [], ◌∷◌, ◌++◌, length, arith, length-append,
}
use txodds_agent_desk.Text.{Text, text_eq}
use txodds_agent_desk.Float.{Float}
use txodds_agent_desk.Arena.{Strategy, ArenaPosition, keep, is_settled_of, has_won, from_positions}

module _ {A : Type 0} where
  pub length-keep : (p : A → Bool) (xs : List A) → length (keep p xs) ≤ length xs
  unfolding keep
  length-keep p [] = omega arith
  length-keep p (x ∷ xs) = ground (arith, length-keep p xs)

  keep-keep :
      (p q : A → Bool) (xs : List A)
      → ((x : A) → p x ≡ true → q x ≡ true)
      → keep p (keep q xs) ≡ keep p xs
  unfolding keep
  keep-keep p q [] h = refl
  keep-keep p q (x ∷ xs) h = ground (arith, keep-keep p q xs h, h x)

  pub keep-append : (p : A → Bool) (xs ys : List A) → keep p (xs ++ ys) ≡ keep p xs ++ keep p ys
  unfolding keep
  keep-append p [] ys = refl
  keep-append p (x ∷ xs) ys = ground (arith, keep-append p xs ys)

module _ {F : Type 0} where
  -- The settled positions of the agent.
  abbrev pub settled_of : Text → List (ArenaPosition F) → ℕ
  settled_of agent_id positions = length (keep (is_settled_of agent_id) positions)

  abbrev pub is_of : Text → ArenaPosition F → Bool
  is_of agent_id p = text_eq p.agent_id agent_id

module _ {F : Type 0} ⦃d : Float F⦄ where
  -- Of fewer than 2^32 settled positions none is lost in the counts: all are counted as taken, at
  -- most as many as won, and the two counts of two lists of positions add up.
  pub from_positions-append :
      (agent_id : Text) (strategy : Strategy) (xs ys : List (ArenaPosition F))
      → settled_of agent_id xs + settled_of agent_id ys < 2 ^ 32
      → let whole = from_positions agent_id strategy (xs ++ ys) in
        let front = from_positions agent_id strategy xs in
        let back = from_positions agent_id strategy ys in
        (whole.positions_taken ≡ settled_of agent_id xs + settled_of agent_id ys)
        × (whole.positions_taken ≡ front.positions_taken + back.positions_taken)
        × (whole.positions_won ≡ front.positions_won + back.positions_won)
        × (whole.positions_won ≤ whole.positions_taken)
  unfolding from_positions
  from_positions-append agent_id strategy xs ys fits =
      let kx = keep (is_settled_of agent_id) xs in
      let ky = keep (is_settled_of agent_id) ys in
      rw
        (
          keep-append (is_settled_of agent_id) xs ys,
          keep-append has_won kx ky,
          length-append kx ky,
          length-append (keep has_won kx) (keep has_won ky),
        )
        (omega (arith, length-keep has_won kx, length-keep has_won ky))

  -- Other agents' positions, settled or not, change nothing in an agent's entry.
  pub from_positions-others :
      (agent_id : Text) (strategy : Strategy) (positions : List (ArenaPosition F))
      → from_positions agent_id strategy (keep (is_of agent_id) positions)
        ≡ from_positions agent_id strategy positions
  unfolding from_positions
  from_positions-others agent_id strategy positions =
      rw (keep-keep (is_settled_of agent_id) (is_of agent_id) positions λ p h. ground arith) refl
