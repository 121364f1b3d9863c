-- ===== src/Ledger/Sessions.antt =====
-- native/src/services/ledger/store.rs: list_arena_positions and list_arena_sessions. The orders of
-- SQLite's rows and the row that a `LIMIT 1` picks are parameters.
pub mod Status
use txodds_agent_desk.Prelude.{
  ℕ, suc, Bool, true, false, not, ◌&&◌, ◌||◌, Option, none, some, List, [], ◌∷◌, ◌++◌,
  if◌then◌else◌, ltb, ◌==◌, length, take, any, unwrap_or, is_some, map,
}
use txodds_agent_desk.Prelude.Int.{ℤ, pos, negsuc}
use txodds_agent_desk.Text.{Text, lit, text_eq}
use txodds_agent_desk.Decimal.{show_ℤ}
use txodds_agent_desk.Arena.{keep}
use txodds_agent_desk.Ledger.Backtests.{eq_ℤ}

pub record ArenaPositionRow (F : Type 0) : Type 0 where
  pub position_id : Text
  pub agent_id : Text
  pub strategy : Text
  pub fixture_id : ℤ
  pub market_key : Text
  pub selection : Text
  pub odds_at_entry : F
  pub odds_move_pct : F
  pub direction : Text
  pub confidence : F
  pub recorded_at : Text
  pub tx_signature : Option Text
  pub outcome_won : Option Bool
  pub outcome_pnl : Option F
  pub outcome_settled_at : Option Text

pub record ArenaSessionRow (F : Type 0) : Type 0 where
  pub session_id : Text
  pub fixture_id : ℤ
  pub fixture_name : Text
  pub positions : List (ArenaPositionRow F)
  pub status : Text
  pub started_at : Text
  pub ended_at : Option Text

pub record FixtureMeta : Type 0 where
  pub fixture_id : ℤ
  pub started_at : Text
  pub last_at : Text

-- `LIMIT`; a negative one is none.
abbrev pub limited {ℓ} : {A : Type ℓ} → ℤ → List A → List A
limited (pos n) rows = take n rows
limited (negsuc n) rows = rows

-- The order of UTF-8 texts.
unfoldable pub text_lt : Text → Text → Bool
text_lt _ [] = false
text_lt [] (_ ∷ _) = true
text_lt (a ∷ s) (b ∷ t) = ltb a b || a == b && text_lt s t

abbrev later : Text → Text → Text
later a b = if text_lt b a then a else b

abbrev earlier_text : Text → Text → Text
earlier_text a b = if text_lt b a then b else a

-- `filter_map(..).max()`
unfoldable pub latest : List (Option Text) → Option Text
unfolding text_lt
latest [] = none
latest (none ∷ ts) = latest ts
latest (some t ∷ ts) = elim (latest ts) [ none ↦ some t | some u ↦ some (later t u) ]

abbrev pub status_of_counts : ℕ → ℕ → Text
status_of_counts total settled_count =
    if total == 0 || settled_count == 0
    then lit "active"
    else if ltb settled_count total
    then lit "pending_settlement"
    else lit "settled"

module _ {F : Type 0} where
  abbrev pub is_settled : ArenaPositionRow F → Bool
  is_settled p = is_some p.outcome_won

  abbrev pub on_fixture : ℤ → ArenaPositionRow F → Bool
  on_fixture fixture_id p = eq_ℤ p.fixture_id fixture_id

  abbrev of_agent : Option Text → List (ArenaPositionRow F) → List (ArenaPositionRow F)
  of_agent none rows = rows
  of_agent (some agent_id) rows = keep (λ p. text_eq p.agent_id agent_id) rows

  -- `GROUP BY fixture_id` with `MIN` and `MAX` of the times.
  unfoldable pub enter_fixture : ArenaPositionRow F → List FixtureMeta → List FixtureMeta
  unfolding text_lt
  enter_fixture p [] =
      record { fixture_id = p.fixture_id; started_at = p.recorded_at; last_at = p.recorded_at } ∷ []
  enter_fixture p (m ∷ ms) =
      let entered = enter_fixture p ms in
      if eq_ℤ m.fixture_id p.fixture_id
      then record m {
        started_at = earlier_text m.started_at p.recorded_at;
        last_at = later m.last_at p.recorded_at;
      }
        ∷ ms
      else m ∷ entered

  unfoldable pub fixtures_of : List (ArenaPositionRow F) → List FixtureMeta
  unfolding enter_fixture
  fixtures_of [] = []
  fixtures_of (p ∷ ps) = enter_fixture p (fixtures_of ps)

  -- `newest_first` is `ORDER BY recorded_at DESC`.
  module _ (newest_first : List (ArenaPositionRow F) → List (ArenaPositionRow F))
      (latest_first : List FixtureMeta → List FixtureMeta) (signal_name : ℤ → Option Text) where
    unfoldable pub list_arena_positions :
        Option Text → ℤ → List (ArenaPositionRow F) → List (ArenaPositionRow F)
    list_arena_positions agent_id limit rows = limited limit (newest_first (of_agent agent_id rows))

    unfoldable pub session_of : List (ArenaPositionRow F) → FixtureMeta → ArenaSessionRow F
    unfolding list_arena_positions show_ℤ latest
    session_of rows meta =
        let positions =
          keep (on_fixture meta.fixture_id) (list_arena_positions none (pos 1000) rows) in
        record {
          session_id = lit "session:" ++ show_ℤ meta.fixture_id;
          fixture_id = meta.fixture_id;
          fixture_name =
              unwrap_or (signal_name meta.fixture_id) (lit "Fixture " ++ show_ℤ meta.fixture_id);
          positions = positions;
          status = status_of_counts (length positions) (length (keep is_settled positions));
          started_at = meta.started_at;
          ended_at = latest (map (λ p. p.outcome_settled_at) positions);
        }

    unfoldable pub list_arena_sessions : ℤ → List (ArenaPositionRow F) → List (ArenaSessionRow F)
    unfolding session_of fixtures_of
    list_arena_sessions limit rows =
        map (session_of rows) (limited limit (latest_first (fixtures_of rows)))
