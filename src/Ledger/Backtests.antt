-- ===== src/Ledger/Backtests.antt =====
-- native/src/services/ledger/store.rs: replace_backtest_settlements and list_backtest_settlements. The
-- order that SQLite gives to rows of one time is a parameter.
use txodds_agent_desk.Prelude.{
  Bool, false, not, ◌||◌, Option, none, some, List, [], ◌∷◌, if◌then◌else◌, ◌>>=◌, ◌==◌,
}
use txodds_agent_desk.Prelude.Int.{ℤ, pos, negsuc}
use txodds_agent_desk.Text.{Text, lit}
use txodds_agent_desk.Arena.{
  ArenaPosition, PositionOutcome, Strategy, follow_sharp, fade_sharp, PositionDirection, with,
  against, keep,
}
use txodds_agent_desk.Float.{Float}
use txodds_agent_desk.Ledger.Table.{insert_row}

pub record BacktestSettlementRow (F : Type 0) : Type 0 where
  pub position_id : Text
  pub fixture_id : ℤ
  pub fixture_home : Text
  pub fixture_away : Text
  pub agent_id : Text
  pub strategy : Text
  pub market_key : Text
  pub selection : Text
  pub direction : Text
  pub odds_at_entry : F
  pub odds_move_pct : F
  pub confidence : F
  pub result : Text
  pub pnl_units : F
  pub final_score : Text
  pub recorded_at : Text
  pub settled_at : Text

abbrev pub eq_ℤ : ℤ → ℤ → Bool
eq_ℤ (pos a) (pos b) = a == b
eq_ℤ (pos _) (negsuc _) = false
eq_ℤ (negsuc _) (pos _) = false
eq_ℤ (negsuc a) (negsuc b) = a == b

unfoldable pub strategy_debug : Strategy → Text
strategy_debug follow_sharp = lit "FollowSharp"
strategy_debug fade_sharp = lit "FadeSharp"

unfoldable pub direction_debug : PositionDirection → Text
direction_debug with = lit "With"
direction_debug against = lit "Against"

-- How a transaction ends.
pub data Commit : Type 0 where
  committed rolled_back : Commit

module _ {F : Type 0} where
  abbrev pub position_key : BacktestSettlementRow F → Text
  position_key r = r.position_id

  -- `WHERE fixture_id = ?1`
  abbrev pub of_fixture : ℤ → BacktestSettlementRow F → Bool
  of_fixture fixture_id r = eq_ℤ r.fixture_id fixture_id

  abbrev pub other_fixture : ℤ → BacktestSettlementRow F → Bool
  other_fixture fixture_id r = not (of_fixture fixture_id r)

  -- The transaction, on the rows that it sees and the rows to return to.
  abbrev pub finish :
      List (BacktestSettlementRow F)
      → Option (List (BacktestSettlementRow F))
      → Commit × List (BacktestSettlementRow F)
  finish before none = (rolled_back, before)
  finish before (some rows) = (committed, rows)

  module _ (fixture_id : ℤ) (home away : Text) where
    unfoldable pub settlement_row : ArenaPosition F → PositionOutcome F → BacktestSettlementRow F
    unfolding strategy_debug direction_debug
    settlement_row position outcome = record {
      position_id = position.position_id;
      fixture_id = fixture_id;
      fixture_home = home;
      fixture_away = away;
      agent_id = position.agent_id;
      strategy = strategy_debug position.strategy;
      market_key = position.market_key;
      selection = position.selection;
      direction = direction_debug position.direction;
      odds_at_entry = position.odds_at_entry;
      odds_move_pct = position.odds_move_pct;
      confidence = position.confidence;
      result = if outcome.selection_won then lit "win" else lit "loss";
      pnl_units = outcome.pnl_points;
      final_score = outcome.final_score;
      recorded_at = position.recorded_at;
      settled_at = outcome.settled_at;
    }

  -- SQLite stores a NaN as NULL, which the REAL columns do not take; its texts are never NULL.
  abbrev pub is_null : ⦃d : Float F⦄ → F → Bool
  is_null ⦃d⦄ x = not (d.le x x)

  abbrev pub has_null : ⦃d : Float F⦄ → BacktestSettlementRow F → Bool
  has_null r =
      is_null r.odds_at_entry
      || (is_null r.odds_move_pct || (is_null r.confidence || is_null r.pnl_units))

  module _ ⦃d : Float F⦄ (fixture_id : ℤ) (home away : Text) where
    -- One turn of the loop over the positions, and the loop; `none` is an error of a statement.
    abbrev pub insert_one :
        ArenaPosition F
        → Option (PositionOutcome F)
        → List (BacktestSettlementRow F)
        → Option (List (BacktestSettlementRow F))
    insert_one p none rows = some rows
    insert_one p (some outcome) rows =
        let row = settlement_row fixture_id home away p outcome in
        if has_null row then none else insert_row position_key row rows

    unfoldable pub insert_settled :
        List (ArenaPosition F)
        → List (BacktestSettlementRow F)
        → Option (List (BacktestSettlementRow F))
    unfolding insert_row settlement_row
    insert_settled [] rows = some rows
    insert_settled (p ∷ ps) rows = insert_one p p.outcome rows >>= insert_settled ps

    unfoldable pub replace_backtest_settlements :
        List (ArenaPosition F)
        → List (BacktestSettlementRow F)
        → Commit × List (BacktestSettlementRow F)
    unfolding insert_settled
    replace_backtest_settlements positions rows =
        finish rows (insert_settled positions (keep (other_fixture fixture_id) rows))

  abbrev keep_fixture : Option ℤ → List (BacktestSettlementRow F) → List (BacktestSettlementRow F)
  keep_fixture none rows = rows
  keep_fixture (some fixture_id) rows = keep (of_fixture fixture_id) rows

  unfoldable pub list_backtest_settlements :
      (List (BacktestSettlementRow F) → List (BacktestSettlementRow F))
      → Option ℤ
      → List (BacktestSettlementRow F)
      → List (BacktestSettlementRow F)
  list_backtest_settlements oldest_first fixture_id rows =
      oldest_first (keep_fixture fixture_id rows)
