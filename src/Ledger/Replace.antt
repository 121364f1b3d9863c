-- ===== src/Ledger/Replace.antt =====
-- What replace_backtest_settlements of native/src/services/ledger/store.rs leaves in its table.
use txodds_agent_desk.Prelude.{
  ◌≡◌, refl, sym, ap, ◌∙◌, ◌⊎◌, Bool, true, false, Option, none, some, List, [], ◌∷◌, ◌++◌, arith,
  Option-cases, Bool-cases, inl, inr, append_assoc, append-nil, ◌>>=◌,
}
use mathlib.Core.Path.{subst}
use txodds_agent_desk.Prelude.Int.{ℤ, pos, negsuc}
use txodds_agent_desk.Text.{Text}
use txodds_agent_desk.Float.{Float}
use txodds_agent_desk.Arena.{ArenaPosition, PositionOutcome, keep}
use txodds_agent_desk.Ledger.Table.{IsKeyed, has_key, insert_row}
use txodds_agent_desk.Ledger.Keys.{insert_row-IsKeyed}
use txodds_agent_desk.Ledger.Backtests.{
  BacktestSettlementRow, eq_ℤ, Commit, committed, rolled_back, position_key, other_fixture,
  settlement_row, has_null, insert_one, insert_settled, finish, replace_backtest_settlements,
}

eq_ℤ_refl : (n : ℤ) → eq_ℤ n n ≡ true
eq_ℤ_refl (pos n) = ground arith
eq_ℤ_refl (negsuc n) = ground arith

module _ {ℓ} {R : Type ℓ} where
  pub keep-append : (p : R → Bool) (rs ss : List R) → keep p (rs ++ ss) ≡ keep p rs ++ keep p ss
  unfolding keep
  keep-append p [] ss = refl
  keep-append p (r ∷ rs) ss = ground (arith, keep-append p rs ss)

  pub keep_twice : (p : R → Bool) (rs : List R) → keep p (keep p rs) ≡ keep p rs
  unfolding keep
  keep_twice p [] = refl
  keep_twice p (r ∷ rs) = ground (arith, keep_twice p rs)

  has_key-keep :
      (key : R → Text) (p : R → Bool) (k : Text) (rs : List R)
      → has_key key k rs ≡ false
      → has_key key k (keep p rs) ≡ false
  unfolding keep
  has_key-keep key p k [] h = refl
  has_key-keep key p k (r ∷ rs) h = ground (arith, has_key-keep key p k rs)

  keep-IsKeyed :
      (key : R → Text) (p : R → Bool) (rs : List R) → IsKeyed key rs → IsKeyed key (keep p rs)
  unfolding keep
  keep-IsKeyed key p [] h = tt
  keep-IsKeyed key p (r ∷ rs) (h, hs) =
      ground (arith, has_key-keep key p (key r) rs h, keep-IsKeyed key p rs hs)

module _ {F : Type 0} ⦃d : Float F⦄ (fixture_id : ℤ) (home away : Text) where
  abbrev row_of : ArenaPosition F → Option (PositionOutcome F) → List (BacktestSettlementRow F)
  row_of p none = []
  row_of p (some outcome) = settlement_row fixture_id home away p outcome ∷ []

  -- The rows of the settled positions, in order.
  abbrev pub settled_rows : List (ArenaPosition F) → List (BacktestSettlementRow F)
  settled_rows [] = []
  settled_rows (p ∷ ps) = row_of p p.outcome ++ settled_rows ps

  insert_row-some :
      (row : BacktestSettlementRow F) (rows new : List (BacktestSettlementRow F))
      → insert_row position_key row rows ≡ some new
      → new ≡ rows ++ row ∷ []
  unfolding insert_row
  insert_row-some row rows new e = ground arith

  insert_one-rows :
      (p : ArenaPosition F) (o : Option (PositionOutcome F))
      (rows new : List (BacktestSettlementRow F))
      → IsKeyed position_key rows
      → insert_one fixture_id home away p o rows ≡ some new
      → (new ≡ rows ++ row_of p o) × IsKeyed position_key new
  insert_one-rows p none rows new h e =
      let same : rows ≡ new = ground arith in
      (sym same ∙ sym (append-nil rows), subst (IsKeyed position_key) same h)
  insert_one-rows p (some outcome) rows new h e =
      let row : BacktestSettlementRow F = settlement_row fixture_id home away p outcome in
      elim (Bool-cases (has_null row)) [
        | inl f ↦ absurd (ground (arith, f))
        | inr f ↦
            let inserted : insert_row position_key row rows ≡ some new = rw f at e in
            (
              insert_row-some row rows new inserted,
              insert_row-IsKeyed position_key row rows new h inserted,
            )
      ]

  insert_settled-rows :
      (ps : List (ArenaPosition F)) (rows new : List (BacktestSettlementRow F))
      → IsKeyed position_key rows
      → insert_settled fixture_id home away ps rows ≡ some new
      → (new ≡ rows ++ settled_rows ps) × IsKeyed position_key new
  unfolding insert_settled
  insert_settled-rows [] rows new h e =
      let same : rows ≡ new = ground arith in
      (sym same ∙ sym (append-nil rows), subst (IsKeyed position_key) same h)
  insert_settled-rows (p ∷ ps) rows new h e =
      elim (Option-cases (insert_one fixture_id home away p p.outcome rows)) [
        | inl f ↦ absurd (cc f)
        | inr (mid, f) ↦
            let (q, k) = insert_one-rows p p.outcome rows mid h f in
            let (q', k') =
              insert_settled-rows ps mid new k
                (sym (ap (λ m. m >>= insert_settled fixture_id home away ps) f) ∙ e) in
            (
              q'
                  ∙ ap (λ r. r ++ settled_rows ps) q
                  ∙ append_assoc rows (row_of p p.outcome) (settled_rows ps),
              k',
            )
      ]

  none_kept-row :
      (p : ArenaPosition F) (o : Option (PositionOutcome F))
      → keep (other_fixture fixture_id) (row_of p o) ≡ []
  unfolding keep settlement_row
  none_kept-row p none = refl
  none_kept-row p (some outcome) = ground (arith, eq_ℤ_refl fixture_id)

  none_kept : (ps : List (ArenaPosition F)) → keep (other_fixture fixture_id) (settled_rows ps) ≡ []
  unfolding keep
  none_kept [] = refl
  none_kept (p ∷ ps) =
      keep-append (other_fixture fixture_id) (row_of p p.outcome) (settled_rows ps)
      ∙ ap (λ r. r ++ keep (other_fixture fixture_id) (settled_rows ps)) (none_kept-row p p.outcome)
      ∙ none_kept ps

  -- What stays of a table whose rows of this fixture were replaced.
  keep-replaced :
      (ps : List (ArenaPosition F)) (rows : List (BacktestSettlementRow F))
      → let others = keep (other_fixture fixture_id) rows in
        keep (other_fixture fixture_id) (others ++ settled_rows ps) ≡ others
  keep-replaced ps rows =
      let others : List (BacktestSettlementRow F) = keep (other_fixture fixture_id) rows in
      keep-append (other_fixture fixture_id) others (settled_rows ps)
      ∙ ap (λ r. keep (other_fixture fixture_id) others ++ r) (none_kept ps)
      ∙ append-nil (keep (other_fixture fixture_id) others)
      ∙ keep_twice (other_fixture fixture_id) rows

  -- How the transaction may end on a table.
  abbrev pub IsReplaced :
      List (ArenaPosition F)
      → List (BacktestSettlementRow F)
      → Commit × List (BacktestSettlementRow F)
      → Type 0
  IsReplaced ps rows (end, new) =
      ((end ≡ committed)
        × (new ≡ keep (other_fixture fixture_id) rows ++ settled_rows ps)
        × IsKeyed position_key new
        × (replace_backtest_settlements fixture_id home away ps new ≡ (committed, new)))
      ⊎ ((end ≡ rolled_back) × (new ≡ rows))

  run_again :
      (ps : List (ArenaPosition F)) (rows new : List (BacktestSettlementRow F))
      → insert_settled fixture_id home away ps (keep (other_fixture fixture_id) rows) ≡ some new
      → new ≡ keep (other_fixture fixture_id) rows ++ settled_rows ps
      → replace_backtest_settlements fixture_id home away ps new ≡ (committed, new)
  unfolding replace_backtest_settlements
  run_again ps rows new e q =
      ap (λ r. finish new (insert_settled fixture_id home away ps r))
        (ap (keep (other_fixture fixture_id)) q ∙ keep-replaced ps rows)
      ∙ ap (finish new) e

  finish-IsReplaced :
      (ps : List (ArenaPosition F)) (rows : List (BacktestSettlementRow F))
      (o : Option (List (BacktestSettlementRow F)))
      → IsKeyed position_key rows
      → insert_settled fixture_id home away ps (keep (other_fixture fixture_id) rows) ≡ o
      → IsReplaced ps rows (finish rows o)
  finish-IsReplaced ps rows none h e = inr (refl, refl)
  finish-IsReplaced ps rows (some new) h e =
      let (q, k) =
        insert_settled-rows ps (keep (other_fixture fixture_id) rows) new
          (keep-IsKeyed position_key (other_fixture fixture_id) rows h) e in
      inl (refl, q, k, run_again ps rows new e q)

  -- The transaction of a replay is atomic: it commits, and then the table holds the other fixtures' rows
  -- as they were and after them the rows of the settled positions, with each position at most once, and
  -- running it again changes nothing; or it rolls back and the table is as before.
  pub replace_backtest_settlements-IsReplaced :
      (ps : List (ArenaPosition F)) (rows : List (BacktestSettlementRow F))
      → IsKeyed position_key rows
      → IsReplaced ps rows (replace_backtest_settlements fixture_id home away ps rows)
  unfolding replace_backtest_settlements
  replace_backtest_settlements-IsReplaced ps rows h =
      finish-IsReplaced ps rows
        (insert_settled fixture_id home away ps (keep (other_fixture fixture_id) rows)) h refl
