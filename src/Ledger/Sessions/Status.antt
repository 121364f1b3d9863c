-- ===== src/Ledger/Sessions/Status.antt =====
-- The status of a session in list_arena_sessions of native/src/services/ledger/store.rs.
use txodds_agent_desk.Prelude.{
  ◌≤◌, ◌≡◌, refl, ap, Bool, false, not, Option, none, List, [], ◌∷◌, if◌then◌else◌, ltb, ◌==◌,
  length, take, any, all, map, arith,
}
use txodds_agent_desk.Prelude.Int.{ℤ}
use txodds_agent_desk.Text.{Text, lit}
use txodds_agent_desk.Arena.{keep}
use txodds_agent_desk.Ledger.Sessions.{
  ArenaPositionRow, FixtureMeta, is_settled, on_fixture, status_of_counts, list_arena_positions,
  session_of, latest,
}

module _ {ℓ} {A : Type ℓ} (p : A → Bool) where
  length-keep_le : (xs : List A) → length (keep p xs) ≤ length xs
  unfolding keep
  length-keep_le [] = omega arith
  length-keep_le (x ∷ xs) = ground (arith, length-keep_le xs)

  -- The count is zero exactly if none is kept, and the length exactly if all are.
  count-any : (xs : List A) → (length (keep p xs) == 0) ≡ not (any p xs)
  unfolding keep
  count-any [] = refl
  count-any (x ∷ xs) = ground (arith, count-any xs)

  count-all : (xs : List A) → ltb (length (keep p xs)) (length xs) ≡ not (all p xs)
  unfolding keep
  count-all [] = refl
  count-all (x ∷ xs) = ground (arith, count-all xs, length-keep_le xs)

  none_kept : (xs : List A) → any p xs ≡ false → keep p xs ≡ []
  unfolding keep
  none_kept [] h = refl
  none_kept (x ∷ xs) h = ground (arith, none_kept xs)

-- The status by what it means.
abbrev pub status_meant : {F : Type 0} → List (ArenaPositionRow F) → Text
status_meant ps =
    if not (any is_settled ps)
    then lit "active"
    else if all is_settled ps
    then lit "settled"
    else lit "pending_settlement"

status_of_counts-meant :
    {F : Type 0} (ps : List (ArenaPositionRow F))
    → status_of_counts (length ps) (length (keep is_settled ps)) ≡ status_meant ps
status_of_counts-meant [] = refl
status_of_counts-meant (p ∷ ps) =
    ground (arith, count-any is_settled (p ∷ ps), count-all is_settled (p ∷ ps))

module _ {F : Type 0} (newest_first : List (ArenaPositionRow F) → List (ArenaPositionRow F))
    (latest_first : List FixtureMeta → List FixtureMeta) (signal_name : ℤ → Option Text) where
  abbrev pub seen : List (ArenaPositionRow F) → FixtureMeta → List (ArenaPositionRow F)
  seen rows meta = keep (on_fixture meta.fixture_id) (take 1000 (newest_first rows))

  -- The status of a session tells whether none, some or all of its fixture's positions among the 1000
  -- newest of all fixtures have an outcome.
  pub session_of-status :
      (rows : List (ArenaPositionRow F)) (meta : FixtureMeta)
      → let session = session_of newest_first latest_first signal_name rows meta in
        (session.positions ≡ seen rows meta) × (session.status ≡ status_meant (seen rows meta))
  unfolding session_of list_arena_positions
  session_of-status rows meta = (refl, status_of_counts-meant (seen rows meta))

  -- A fixture with no position among the 1000 newest of all fixtures is reported as active, without
  -- positions and without an end, whatever the outcomes of its positions are.
  pub session_of-hidden :
      (rows : List (ArenaPositionRow F)) (meta : FixtureMeta)
      → any (on_fixture meta.fixture_id) (take 1000 (newest_first rows)) ≡ false
      → let session = session_of newest_first latest_first signal_name rows meta in
        (session.positions ≡ []) × (session.status ≡ lit "active") × (session.ended_at ≡ none)
  unfolding session_of list_arena_positions latest
  session_of-hidden rows meta h =
      let none_seen : seen rows meta ≡ [] =
        none_kept (on_fixture meta.fixture_id) (take 1000 (newest_first rows)) h in
      (
        none_seen,
        ap (λ ps. status_of_counts (length ps) (length (keep is_settled ps))) none_seen,
        ap (λ ps. latest (map (λ (p : ArenaPositionRow F). p.outcome_settled_at) ps)) none_seen,
      )
