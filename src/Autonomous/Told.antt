-- ===== src/Autonomous/Told.antt =====
-- The event of a round that native/src/services/autonomous.rs triggers.
use txodds_agent_desk.Prelude.{ℕ, ◌≡◌, refl, none, some, List, [], ◌∷◌, ◌++◌, if◌then◌else◌, map}
use txodds_agent_desk.Prelude.Int.{ℤ}
use txodds_agent_desk.Text.{Text, lit}
use txodds_agent_desk.Float.{Float}
use txodds_agent_desk.Event.{TxLineEvent, OddsQuote, odds_move}
use txodds_agent_desk.Autonomous.{Quote, Move, LiveFixture, move_event, quote_of}

module _ {F : Type 0} ⦃d : Float F⦄ (ts_to_iso : ℤ → Text) where
  -- The quotes of an event are those of the map, in its order, each with the inverse of its odds.
  abbrev pub ListsQuotes : ℕ → List (Quote F) → List (OddsQuote F) → Type 0
  ListsQuotes fixture_id [] [] = Unit
  ListsQuotes fixture_id [] (_ ∷ _) = ⊥
  ListsQuotes fixture_id (_ ∷ _) [] = ⊥
  ListsQuotes fixture_id ((name, (ts, decimal)) ∷ rest) (q ∷ qs) =
      (q ≡ record {
        fixture_id = fixture_id;
        outcome = name;
        decimal = decimal;
        implied_probability =
            if d.lt (d.dec 0 1) decimal then d.div (d.dec 1 1) decimal else d.dec 0 1;
        source = some (lit "autonomous-loop");
        ts = ts_to_iso ts;
      })
      × ListsQuotes fixture_id rest qs

  -- The event of a round tells of a move, gives the quotes and brings no score and no proof.
  pub record IsTold (fixture : LiveFixture) (quotes : List (Quote F)) (m : Move F)
      (event : TxLineEvent F) : Type 0 where
    pub is_odds_move : event.kind ≡ odds_move
    pub same_fixture : event.fixture_id ≡ fixture.fixture_id
    pub body_tells :
        event.body
        ≡ lit "Autonomous trigger: "
          ++ (m.outcome
              ++ (lit " odds moved "
                  ++ (d.show_fixed 1 m.pct
                      ++ (lit "% ("
                          ++ (d.show_fixed 2 m.previous
                              ++ (lit " → " ++ (d.show_fixed 2 m.current ++ lit ")")))))))
    pub listed : List (OddsQuote F)
    pub odds_listed : event.odds ≡ some listed
    pub lists : ListsQuotes fixture.fixture_id quotes listed
    pub no_score : event.score ≡ none
    pub no_proof : event.proof ≡ none

  map-ListsQuotes :
      (fixture_id : ℕ) (quotes : List (Quote F))
      → ListsQuotes fixture_id quotes (map (quote_of ts_to_iso fixture_id) quotes)
  map-ListsQuotes fixture_id [] = tt
  map-ListsQuotes fixture_id (q ∷ quotes) = (refl, map-ListsQuotes fixture_id quotes)

  pub move_event-IsTold :
      (id_time ts_time : Text) (fixture : LiveFixture) (quotes : List (Quote F)) (m : Move F)
      → IsTold fixture quotes m (move_event ts_to_iso id_time ts_time fixture quotes m)
  unfolding move_event
  move_event-IsTold id_time ts_time fixture quotes m = record {
    is_odds_move = refl;
    same_fixture = refl;
    body_tells = refl;
    listed = map (quote_of ts_to_iso fixture.fixture_id) quotes;
    odds_listed = refl;
    lists = map-ListsQuotes fixture.fixture_id quotes;
    no_score = refl;
    no_proof = refl;
  }
