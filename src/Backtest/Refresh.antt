-- ===== src/Backtest/Refresh.antt =====
-- backend/app/services/backtester/population.py: what a second population changes.
use betpulse.Prelude.{
  ℕ, ◌≡◌, refl, ◌∙◌, subst, true, false, Option, none, some, List, [], ◌∷◌, ◌==◌, is_some,
  update_where, arith, if_cases, Bool-cases, inl, inr,
}
use betpulse.Ingest.Model.{League, Team, Fixture, Tables, fixture_of}
use betpulse.Backtest.Model.{Prices, Asof, BacktestFeature}
use betpulse.Backtest.Population.{
  Store, is_row_of, row_of, refreshed, upsert, upsert_named, upsert_scored, upsert_fixture,
  populate_all, populate_backtest_features, league_of, team_of,
}

-- The part of a row that says what the match was: the league, the season, the kickoff, the result.
abbrev pub Match : Type 0
Match = (ℕ × List ℕ × ℕ) × (ℕ × ℕ × ℕ)

abbrev pub match_of : Option BacktestFeature → Option Match
match_of none = none
match_of (some b) =
    some (((b.league_code, b.season, b.kickoff_at), (b.ft_home, b.ft_away, b.total_goals)))

-- The rows have a row of the fixture, which says `m`.
abbrev Says : ℕ → Match → Store → Type 0
Says fixture_id m store = match_of (row_of fixture_id store.rows) ≡ some m

refreshed-row_of :
    (r : Asof) (fo : Prices) (at fixture_id : ℕ) (rows : List BacktestFeature)
    → match_of (row_of fixture_id (update_where (is_row_of at) (refreshed r fo) rows))
      ≡ match_of (row_of fixture_id rows)
refreshed-row_of r fo at fixture_id [] = refl
refreshed-row_of r fo at fixture_id (b ∷ bs) =
    ground (arith, refreshed-row_of r fo at fixture_id bs)

known : (m : Match) (o : Option BacktestFeature) → match_of o ≡ some m → is_some o ≡ true
known m none h = absurd (cc)
known m (some b) h = refl

upsert-Says :
    (fx : Fixture) (league : League) (ft_home ft_away : ℕ) (r : Asof) (fo : Prices) (fixture_id : ℕ)
    (m : Match) (store : Store)
    → Says fixture_id m store
    → Says fixture_id m (upsert fx league ft_home ft_away r fo store)
upsert-Says fx league ft_home ft_away r fo fixture_id m store h =
    if_cases (Says fixture_id m) (is_some (row_of fx.id store.rows))
      (λ _. refreshed-row_of r fo fx.id fixture_id store.rows ∙ h)
      (λ missing. elim (Bool-cases (fx.id == fixture_id)) [
        | inl same ↦
            let equal : fx.id ≡ fixture_id = ground (arith, same) in
            let there = known m (row_of fixture_id store.rows) h in
            let absent = subst (λ k. is_some (row_of k store.rows) ≡ false) equal missing in
            absurd (cc)
        | inr other ↦ ground (arith, other, h)
      ])

upsert_named-Says :
    (fx : Fixture) (league : Option League) (home away : Option Team) (ft_home ft_away : ℕ)
    (r : Asof) (fo : Prices) (fixture_id : ℕ) (m : Match) (x : ℕ × Store)
    → Says fixture_id m x.1
    → Says fixture_id m (upsert_named fx league home away ft_home ft_away r fo x).1
upsert_named-Says fx (some l) (some u) (some v) ft_home ft_away r fo fixture_id m (k, store) h =
    upsert-Says fx l ft_home ft_away r fo fixture_id m store h
upsert_named-Says fx (some l) (some u) none ft_home ft_away r fo fixture_id m x h = h
upsert_named-Says fx (some l) none away ft_home ft_away r fo fixture_id m x h = h
upsert_named-Says fx none home away ft_home ft_away r fo fixture_id m x h = h

upsert_scored-Says :
    (t : Tables) (fx : Fixture) (ft_home ft_away : Option ℕ) (r : Asof) (fo : Prices)
    (fixture_id : ℕ) (m : Match) (x : ℕ × Store)
    → Says fixture_id m x.1
    → Says fixture_id m (upsert_scored t fx ft_home ft_away r fo x).1
upsert_scored-Says t fx (some a) (some b) r fo fixture_id m x h =
    upsert_named-Says fx (league_of t fx.league_id) (team_of t fx.home_team_id)
      (team_of t fx.away_team_id) a b r fo fixture_id m x h
upsert_scored-Says t fx (some a) none r fo fixture_id m x h = h
upsert_scored-Says t fx none b r fo fixture_id m x h = h

upsert_fixture-Says :
    (t : Tables) (c : Option Fixture) (r : Asof) (fo : Prices) (fixture_id : ℕ) (m : Match)
    (x : ℕ × Store)
    → Says fixture_id m x.1
    → Says fixture_id m (upsert_fixture t c r fo x).1
upsert_fixture-Says t none r fo fixture_id m x h = h
upsert_fixture-Says t (some fx) r fo fixture_id m x h =
    upsert_scored-Says t fx fx.ft_home fx.ft_away r fo fixture_id m x h

populate_all-Says :
    (closing_odds : ℕ → Prices) (t : Tables) (rs : List Asof) (fixture_id : ℕ) (m : Match)
    (x : ℕ × Store)
    → Says fixture_id m x.1
    → Says fixture_id m (populate_all closing_odds t rs x).1
populate_all-Says closing_odds t [] fixture_id m x h = h
populate_all-Says closing_odds t (r ∷ rs) fixture_id m x h =
    populate_all-Says closing_odds t rs fixture_id m
      (upsert_fixture t (fixture_of t r.fixture_id) r (closing_odds r.fixture_id) x)
      (upsert_fixture-Says t (fixture_of t r.fixture_id) r (closing_odds r.fixture_id) fixture_id m
        x h)

-- Once a fixture has a row of features, no later population changes its league, season, kickoff,
-- goals or their sum, whatever the tables, the features and the quotes say by then: a score that was
-- corrected in between is not taken over.
pub populate_backtest_features-match_of :
    (closing_odds : ℕ → Prices) (t : Tables) (features : List Asof) (store : Store) (fixture_id : ℕ)
    (m : Match)
    → match_of (row_of fixture_id store.rows) ≡ some m
    → match_of (row_of fixture_id (populate_backtest_features closing_odds t features store).1.rows)
      ≡ some m
unfolding populate_backtest_features
populate_backtest_features-match_of closing_odds t features store fixture_id m h =
    populate_all-Says closing_odds t features fixture_id m (0, store) h
