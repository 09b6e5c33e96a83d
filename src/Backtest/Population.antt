-- ===== src/Backtest/Population.antt =====
-- backend/app/services/backtester/population.py: one row of features for each finished fixture. The
-- table of features and the closing quotes are arguments.
use betpulse.Prelude.{
  ℕ, suc, ◌+◌, Bool, Option, none, some, List, [], ◌∷◌, ◌==◌, find, is_some, update_where,
  if◌then◌else◌,
}
use betpulse.Ingest.Model.{League, Team, Fixture, Tables, fixture_of}
use betpulse.Backtest.Model.{Prices, Asof, BacktestFeature}

-- The store, and the identifier of the next row.
pub record Store : Type 0 where
  pub rows : List BacktestFeature
  pub next_id : ℕ

abbrev pub is_row_of : ℕ → BacktestFeature → Bool
is_row_of fixture_id b = b.fixture_id == fixture_id

abbrev pub row_of : ℕ → List BacktestFeature → Option BacktestFeature
row_of fixture_id rows = find (is_row_of fixture_id) rows

abbrev pub feature_row : ℕ → Fixture → League → ℕ → ℕ → Asof → Prices → BacktestFeature
feature_row id fx league ft_home ft_away r fo = record {
  id = id;
  fixture_id = fx.id;
  league_code = league.code;
  season = fx.season;
  kickoff_at = fx.kickoff_at;
  ft_home = ft_home;
  ft_away = ft_away;
  total_goals = ft_home + ft_away;
  asof = r;
  prices = fo;
}

-- The `set_` of the conflict: the features and the prices.
abbrev pub refreshed : Asof → Prices → BacktestFeature → BacktestFeature
refreshed r fo b = record b { asof = r; prices = fo }

-- INSERT … ON CONFLICT ON CONSTRAINT uq_backtest_feature_fixture DO UPDATE
abbrev pub upsert : Fixture → League → ℕ → ℕ → Asof → Prices → Store → Store
upsert fx league ft_home ft_away r fo store =
    if is_some (row_of fx.id store.rows)
    then record store { rows = update_where (is_row_of fx.id) (refreshed r fo) store.rows }
    else record {
      rows = feature_row store.next_id fx league ft_home ft_away r fo ∷ store.rows;
      next_id = suc store.next_id;
    }

abbrev pub upsert_named :
    Fixture
    → Option League
    → Option Team
    → Option Team
    → ℕ
    → ℕ
    → Asof
    → Prices
    → ℕ × Store
    → ℕ × Store
upsert_named fx (some league) (some home) (some away) ft_home ft_away r fo (written, store) =
    (suc written, upsert fx league ft_home ft_away r fo store)
upsert_named fx _ _ _ ft_home ft_away r fo x = x

abbrev pub team_of : Tables → ℕ → Option Team
team_of t id = find (λ u. u.id == id) t.names.teams

abbrev pub league_of : Tables → ℕ → Option League
league_of t id = find (λ l. l.id == id) t.names.leagues

abbrev pub upsert_scored :
    Tables → Fixture → Option ℕ → Option ℕ → Asof → Prices → ℕ × Store → ℕ × Store
upsert_scored t fx (some ft_home) (some ft_away) r fo x =
    upsert_named fx (league_of t fx.league_id) (team_of t fx.home_team_id)
      (team_of t fx.away_team_id) ft_home ft_away r fo x
upsert_scored t fx _ _ r fo x = x

abbrev pub upsert_fixture : Tables → Option Fixture → Asof → Prices → ℕ × Store → ℕ × Store
upsert_fixture t none r fo x = x
upsert_fixture t (some fx) r fo x = upsert_scored t fx fx.ft_home fx.ft_away r fo x

module _ (closing_odds : ℕ → Prices) where
  abbrev pub populate_all : Tables → List Asof → ℕ × Store → ℕ × Store
  populate_all t [] x = x
  populate_all t (r ∷ rs) x =
      populate_all t rs
        (upsert_fixture t (fixture_of t r.fixture_id) r (closing_odds r.fixture_id) x)

  -- The rows written, and the store.
  unfoldable pub populate_backtest_features : Tables → List Asof → Store → ℕ × Store
  populate_backtest_features t features store = populate_all t features (0, store)
