-- ===== src/Backtest/Tests.antt =====
-- A strategy on three matches, and a score that is corrected between two populations.
use betpulse.Prelude.{ℕ, ◌≡◌, refl, true, none, some, List, [], ◌∷◌, ◌++◌}
use betpulse.Prelude.Int.{pos, negsuc, ◌-ℤ◌, ◌+ℤ◌, ◌≤ℤ◌}
use betpulse.Ingest.Model.{Tables, finished}
use betpulse.Ingest.Tests.{no_names, season_text, empty_database}
use betpulse.Backtest.Model.{x12, home, Prices, Asof, BacktestFeature, RunRequest}
use betpulse.Backtest.Population.{Store, row_of, populate_backtest_features}
use betpulse.Backtest.Engine.{
  max_drawdown, add_pnls, fetch_rows, dataset_conditions, collect_bets, settle,
}
use betpulse.Backtest.Run.{run_backtest}
use betpulse.Backtest.Drawdown.{gain, max_drawdown-loss}
use betpulse.Backtest.Refresh.{match_of, populate_backtest_features-match_of}

-- A win at 2.0 after two losses of a unit.
max_drawdown-loss_example :
    let pnls = (pos 1_000 ∷ []) ++ (negsuc 999 ∷ negsuc 999 ∷ []) ++ (pos 1_000 ∷ []) in
    (pos 0 -ℤ gain (negsuc 999 ∷ negsuc 999 ∷ []) ≤ℤ (max_drawdown pnls).max_dd)
    × (pos 0 ≤ℤ (max_drawdown pnls).max_dd)
max_drawdown-loss_example =
    max_drawdown-loss (pos 1_000 ∷ []) (negsuc 999 ∷ negsuc 999 ∷ []) (pos 1_000 ∷ [])

drawn_down :
    (max_drawdown (pos 1_000 ∷ negsuc 999 ∷ negsuc 999 ∷ pos 1_000 ∷ [])).max_dd ≡ pos 2_000
unfolding max_drawdown add_pnls ◌+ℤ◌ ◌-ℤ◌
drawn_down = refl

abbrev closing : Prices
closing = record {
  odds_home = some 2_000;
  odds_draw = some 3_000;
  odds_away = some 4_000;
  odds_over = none;
  odds_under = none;
}

abbrev asof : ℕ → Asof
asof fixture_id = record {
  fixture_id = fixture_id;
  elo_diff = pos 10;
  avg_total = pos 2_500;
  rest_days_home = pos 300;
  rest_days_away = pos 400;
}

abbrev feature : ℕ → ℕ → BacktestFeature
feature id ft_home = record {
  id = id;
  fixture_id = id;
  league_code = 3;
  season = season_text;
  kickoff_at = 50;
  ft_home = ft_home;
  ft_away = 1;
  total_goals = ft_home;
  asof = asof id;
  prices = closing;
}

abbrev request : RunRequest
request = record {
  bet_type = x12;
  pick = home;
  filters = record {
    league = some 3;
    season = none;
    odds_min = none;
    odds_max = some 2_500;
    elo_diff_min = none;
    elo_diff_max = none;
    avg_total_min = none;
    avg_total_max = none;
    rest_days_min = some (pos 200);
  };
}

abbrev features : List BacktestFeature
features = feature 2 0 ∷ feature 1 2 ∷ feature 3 3 ∷ []

two_wins : (run_backtest (λ a b. a) (λ wins n. wins) features request true).win_count ≡ 2
unfolding run_backtest fetch_rows dataset_conditions collect_bets settle
two_wins = refl

-- The store says 2-1; the fixture has been corrected to 3-1.
abbrev corrected : Tables
corrected = record empty_database.tables {
  names = record no_names {
    leagues = record { id = 5; code = 3; name = 0; country = none; season_start_month = none } ∷ [];
    teams =
        record { id = 8; name = []; normalized_name = []; country = none }
        ∷ record { id = 9; name = []; normalized_name = []; country = none }
        ∷ [];
  };
  fixtures =
      record {
        id = 1;
        league_id = 5;
        season = season_text;
        home_team_id = 8;
        away_team_id = 9;
        kickoff_at = 50;
        kickoff_time_known = true;
        status = finished;
        ft_home = some 3;
        ft_away = some 1;
        ht_home = none;
        ht_away = none;
        source = 7;
      }
      ∷ [];
}

abbrev store : Store
store = record { rows = feature 1 2 ∷ []; next_id = 2 }

populate_backtest_features-match_of_example :
    match_of
      (row_of 1 (populate_backtest_features (λ _. closing) corrected (asof 1 ∷ []) store).1.rows)
    ≡ some ((3, season_text, 50), (2, 1, 2))
populate_backtest_features-match_of_example =
    populate_backtest_features-match_of (λ _. closing) corrected (asof 1 ∷ []) store 1
      ((3, season_text, 50), (2, 1, 2)) refl

rewritten : (populate_backtest_features (λ _. closing) corrected (asof 1 ∷ []) store).0 ≡ 1
unfolding populate_backtest_features
rewritten = refl
