-- ===== src/Backtest/Model.antt =====
-- backend/app/models/backtester.py and schemas/backtester.py: the features of a match, and a strategy.
-- Prices, features and gains are in thousandths, rest days in hundredths; of the features the filters'
-- are kept, and of the names none.
use betpulse.Prelude.{ℕ, Bool, Option}
use betpulse.Prelude.Int.{ℤ}
use betpulse.Ingest.Seasons.{Text}

pub data BetType : Type 0 where
  x12 total : BetType

pub data Pick : Type 0 where
  home draw away over under : Pick

-- The closing prices of a match.
pub record Prices : Type 0 where
  pub odds_home : Option ℕ
  pub odds_draw : Option ℕ
  pub odds_away : Option ℕ
  pub odds_over : Option ℕ
  pub odds_under : Option ℕ

-- The features of the walk over past matches, rounded.
pub record Asof : Type 0 where
  pub fixture_id : ℕ
  pub elo_diff : ℤ
  pub avg_total : ℤ
  pub rest_days_home : ℤ
  pub rest_days_away : ℤ

pub record BacktestFeature : Type 0 where
  pub id : ℕ
  pub fixture_id : ℕ
  pub league_code : ℕ
  pub season : Text
  pub kickoff_at : ℕ
  pub ft_home : ℕ
  pub ft_away : ℕ
  pub total_goals : ℕ
  pub asof : Asof
  pub prices : Prices

pub record StrategyFilter : Type 0 where
  pub league : Option ℕ
  pub season : Option Text
  pub odds_min : Option ℕ
  pub odds_max : Option ℕ
  pub elo_diff_min : Option ℤ
  pub elo_diff_max : Option ℤ
  pub avg_total_min : Option ℤ
  pub avg_total_max : Option ℤ
  pub rest_days_min : Option ℤ

pub record RunRequest : Type 0 where
  pub bet_type : BetType
  pub pick : Pick
  pub filters : StrategyFilter

pub record Bet : Type 0 where
  pub kickoff_at : ℕ
  pub league_code : ℕ
  pub season : Text
  pub odds : ℕ
  pub won : Bool
  pub pnl : ℤ
