-- ===== src/Backtest/Run.antt =====
-- backend/app/services/backtester/engine.py: `run_backtest`.
use betpulse.Prelude.{
  ℕ, ◌*◌, Bool, false, Option, none, some, List, [], ◌∷◌, ◌==◌, ◌&&◌, ◌||◌, ltb, not, length,
  count_if, select, map, if◌then◌else◌,
}
use betpulse.Prelude.Int.{ℤ, pos, ◌+ℤ◌}
use betpulse.Ingest.Seasons.{Text, eqb_text}
use betpulse.Quality.Model.{is_text_before}
use betpulse.Backtest.Model.{BetType, x12, total, BacktestFeature, RunRequest, Bet}
use betpulse.Backtest.Engine.{
  Breakdown, breakdown, roi, fetch_rows, collect_bets, max_drawdown, profit,
}

abbrev pub small_sample_threshold : ℕ
small_sample_threshold = 100

-- A price that is there and is not zero.
abbrev pub is_price : Option ℕ → Bool
is_price none = false
is_price (some price) = not (price == 0)

abbrev pub has_x12 : List BacktestFeature → Bool
has_x12 [] = false
has_x12 (b ∷ bs) =
    (is_price b.prices.odds_home && is_price b.prices.odds_draw && is_price b.prices.odds_away)
    || has_x12 bs

abbrev pub has_total : List BacktestFeature → Bool
has_total [] = false
has_total (b ∷ bs) = (is_price b.prices.odds_over && is_price b.prices.odds_under) || has_total bs

unfoldable pub available_bet_types : List BacktestFeature → List BetType
available_bet_types rows =
    let totals = (if has_total rows then total ∷ [] else []) in
    if has_x12 rows then x12 ∷ totals else totals

-- `sorted({b.season for b in bets})`
abbrev pub add_season : Text → List Text → List Text
add_season season [] = season ∷ []
add_season season (s ∷ ss) =
    let rest = add_season season ss in
    if eqb_text s season
    then s ∷ ss
    else if is_text_before season s
    then season ∷ s ∷ ss
    else s ∷ rest

abbrev pub seasons_of : List Bet → List Text → List Text
seasons_of [] seasons = seasons
seasons_of (b ∷ bs) seasons = seasons_of bs (add_season b.season seasons)

pub record BacktestResult (I : Type 0) : Type 0 where
  pub request : RunRequest
  pub matched_count : ℕ
  pub win_count : ℕ
  pub win_rate : ℤ
  pub roi : ℤ
  pub total_staked : ℕ
  pub total_return : ℤ
  pub equity_curve : List ℤ
  pub max_drawdown : ℤ
  pub win_rate_ci : I
  pub by_league : List (Breakdown ℕ)
  pub by_season : List (Breakdown Text)
  pub available_bet_types : List BetType
  pub small_sample_warning : Bool
  pub season_splits : List (Breakdown Text)

module _ (rounded_ratio : ℤ → ℕ → ℤ) where
  -- `_season_splits`
  unfoldable pub season_splits : List Bet → List (Breakdown Text)
  season_splits bets =
      map
        (λ season.
          let group = select (λ b. eqb_text b.season season) bets in
          record { key = season; matched_count = length group; roi = roi rounded_ratio group })
        (seasons_of bets [])

  module _ {I : Type 0} (wilson_interval : ℕ → ℕ → I) where
    unfoldable pub run_backtest : List BacktestFeature → RunRequest → Bool → BacktestResult I
    run_backtest store request season_split =
        let rows = fetch_rows request store in
        let bets = collect_bets request rows in
        let matched = length bets in
        let wins = count_if (λ b. b.won) bets in
        let curve = max_drawdown (map (λ b. b.pnl) bets) in
        record {
          request = request;
          matched_count = matched;
          win_count = wins;
          win_rate = if matched == 0 then pos 0 else rounded_ratio (pos wins) matched;
          roi = roi rounded_ratio bets;
          total_staked = matched;
          total_return = profit bets +ℤ pos (1_000 * matched);
          equity_curve = curve.equity;
          max_drawdown = curve.max_dd;
          win_rate_ci = wilson_interval wins matched;
          by_league = breakdown rounded_ratio (λ b. b.league_code) (λ a b. a == b) ltb bets;
          by_season = breakdown rounded_ratio (λ b. b.season) eqb_text is_text_before bets;
          available_bet_types = available_bet_types rows;
          small_sample_warning = ltb matched small_sample_threshold;
          season_splits = if season_split then season_splits bets else [];
        }
