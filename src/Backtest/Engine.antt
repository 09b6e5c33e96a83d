-- ===== src/Backtest/Engine.antt =====
-- backend/app/services/backtester/engine.py: a strategy replayed over the store of features. Sums of
-- floats of thousandths, which the code rounds to four digits, are exact here; a quotient rounded to
-- four digits and the Wilson interval are parameters.
use betpulse.Prelude.{
  ℕ, ◌*◌, Bool, true, false, Option, none, some, List, [], ◌∷◌, ◌++◌, ◌==◌, ◌&&◌, ◌||◌, ltb, leb,
  not, length, select, map, is_empty, if◌then◌else◌,
}
use betpulse.Prelude.Int.{ℤ, pos, negsuc, ◌+ℤ◌, ◌-ℤ◌, leb_ℤ, sub_ℕ}
use betpulse.Ingest.Seasons.{eqb_text}
use betpulse.Backtest.Model.{
  BetType, x12, total, Pick, home, draw, away, over, under, Prices, BacktestFeature, StrategyFilter,
  RunRequest, Bet,
}

-- A condition of a filter that may be absent.
abbrev pub if_given {ℓ} : {A : Type ℓ} → Option A → (A → Bool) → Bool
if_given none p = true
if_given (some a) p = p a

-- `_dataset_conditions`
unfoldable pub dataset_conditions : StrategyFilter → BacktestFeature → Bool
dataset_conditions f b =
    if_given f.league (λ league. b.league_code == league)
    && if_given f.season (λ season. eqb_text b.season season)
    && if_given f.elo_diff_min (λ low. leb_ℤ low b.asof.elo_diff)
    && if_given f.elo_diff_max (λ high. leb_ℤ b.asof.elo_diff high)
    && if_given f.avg_total_min (λ low. leb_ℤ low b.asof.avg_total)
    && if_given f.avg_total_max (λ high. leb_ℤ b.asof.avg_total high)
    && if_given f.rest_days_min
        (λ low. leb_ℤ low b.asof.rest_days_home && leb_ℤ low b.asof.rest_days_away)

-- ORDER BY kickoff_at, id
abbrev pub is_earlier : BacktestFeature → BacktestFeature → Bool
is_earlier a b = ltb a.kickoff_at b.kickoff_at || ((a.kickoff_at == b.kickoff_at) && ltb a.id b.id)

abbrev pub insert_row : BacktestFeature → List BacktestFeature → List BacktestFeature
insert_row b [] = b ∷ []
insert_row b (c ∷ cs) =
    let rest = insert_row b cs in if is_earlier c b then c ∷ rest else b ∷ c ∷ cs

abbrev pub sort_rows : List BacktestFeature → List BacktestFeature
sort_rows [] = []
sort_rows (b ∷ bs) = insert_row b (sort_rows bs)

unfoldable pub fetch_rows : RunRequest → List BacktestFeature → List BacktestFeature
fetch_rows request rows = sort_rows (select (dataset_conditions request.filters) rows)

-- _PICK_ODDS_COL
abbrev pub picked_odds : Pick → Prices → Option ℕ
picked_odds home p = p.odds_home
picked_odds draw p = p.odds_draw
picked_odds away p = p.odds_away
picked_odds over p = p.odds_over
picked_odds under p = p.odds_under

abbrev pub is_result : ℕ → ℕ → Pick → Bool
is_result ft_home ft_away home = ltb ft_away ft_home
is_result ft_home ft_away draw = ft_home == ft_away
is_result ft_home ft_away away = ltb ft_home ft_away
is_result ft_home ft_away _ = false

-- More than 2.5 goals.
abbrev pub is_side : ℕ → Pick → Bool
is_side goals over = ltb 2 goals
is_side goals under = not (ltb 2 goals)
is_side goals _ = false

abbrev pub is_won : BacktestFeature → BetType → Pick → Bool
is_won b x12 pick = is_result b.ft_home b.ft_away pick
is_won b total pick = is_side b.total_goals pick

-- `_settle`
unfoldable pub settle : BacktestFeature → BetType → Pick → ℕ → Bet
settle b bet_type pick odds =
    let won = is_won b bet_type pick in
    record {
      kickoff_at = b.kickoff_at;
      league_code = b.league_code;
      season = b.season;
      odds = odds;
      won = won;
      pnl = if won then sub_ℕ odds 1_000 else negsuc 999;
    }

abbrev pub is_in_odds : StrategyFilter → ℕ → Bool
is_in_odds f odds =
    if_given f.odds_min (λ low. leb low odds) && if_given f.odds_max (λ high. leb odds high)

abbrev pub bet_on : RunRequest → BacktestFeature → Option ℕ → List Bet → List Bet
bet_on request b none rest = rest
bet_on request b (some odds) rest =
    if is_in_odds request.filters odds
    then settle b request.bet_type request.pick odds ∷ rest
    else rest

unfoldable pub collect_bets : RunRequest → List BacktestFeature → List Bet
collect_bets request [] = []
collect_bets request (b ∷ bs) =
    bet_on request b (picked_odds request.pick b.prices) (collect_bets request bs)

-- `max`
abbrev pub max_int : ℤ → ℤ → ℤ
max_int a b = if leb_ℤ a b then b else a

-- The variables of the loop of `_max_drawdown`.
pub record Curve : Type 0 where
  pub equity : List ℤ
  pub running : ℤ
  pub peak : ℤ
  pub max_dd : ℤ

abbrev pub add_pnl : ℤ → Curve → Curve
add_pnl x c =
    let running = c.running +ℤ x in
    let peak = max_int c.peak running in
    record {
      equity = c.equity ++ (running ∷ []);
      running = running;
      peak = peak;
      max_dd = max_int c.max_dd (peak -ℤ running);
    }

unfoldable pub add_pnls : List ℤ → Curve → Curve
add_pnls [] c = c
add_pnls (x ∷ xs) c = add_pnls xs (add_pnl x c)

unfoldable pub max_drawdown : List ℤ → Curve
max_drawdown pnls =
    add_pnls pnls (record { equity = []; running = pos 0; peak = pos 0; max_dd = pos 0 })

-- The sum of the gains, which is what is returned less the stakes.
abbrev pub profit : List Bet → ℤ
profit [] = pos 0
profit (b ∷ bs) = b.pnl +ℤ profit bs

-- The bets of each key, in the order of the keys.
module _ {K : Type 0} (key : Bet → K) (same before : K → K → Bool) where
  abbrev pub put_bet : Bet → List (K × List Bet) → List (K × List Bet)
  put_bet b [] = (key b, b ∷ []) ∷ []
  put_bet b (g ∷ gs) =
      let rest = put_bet b gs in
      if same g.0 (key b)
      then (g.0, g.1 ++ (b ∷ [])) ∷ gs
      else if before (key b) g.0
      then (key b, b ∷ []) ∷ g ∷ gs
      else g ∷ rest

  unfoldable pub put_bets : List Bet → List (K × List Bet) → List (K × List Bet)
  put_bets [] gs = gs
  put_bets (b ∷ bs) gs = put_bets bs (put_bet b gs)

pub record Breakdown (K : Type 0) : Type 0 where
  pub key : K
  pub matched_count : ℕ
  pub roi : ℤ

module _ (rounded_ratio : ℤ → ℕ → ℤ) where
  -- `_roi`
  unfoldable pub roi : List Bet → ℤ
  roi bets = if is_empty bets then pos 0 else rounded_ratio (profit bets) (1_000 * length bets)

  unfoldable pub breakdown :
      {K : Type 0} → (Bet → K) → (K → K → Bool) → (K → K → Bool) → List Bet → List (Breakdown K)
  breakdown key same before bets =
      map (λ g. record { key = g.0; matched_count = length g.1; roi = roi g.1 })
        (put_bets key same before bets [])
