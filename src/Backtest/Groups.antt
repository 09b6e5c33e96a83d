-- ===== src/Backtest/Groups.antt =====
-- backend/app/services/backtester/engine.py: the breakdowns of a result.
use betpulse.Prelude.{
  ℕ, suc, ◌+◌, ◌≤◌, ◌≡◌, refl, Bool, List, [], ◌∷◌, length, length-append, count_if, map, arith,
  ltb, ◌==◌,
}
use betpulse.Prelude.Int.{ℤ}
use betpulse.Ingest.Seasons.{eqb_text}
use betpulse.Quality.Model.{is_text_before}
use betpulse.Backtest.Model.{BacktestFeature, RunRequest, Bet}
use betpulse.Backtest.Engine.{
  Breakdown, breakdown, roi, put_bet, put_bets, fetch_rows, collect_bets,
}
use betpulse.Backtest.Run.{run_backtest}

abbrev pub matched_in : {K : Type 0} → List (Breakdown K) → ℕ
matched_in [] = 0
matched_in (b ∷ bs) = b.matched_count + matched_in bs

module _ {K : Type 0} (key : Bet → K) (same before : K → K → Bool) where
  abbrev members : List (K × List Bet) → ℕ
  members [] = 0
  members (g ∷ gs) = length g.1 + members gs

  put_bet-members :
      (b : Bet) (gs : List (K × List Bet))
      → members (put_bet key same before b gs) ≡ suc (members gs)
  put_bet-members b [] = omega arith
  put_bet-members b (g ∷ gs) = ground (arith, length-append g.1 (b ∷ []), put_bet-members b gs)

  put_bets-members :
      (bs : List Bet) (gs : List (K × List Bet))
      → members (put_bets key same before bs gs) ≡ length bs + members gs
  unfolding put_bets
  put_bets-members [] gs = omega arith
  put_bets-members (b ∷ bs) gs =
      omega (arith, put_bets-members bs (put_bet key same before b gs), put_bet-members b gs)

  members_lem :
      (rounded_ratio : ℤ → ℕ → ℤ) (gs : List (K × List Bet))
      → matched_in (
          map
            (λ g. record { key = g.0; matched_count = length g.1; roi = roi rounded_ratio g.1 })
            gs)
        ≡ members gs
  members_lem rounded_ratio [] = refl
  members_lem rounded_ratio (g ∷ gs) = omega (arith, members_lem rounded_ratio gs)

  breakdown-matched_in :
      (rounded_ratio : ℤ → ℕ → ℤ) (bets : List Bet)
      → matched_in (breakdown rounded_ratio key same before bets) ≡ length bets
  unfolding breakdown
  breakdown-matched_in rounded_ratio bets = omega (
    arith,
    members_lem rounded_ratio (put_bets key same before bets []),
    put_bets-members bets [],
  )

count_if-length : {A : Type 0} (p : A → Bool) (xs : List A) → count_if p xs ≤ length xs
count_if-length p [] = omega arith
count_if-length p (x ∷ xs) = ground (arith, count_if-length p xs)

-- The breakdowns of a result by league and by season each account for every matched bet once, no
-- more bets are won than matched, and one unit is staked on each.
pub run_backtest-matched_in :
    {I : Type 0} (rounded_ratio : ℤ → ℕ → ℤ) (wilson_interval : ℕ → ℕ → I)
    (store : List BacktestFeature) (request : RunRequest) (season_split : Bool)
    → let result = run_backtest rounded_ratio wilson_interval store request season_split in
      (matched_in result.by_league ≡ result.matched_count)
      × (matched_in result.by_season ≡ result.matched_count)
      × (result.win_count ≤ result.matched_count)
      × (result.total_staked ≡ result.matched_count)
unfolding run_backtest
run_backtest-matched_in rounded_ratio wilson_interval store request season_split =
    let bets = collect_bets request (fetch_rows request store) in
    (
      breakdown-matched_in (λ b. b.league_code) (λ a b. a == b) ltb rounded_ratio bets,
      breakdown-matched_in (λ b. b.season) eqb_text is_text_before rounded_ratio bets,
      count_if-length (λ b. b.won) bets,
      refl,
    )
