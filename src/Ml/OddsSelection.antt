-- ===== src/Ml/OddsSelection.antt =====
-- backend/app/ml/odds_selection.py. The market 1x2 is 0 and ou_2.5 is 1, the outcomes home, draw, away,
-- over and under are 0 to 4. `reference_bookmakers` of the settings is a list of ranges of days.
use betpulse.Prelude.{
  ℕ, ◌≡◌, refl, ◌∙◌, ap, sym, Bool, true, false, Option, none, some, List, [], ◌∷◌, ◌==◌, ◌&&◌, leb,
  ltb, contains, is_some, find, select, arith, if◌then◌else◌, Bool-cases, inl, inr,
}
use betpulse.Clock.{date_of}
use betpulse.Ingest.Model.{Odds}

pub record ReferenceRange : Type 0 where
  pub from_date : Option ℕ
  pub until_date : Option ℕ
  pub bookmaker : ℕ

abbrev pub from_on : Option ℕ → ℕ → Bool
from_on none day = true
from_on (some date) day = leb date day

abbrev pub until_before : Option ℕ → ℕ → Bool
until_before none day = true
until_before (some date) day = ltb day date

abbrev pub bookmaker_of : Option ReferenceRange → Option ℕ
bookmaker_of none = none
bookmaker_of (some range) = some range.bookmaker

-- `none` is LookupError.
unfoldable pub reference_bookmaker_for : List ReferenceRange → ℕ → Option ℕ
reference_bookmaker_for ranges kickoff = bookmaker_of (
    find
      (λ range.
        from_on range.from_date (date_of kickoff)
        && until_before range.until_date (date_of kickoff))
      ranges)

-- MARKET_OUTCOMES; another market raises KeyError, and has no outcomes here.
abbrev pub market_outcomes : ℕ → List ℕ
market_outcomes market =
    if market == 0 then 0 ∷ 1 ∷ 2 ∷ [] else if market == 1 then 3 ∷ 4 ∷ [] else []

-- A snapshot: the prices of one instant, by outcome.
abbrev pub Prices : Type 0
Prices = List (ℕ × ℕ)

-- `prices[outcome] = price`
abbrev pub put_price : ℕ → ℕ → Prices → Prices
put_price outcome price [] = (outcome, price) ∷ []
put_price outcome price (p ∷ ps) =
    let rest = put_price outcome price ps in
    if p.0 == outcome then (outcome, price) ∷ ps else p ∷ rest

-- `by_ts[ts][outcome] = price`; the instants fall along the list, which is the order of the search.
abbrev pub put_quote : ℕ → ℕ → ℕ → List (ℕ × Prices) → List (ℕ × Prices)
put_quote ts outcome price [] = (ts, (outcome, price) ∷ []) ∷ []
put_quote ts outcome price (s ∷ ss) =
    let rest = put_quote ts outcome price ss in
    if s.0 == ts
    then (ts, put_price outcome price s.1) ∷ ss
    else if ltb s.0 ts
    then (ts, (outcome, price) ∷ []) ∷ s ∷ ss
    else s ∷ rest

abbrev pub is_usable : List ℕ → ℕ → ℕ → Odds → Bool
is_usable outcomes market as_of row =
    (row.market == market) && leb row.ts as_of && contains outcomes row.outcome

abbrev pub snapshots : List ℕ → ℕ → ℕ → List Odds → List (ℕ × Prices) → List (ℕ × Prices)
snapshots outcomes market as_of [] by_ts = by_ts
snapshots outcomes market as_of (row ∷ rows) by_ts = snapshots outcomes market as_of rows (
    if is_usable outcomes market as_of row
    then put_quote row.ts row.outcome row.price by_ts
    else by_ts)

-- `set(by_ts[ts]) == set(outcomes)`: a snapshot holds outcomes of the market only.
abbrev pub is_priced : ℕ → Prices → Bool
is_priced outcome prices = is_some (find (λ p. p.0 == outcome) prices)

abbrev pub is_complete : List ℕ → Prices → Bool
is_complete [] prices = true
is_complete (outcome ∷ outcomes) prices = is_priced outcome prices && is_complete outcomes prices

abbrev pub prices_of : Option (ℕ × Prices) → Option Prices
prices_of none = none
prices_of (some s) = some s.1

unfoldable pub quote_at : List Odds → ℕ → ℕ → Option Prices
quote_at rows market as_of = prices_of (
    find (λ s. is_complete (market_outcomes market) s.1)
      (snapshots (market_outcomes market) market as_of rows []))

-- `merged.update(quote)` over the markets, for the closing rows of one fixture.
abbrev pub merge_prices : Prices → Prices → Prices
merge_prices prices [] = prices
merge_prices prices (p ∷ ps) = merge_prices (put_price p.0 p.1 prices) ps

abbrev pub merge_quote : Prices → Option Prices → Prices
merge_quote prices none = prices
merge_quote prices (some quote) = merge_prices prices quote

abbrev pub merge_markets : List Odds → ℕ → List ℕ → Prices → Prices
merge_markets rows kickoff [] merged = merged
merge_markets rows kickoff (market ∷ markets) merged =
    merge_markets rows kickoff markets (merge_quote merged (quote_at rows market kickoff))

-- The closing quote of one fixture, empty where there is none.
unfoldable pub closing_quote : List Odds → ℕ → ℕ → ℕ → List ℕ → Prices
closing_quote odds fixture_id bookmaker kickoff markets =
    merge_markets
      (select
        (λ row. (row.fixture_id == fixture_id) && (row.bookmaker == bookmaker) && row.is_closing)
        odds)
      kickoff markets []

-- Rows that are usable in no snapshot change none.
snapshots-select :
    (outcomes : List ℕ) (market as_of : ℕ) (rows : List Odds) (by_ts : List (ℕ × Prices))
    → snapshots outcomes market as_of (select (λ row. leb row.ts as_of) rows) by_ts
      ≡ snapshots outcomes market as_of rows by_ts
snapshots-select outcomes market as_of [] by_ts = refl
snapshots-select outcomes market as_of (row ∷ rows) by_ts =
    let kept = select (λ q. leb q.ts as_of) rows in
    let with_row = put_quote row.ts row.outcome row.price by_ts in
    let branch =
      λ (b : Bool). snapshots outcomes market as_of (if b then row ∷ kept else kept) by_ts in
    elim (Bool-cases (leb row.ts as_of)) [
      | inl early ↦
          ap branch early
          ∙ snapshots-select outcomes market as_of rows
              (if is_usable outcomes market as_of row then with_row else by_ts)
      | inr late ↦
          let unusable : is_usable outcomes market as_of row ≡ false = ground (arith, late) in
          ap branch late
          ∙ snapshots-select outcomes market as_of rows by_ts
          ∙ ap (λ b. snapshots outcomes market as_of rows (if b then with_row else by_ts))
              (sym unusable)
    ]

-- The quote of a market at an instant is the one that the rows up to that instant give: a row that was
-- stored for a later instant changes neither the snapshot chosen nor its prices.
pub quote_at-select :
    (rows : List Odds) (market as_of : ℕ)
    → quote_at (select (λ row. leb row.ts as_of) rows) market as_of ≡ quote_at rows market as_of
unfolding quote_at
quote_at-select rows market as_of =
    ap (λ by_ts. prices_of (find (λ s. is_complete (market_outcomes market) s.1) by_ts))
      (snapshots-select (market_outcomes market) market as_of rows [])
