-- ===== src/Ingest/Quotes.antt =====
-- backend/app/services/ingestion/core.py: the rule for odds on the way in, and their insertion.
use betpulse.Prelude.{
  ℕ, suc, ◌+◌, min, Bool, Option, none, some, List, [], ◌∷◌, ◌==◌, ◌&&◌, leb, ltb, not, find,
  is_some, if◌then◌else◌,
}
use betpulse.Ingest.Model.{Odds, QuoteDto}

abbrev pub min_price : ℕ
min_price = 1_000

abbrev pub max_price : ℕ
max_price = 1_000_000

pub data QuoteProblem : Type 0 where
  price_out_of_range closing_after_kickoff pre_closing_not_before_kickoff : QuoteProblem

-- `_quote_problem`; `kickoffs` are the source's and the stored one.
unfoldable pub quote_problem : ℕ → Bool → ℕ → ℕ × ℕ → Option QuoteProblem
quote_problem quote_ts is_closing price kickoffs =
    let kickoff = min kickoffs.0 kickoffs.1 in
    if not (ltb min_price price && leb price max_price)
    then some price_out_of_range
    else if is_closing && ltb kickoff quote_ts
    then some closing_after_kickoff
    else if not is_closing && leb kickoff quote_ts
    then some pre_closing_not_before_kickoff
    else none

-- A closing quote at the source's kickoff is taken at the stored one.
abbrev pub stored_ts : ℕ → ℕ → QuoteDto → ℕ
stored_ts kickoff stored_kickoff q =
    if q.is_closing && (q.ts == kickoff) then stored_kickoff else q.ts

-- The primary key of odds.
abbrev pub is_same_quote : ℕ → ℕ → QuoteDto → Odds → Bool
is_same_quote fixture_id ts q o =
    (o.fixture_id == fixture_id)
    && (o.bookmaker == q.bookmaker)
    && (o.market == q.market)
    && (o.outcome == q.outcome)
    && (o.ts == ts)

abbrev pub odds_row : ℕ → ℕ → QuoteDto → Odds
odds_row fixture_id ts q = record {
  fixture_id = fixture_id;
  bookmaker = q.bookmaker;
  market = q.market;
  outcome = q.outcome;
  ts = ts;
  price = q.price;
  is_closing = q.is_closing;
}

-- INSERT … ON CONFLICT DO NOTHING: how many rows it returns, and the table.
abbrev pub insert_quote : ℕ → ℕ → QuoteDto → List Odds → ℕ × List Odds
insert_quote fixture_id ts q odds =
    if is_some (find (is_same_quote fixture_id ts q) odds)
    then (0, odds)
    else (1, odds_row fixture_id ts q ∷ odds)

-- What a call inserted and rejected, and the table.
pub record Inserted : Type 0 where
  pub inserted : ℕ
  pub rejected : ℕ
  pub odds : List Odds

-- One turn of the loop.
unfoldable pub take_quote : ℕ → ℕ → ℕ → QuoteDto → Inserted → Inserted
take_quote fixture_id kickoff stored_kickoff q x =
    let ts = stored_ts kickoff stored_kickoff q in
    if is_some (quote_problem ts q.is_closing q.price (kickoff, stored_kickoff))
    then record x { rejected = suc x.rejected }
    else let (n, odds) = insert_quote fixture_id ts q x.odds in
      record x { inserted = x.inserted + n; odds = odds }

-- `_insert_odds`
unfoldable pub insert_odds : ℕ → ℕ → ℕ → List QuoteDto → Inserted → Inserted
insert_odds fixture_id kickoff stored_kickoff [] x = x
insert_odds fixture_id kickoff stored_kickoff (q ∷ qs) x =
    insert_odds fixture_id kickoff stored_kickoff qs
      (take_quote fixture_id kickoff stored_kickoff q x)
