-- ===== src/Quality/Quotes.antt =====
-- backend/app/services/data_quality.py: the odds of the fixtures in scope, their snapshots, and which
-- fixtures have closing odds. The market 1x2 is 0 and ou_2.5 is 1. Whether the floats' sum of the
-- inverse prices lies in OVERROUND_RANGE is a parameter.
use betpulse.Prelude.{
  ℕ, Bool, true, false, Option, none, some, List, [], ◌∷◌, ◌++◌, ◌==◌, ◌&&◌, ◌||◌, ltb, leb, not,
  length, contains, if◌then◌else◌,
}
use betpulse.Ingest.Model.{Fixture, Odds, Conflict}
use betpulse.Ingest.Quotes.{min_price, max_price}
use betpulse.Ml.OddsSelection.{Prices, put_price}
use betpulse.Quality.Model.{
  Issue, Severity, error, warning, Code, issue_if, odds_price_out_of_range, closing_after_kickoff,
  incomplete_odds_snapshot, overround_out_of_range, score_conflict_across_sources,
}
use betpulse.Quality.Checks.{Scoped, by_id}

pub record SnapshotKey : Type 0 where
  pub fixture_id : ℕ
  pub bookmaker : ℕ
  pub market : ℕ
  pub ts : ℕ

abbrev pub eqb_key : SnapshotKey → SnapshotKey → Bool
eqb_key a b =
    (a.fixture_id == b.fixture_id)
    && (a.bookmaker == b.bookmaker)
    && (a.market == b.market)
    && (a.ts == b.ts)

abbrev pub contains_key : List SnapshotKey → SnapshotKey → Bool
contains_key [] k = false
contains_key (x ∷ xs) k = eqb_key x k || contains_key xs k

-- What the loop over the quotes gathers.
pub record Scan : Type 0 where
  pub issues : List Issue
  pub snapshots : List (SnapshotKey × Prices)
  pub invalid : List SnapshotKey
  pub not_closing : List SnapshotKey

-- `snapshots[key][outcome] = price`
abbrev pub put_snapshot :
    SnapshotKey → ℕ → ℕ → List (SnapshotKey × Prices) → List (SnapshotKey × Prices)
put_snapshot key outcome price [] = (key, (outcome, price) ∷ []) ∷ []
put_snapshot key outcome price (s ∷ ss) =
    let rest = put_snapshot key outcome price ss in
    if eqb_key s.0 key then (s.0, put_price outcome price s.1) ∷ ss else s ∷ rest

abbrev pub key_of : Odds → SnapshotKey
key_of o = record {
  fixture_id = o.fixture_id;
  bookmaker = o.bookmaker;
  market = o.market;
  ts = o.ts;
}

-- An issue of a fixture in scope.
abbrev pub issue_of : Severity → Code → Scoped → Issue
issue_of severity code x = record {
  severity = severity;
  code = code;
  league = x.code;
  season = x.fixture.season;
  fixture_ids = x.fixture.id ∷ [];
}

abbrev pub is_price_unusable : Odds → Bool
is_price_unusable o = not (ltb min_price o.price && leb o.price max_price)

abbrev pub is_late_closing : Fixture → Odds → Bool
is_late_closing f o = o.is_closing && ltb f.kickoff_at o.ts

-- `s.add(key)` under a condition.
abbrev pub key_if : Bool → SnapshotKey → List SnapshotKey → List SnapshotKey
key_if b k ks = if b then k ∷ ks else ks

-- The body of the loop, for the quote's fixture in scope.
abbrev pub scan_for : Option Scoped → Odds → Scan → Scan
scan_for none o z = z
scan_for (some x) o z = record {
  issues =
      z.issues
      ++ (issue_if (is_price_unusable o) (issue_of error odds_price_out_of_range x)
          ++ issue_if (is_late_closing x.fixture o) (issue_of error closing_after_kickoff x));
  snapshots = put_snapshot (key_of o) o.outcome o.price z.snapshots;
  invalid = key_if (is_price_unusable o) (key_of o) z.invalid;
  not_closing = key_if (not o.is_closing) (key_of o) z.not_closing;
}

unfoldable pub scan_quotes : List Scoped → List Odds → Scan → Scan
scan_quotes xs [] z = z
scan_quotes xs (o ∷ os) z = scan_quotes xs os (scan_for (by_id xs o.fixture_id) o z)

-- MARKET_OUTCOMES.get(market)
abbrev pub expected_outcomes : ℕ → Option ℕ
expected_outcomes market = if market == 0 then some 3 else if market == 1 then some 2 else none

abbrev pub is_incomplete : Option ℕ → Prices → Bool
is_incomplete none prices = false
is_incomplete (some expected) prices = not (length prices == expected)

abbrev pub all_positive : Prices → Bool
all_positive [] = true
all_positive (p ∷ ps) = ltb 0 p.1 && all_positive ps

-- `closing_1x2`, as pairs of a fixture and a bookmaker, and `closing_ou`.
pub record Closing : Type 0 where
  pub issues : List Issue
  pub closing_1x2 : List (ℕ × ℕ)
  pub closing_ou : List ℕ

abbrev pub contains_pair : List (ℕ × ℕ) → ℕ → ℕ → Bool
contains_pair [] a b = false
contains_pair (x ∷ xs) a b = ((x.0 == a) && (x.1 == b)) || contains_pair xs a b

abbrev pub add_pair : ℕ → ℕ → List (ℕ × ℕ) → List (ℕ × ℕ)
add_pair a b xs = if contains_pair xs a b then xs else (a, b) ∷ xs

abbrev pub add_id : ℕ → List ℕ → List ℕ
add_id a xs = if contains xs a then xs else a ∷ xs

-- A snapshot is late, has an unusable price, or has a quote from before the closing.
abbrev pub is_not_closing : Scan → Fixture → SnapshotKey → Bool
is_not_closing z f key =
    ltb f.kickoff_at key.ts || contains_key z.invalid key || contains_key z.not_closing key

module _ (typical_overround : Prices → Bool) where
  -- The branches on the market, for a snapshot that counts.
  abbrev pub count_snapshot : Scoped → SnapshotKey → Prices → Closing → Closing
  count_snapshot x key prices c =
      if key.market == 0
      then record c {
        closing_1x2 = add_pair key.fixture_id key.bookmaker c.closing_1x2;
        issues =
            c.issues
            ++ issue_if (all_positive prices && not (typical_overround prices))
                (issue_of warning overround_out_of_range x);
      }
      else if key.market == 1
      then record c { closing_ou = add_id key.fixture_id c.closing_ou }
      else c

  abbrev pub close_for : Scan → Option Scoped → SnapshotKey → Prices → Closing → Closing
  close_for z none key prices c = c
  close_for z (some x) key prices c =
      if is_incomplete (expected_outcomes key.market) prices
      then record c { issues = c.issues ++ (issue_of warning incomplete_odds_snapshot x ∷ []) }
      else if is_not_closing z x.fixture key
      then c
      else count_snapshot x key prices c

  unfoldable pub close_snapshots :
      List Scoped → Scan → List (SnapshotKey × Prices) → Closing → Closing
  close_snapshots xs z [] c = c
  close_snapshots xs z (s ∷ ss) c =
      close_snapshots xs z ss (close_for z (by_id xs s.0.fixture_id) s.0 s.1 c)

-- Recorded disagreements between sources.
abbrev pub conflict_for : Option Scoped → List Issue
conflict_for none = []
conflict_for (some x) = issue_of warning score_conflict_across_sources x ∷ []

unfoldable pub conflict_issues : List Scoped → List Conflict → List Issue
conflict_issues xs [] = []
conflict_issues xs (c ∷ cs) = conflict_for (by_id xs c.fixture_id) ++ conflict_issues xs cs
