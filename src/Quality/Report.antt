-- ===== src/Quality/Report.antt =====
-- backend/app/services/data_quality.py: `build_report`.
use betpulse.Prelude.{ℕ, Bool, List, [], ◌++◌, count_if, map}
use betpulse.Ingest.Model.{Tables}
use betpulse.Ml.OddsSelection.{Prices}
use betpulse.Quality.Model.{Issue, CoverageRow, DataReport, sort_issues}
use betpulse.Quality.Checks.{Scope, Scoped, scoped_fixtures, fixtures_issues, duplicate_issues}
use betpulse.Quality.Quotes.{Scan, Closing, scan_quotes, close_snapshots, conflict_issues}
use betpulse.Quality.Coverage.{put_groups, coverage_row, seasons_issues, is_same_key}

abbrev pub is_issue_of : CoverageRow → Issue → Bool
is_issue_of r i = is_same_key (i.league, i.season) (r.league, r.season)

-- `row.issues = counts[(row.league, row.season)]`
abbrev pub count_issues : List Issue → CoverageRow → CoverageRow
count_issues is r = record r { issues = count_if (is_issue_of r) is }

abbrev pub no_scan : Scan
no_scan = record { issues = []; snapshots = []; invalid = []; not_closing = [] }

unfoldable pub scan_of : Tables → List Scoped → Scan
scan_of t xs = scan_quotes xs t.odds no_scan

abbrev pub no_closing : Closing
no_closing = record { issues = []; closing_1x2 = []; closing_ou = [] }

unfoldable pub closing_of : (Prices → Bool) → Tables → List Scoped → Closing
closing_of typical_overround t xs =
    let z = scan_of t xs in close_snapshots typical_overround xs z z.snapshots no_closing

-- The issues in the order in which they are added.
unfoldable pub issues_of : (Prices → Bool) → ℕ → Scope → Tables → List Scoped → List Issue
issues_of typical_overround now s t xs =
    fixtures_issues now xs
    ++ duplicate_issues s xs t.names.leagues t.fixtures t.fixtures
    ++ (scan_of t xs).issues
    ++ (closing_of typical_overround t xs).issues
    ++ conflict_issues xs t.conflicts
    ++ seasons_issues now (closing_of typical_overround t xs) (put_groups xs [])

unfoldable pub build_report : (Prices → Bool) → ℕ → Scope → Tables → DataReport
build_report typical_overround now s t =
    let xs = scoped_fixtures s t.names.leagues t.fixtures in
    let is = issues_of typical_overround now s t xs in
    record {
      generated_at = now;
      rows =
          map (λ g. count_issues is (coverage_row (closing_of typical_overround t xs) g))
            (put_groups xs []);
      issues = sort_issues is;
    }
