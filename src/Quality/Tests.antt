-- ===== src/Quality/Tests.antt =====
-- Reports on two rows of one match.
use betpulse.Prelude.{◌-◌, ◌^◌, ◌≡◌, refl, true, false, none, some, [], ◌∷◌, count_if, map}
use betpulse.Ingest.Model.{Fixture, Odds, Tables, finished}
use betpulse.Ingest.Pairs.{run_recorded_ingestion}
use betpulse.Ingest.Tests.{no_names, season_text, source, empty_database}
use betpulse.Quality.Model.{exit_code, sort_issues, code_rank}
use betpulse.Quality.Checks.{
  Scope, scoped_fixtures, is_impossible, fixture_issues, fixtures_issues, duplicate_issues,
}
use betpulse.Quality.Quotes.{scan_quotes, close_snapshots, conflict_issues}
use betpulse.Quality.Coverage.{put_groups, season_issues, seasons_issues, is_canonical_season}
use betpulse.Quality.Report.{build_report, issues_of, scan_of, closing_of}
use betpulse.Quality.Exact.{exit_code-build_report}
use betpulse.Quality.Timely.{is_closing_late, build_report-run_recorded_ingestion}
use betpulse.Quality.Totals.{total, count_of, build_report-total}

abbrev played : Fixture
played = record {
  id = 1;
  league_id = 5;
  season = season_text;
  home_team_id = 8;
  away_team_id = 9;
  kickoff_at = 50;
  kickoff_time_known = true;
  status = finished;
  ft_home = some 2;
  ft_away = some 1;
  ht_home = some 1;
  ht_away = some 0;
  source = 7;
}

-- The same match, a little later, without a score.
abbrev unscored : Fixture
unscored = record played { id = 2; kickoff_at = 60; ft_home = none }

abbrev late_quote : Odds
late_quote = record {
  fixture_id = 1;
  bookmaker = 1;
  market = 0;
  outcome = 0;
  ts = 55;
  price = 900;
  is_closing = true;
}

abbrev tables : Tables
tables = record {
  names = record no_names {
    leagues = record { id = 5; code = 3; name = 0; country = none; season_start_month = none } ∷ [];
  };
  fixtures = unscored ∷ played ∷ [];
  refs = [];
  odds = late_quote ∷ [];
  stats = [];
  conflicts = [];
  events = [];
  next_id = 3;
}

abbrev everything : Scope
everything = record { leagues = []; seasons = [] }

exit_code-build_report_example :
    exit_code false (build_report (λ _. true) 100 everything tables) ≡ 1
unfolding scoped_fixtures
exit_code-build_report_example = exit_code-build_report (λ _. true) 100 everything tables

build_report-run_recorded_ingestion_example :
    count_if is_closing_late
      (build_report
        (λ _. true)
        100
        everything
        (run_recorded_ingestion source false none 60 5_000
          (0 ∷ 9 ∷ [])
          (season_text ∷ [])
          empty_database).1.tables).issues
    ≡ 0
build_report-run_recorded_ingestion_example =
    build_report-run_recorded_ingestion source false none 60 5_000 (0 ∷ 9 ∷ []) (season_text ∷ [])
      empty_database (λ _. true) 100 everything (tt, tt, tt)

build_report-total_example :
    let rows = (build_report (λ _. true) 100 everything tables).rows in
    (total (λ r. r.fixtures) rows ≡ 2)
    × (total (λ r. r.finished) rows ≡ 2)
    × (total (λ r. r.with_score) rows ≡ 1)
    × (total (λ r. r.time_known) rows ≡ 2)
    × (total (λ r. r.closing_ou) rows ≡ 0)
    × (total (λ r. count_of 1 r.closing_1x2_by_bookmaker) rows ≡ 0)
unfolding scoped_fixtures closing_of scan_of scan_quotes close_snapshots
build_report-total_example = build_report-total (λ _. true) 100 everything tables 1

-- The score -1, as the tables hold it.
abbrev negative : Fixture
negative = record played { ft_home = some (2 ^ 32 - 1) }

negative-is_impossible : is_impossible negative ≡ true
negative-is_impossible = refl

-- The errors in the order of their codes, then the warnings.
codes_of_report :
    map (λ i. code_rank i.code) (build_report (λ _. true) 100 everything tables).issues
    ≡ 0 ∷ 1 ∷ 3 ∷ 8 ∷ 5 ∷ 6 ∷ 7 ∷ 13 ∷ []
unfolding build_report issues_of scan_of closing_of scoped_fixtures fixtures_issues fixture_issues
    duplicate_issues scan_quotes close_snapshots conflict_issues put_groups seasons_issues
    season_issues is_canonical_season sort_issues
codes_of_report = refl
