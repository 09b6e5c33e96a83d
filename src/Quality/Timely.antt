-- ===== src/Quality/Timely.antt =====
-- The report on tables whose quotes are in time.
use betpulse.Prelude.{
  ℕ, ◌+◌, ◌≡◌, refl, ◌∙◌, Bool, true, false, Option, none, some, List, [], ◌∷◌, ◌++◌, ◌==◌, ◌&&◌,
  count_if, arith, Bool-cases, inl, inr,
}
use betpulse.Ingest.Model.{Fixture, Odds, League, Tables}
use betpulse.Ingest.Rows.{row, Below, row-Below}
use betpulse.Ingest.TimeRule.{InTime, is_in_time_for}
use betpulse.Ingest.Keeps.{Timely}
use betpulse.Ingest.Seasons.{Text}
use betpulse.Ingest.Runner.{Source, Database}
use betpulse.Ingest.Pairs.{run_recorded_ingestion}
use betpulse.Ingest.History.{run_recorded_ingestion-Timely}
use betpulse.Ml.OddsSelection.{Prices}
use betpulse.Quality.Model.{
  Issue, error, odds_price_out_of_range, closing_after_kickoff, is_error, issue_if, code_rank,
}
use betpulse.Quality.Checks.{
  Scope, Scoped, scoped_fixtures, keep_scoped, is_in_scope, by_id, fixture_issues, fixtures_issues,
  duplicates_with, duplicates_in, duplicate_issues, league_code, is_duplicate, is_pair_scoped,
  duplicate_of,
}
use betpulse.Quality.Quotes.{
  Scan, issue_of, scan_for, scan_quotes, conflict_issues, is_price_unusable, is_late_closing,
}
use betpulse.Quality.Coverage.{put_groups, seasons_issues}
use betpulse.Quality.Report.{no_scan, no_closing, scan_of, closing_of, issues_of, build_report}
use betpulse.Quality.Counts.{count_if-append, count_if-sort_issues}
use betpulse.Quality.Warnings.{conflict_issues-quiet, seasons_issues-quiet, close_snapshots-quiet}

-- An error of the code `closing_after_kickoff`.
abbrev pub is_closing_late : Issue → Bool
is_closing_late i = is_error i && (code_rank i.code == 0)

is_closing_late-quiet : (i : Issue) → is_error i ≡ false → is_closing_late i ≡ false
is_closing_late-quiet i h = ground (arith, h)

abbrev late : List Issue → ℕ
late is = count_if is_closing_late is

late-append : (xs ys : List Issue) → late (xs ++ ys) ≡ late xs + late ys
late-append xs ys = count_if-append is_closing_late xs ys

-- A fixture in scope is the stored one.
keep_scoped-row :
    (s : Scope) (f : Fixture) (code : Option ℕ) (rest : List Scoped) (fs : List Fixture) (id : ℕ)
    (x : Scoped)
    → Below f.id fs
    → (by_id rest id ≡ some x → row id fs ≡ some x.fixture)
    → by_id (keep_scoped s f code rest) id ≡ some x
    → row id (f ∷ fs) ≡ some x.fixture
keep_scoped-row s f none rest fs id x below others h =
    ground (arith, others h, row-Below f.id id fs x.fixture below (others h))
keep_scoped-row s f (some code) rest fs id x below others h =
    elim (Bool-cases (is_in_scope s code f.season)) [
      | inl inside ↦ elim (Bool-cases (f.id == id)) [
        | inl same ↦ ground (arith, same, inside, h)
        | inr other ↦ ground (arith, other, inside, others (ground (arith, other, inside, h)))
      ]
      | inr outside ↦
          let found = others (ground (arith, outside, h)) in
          ground (arith, found, row-Below f.id id fs x.fixture below found)
    ]

scoped_fixtures-row :
    (s : Scope) (leagues : List League) (n id : ℕ) (fs : List Fixture) (x : Scoped)
    → Below n fs
    → by_id (scoped_fixtures s leagues fs) id ≡ some x
    → row id fs ≡ some x.fixture
unfolding scoped_fixtures
scoped_fixtures-row s leagues n id [] x below h = absurd (cc)
scoped_fixtures-row s leagues n id (f ∷ fs) x (lower, below) h =
    keep_scoped-row s f (league_code leagues f.league_id) (scoped_fixtures s leagues fs) fs id x
      below (scoped_fixtures-row s leagues f.id id fs x below) h

module _ (fixtures : List Fixture) where
  scan_for-late :
      (x : Option Scoped) (o : Odds) (z : Scan)
      → ((y : Scoped) → x ≡ some y → row o.fixture_id fixtures ≡ some y.fixture)
      → is_in_time_for (row o.fixture_id fixtures) o ≡ true
      → late (scan_for x o z).issues ≡ late z.issues
  scan_for-late none o z found h = refl
  scan_for-late (some x) o z found h =
      let price = issue_if (is_price_unusable o) (issue_of error odds_price_out_of_range x) in
      let after = issue_if (is_late_closing x.fixture o) (issue_of error closing_after_kickoff x) in
      let stored = found x refl in
      ground (arith, late-append z.issues (price ++ after), late-append price after, stored, h)

  scan_quotes-late :
      (xs : List Scoped) (os : List Odds) (z : Scan)
      → ((id : ℕ) (x : Scoped) → by_id xs id ≡ some x → row id fixtures ≡ some x.fixture)
      → InTime fixtures os
      → late (scan_quotes xs os z).issues ≡ late z.issues
  unfolding scan_quotes
  scan_quotes-late xs [] z found h = refl
  scan_quotes-late xs (o ∷ os) z found (h, rest) =
      scan_quotes-late xs os (scan_for (by_id xs o.fixture_id) o z) found rest
      ∙ scan_for-late (by_id xs o.fixture_id) o z (found o.fixture_id) h

fixture_issues-late : (now : ℕ) (x : Scoped) → late (fixture_issues now x) ≡ 0
unfolding fixture_issues
fixture_issues-late now x = ground (arith)

fixtures_issues-late : (now : ℕ) (xs : List Scoped) → late (fixtures_issues now xs) ≡ 0
unfolding fixtures_issues
fixtures_issues-late now [] = refl
fixtures_issues-late now (x ∷ xs) = omega (
  arith,
  late-append (fixture_issues now x) (fixtures_issues now xs),
  fixture_issues-late now x,
  fixtures_issues-late now xs,
)

module _ (s : Scope) (xs : List Scoped) (leagues : List League) where
  duplicates_with-late :
      (code : ℕ) (f : Fixture) (gs : List Fixture) → late (duplicates_with s xs code f gs) ≡ 0
  duplicates_with-late code f [] = refl
  duplicates_with-late code f (g ∷ gs) = ground (
    arith,
    late-append (issue_if (is_duplicate f g && is_pair_scoped s xs f g) (duplicate_of xs code f g))
        (duplicates_with s xs code f gs),
    duplicates_with-late code f gs,
  )

  duplicates_in-late :
      (code : Option ℕ) (f : Fixture) (gs : List Fixture) → late (duplicates_in s xs code f gs) ≡ 0
  duplicates_in-late none f gs = refl
  duplicates_in-late (some code) f gs = duplicates_with-late code f gs

  duplicate_issues-late : (all fs : List Fixture) → late (duplicate_issues s xs leagues all fs) ≡ 0
  unfolding duplicate_issues
  duplicate_issues-late all [] = refl
  duplicate_issues-late all (f ∷ fs) = omega (
    arith,
    late-append (duplicates_in s xs (league_code leagues f.league_id) f all)
        (duplicate_issues s xs leagues all fs),
    duplicates_in-late (league_code leagues f.league_id) f all,
    duplicate_issues-late all fs,
  )

build_report-late :
    (typical_overround : Prices → Bool) (now : ℕ) (s : Scope) (t : Tables)
    → Timely t
    → late (build_report typical_overround now s t).issues ≡ 0
unfolding build_report issues_of scan_of closing_of
build_report-late typical_overround now s t h =
    let xs = scoped_fixtures s t.names.leagues t.fixtures in
    let first = fixtures_issues now xs in
    let second = duplicate_issues s xs t.names.leagues t.fixtures t.fixtures in
    let third = (scan_of t xs).issues in
    let fourth = (closing_of typical_overround t xs).issues in
    let fifth = conflict_issues xs t.conflicts in
    let closing = closing_of typical_overround t xs in
    let sixth = seasons_issues now closing (put_groups xs []) in
    omega (
      arith,
      count_if-sort_issues is_closing_late (issues_of typical_overround now s t xs),
      late-append (first ++ second ++ third ++ fourth ++ fifth) sixth,
      late-append (first ++ second ++ third ++ fourth) fifth,
      late-append (first ++ second ++ third) fourth,
      late-append (first ++ second) third,
      late-append first second,
      fixtures_issues-late now xs,
      duplicate_issues-late s xs t.names.leagues t.fixtures t.fixtures,
      scan_quotes-late t.fixtures xs t.odds no_scan
          (λ id x. scoped_fixtures-row s t.names.leagues t.next_id id t.fixtures x h.1) h.0,
      close_snapshots-quiet is_closing_late is_closing_late-quiet typical_overround xs
          (scan_of t xs) (scan_of t xs).snapshots no_closing,
      conflict_issues-quiet is_closing_late is_closing_late-quiet xs t.conflicts,
      seasons_issues-quiet is_closing_late is_closing_late-quiet now closing (put_groups xs []),
    )

-- Whatever the sources delivered and whichever pairs failed, a report on the tables that a recorded
-- ingestion leaves, at any time and in any scope, has no error `closing_after_kickoff`, given tables
-- that kept the time rule before it.
pub build_report-run_recorded_ingestion :
    (source : Source) (force : Bool) (triggered_by : Option ℕ) (stale_run_minutes now : ℕ)
    (leagues : List ℕ) (seasons : List Text) (db : Database) (typical_overround : Prices → Bool)
    (at : ℕ) (s : Scope)
    → Timely db.tables
    → count_if is_closing_late
        (build_report typical_overround at s
          (run_recorded_ingestion source force triggered_by stale_run_minutes now leagues seasons
            db).1.tables).issues
      ≡ 0
build_report-run_recorded_ingestion source force triggered_by stale_run_minutes now leagues seasons
      db typical_overround at s h =
    build_report-late typical_overround at s
      (run_recorded_ingestion source force triggered_by stale_run_minutes now leagues seasons
        db).1.tables
      (run_recorded_ingestion-Timely source force triggered_by stale_run_minutes now leagues seasons
        db h)
