-- ===== src/Quality/Model.antt =====
-- backend/app/services/data_quality.py: issues, rows and reports. The details of an issue are texts
-- for a reader and are left out, as are the percentages, which are floats. The codes of leagues and
-- bookmakers are numbered in the order of their names.
use betpulse.Prelude.{
  ℕ, Bool, true, false, List, [], ◌∷◌, ◌==◌, ◌&&◌, ◌||◌, ltb, select, is_empty, not, if◌then◌else◌,
}
use betpulse.Ingest.Seasons.{Text}

pub data Severity : Type 0 where
  error warning : Severity

-- The codes, in the order of their names.
pub data Code : Type 0 where
  closing_after_kickoff duplicate_fixture finished_in_future finished_without_score : Code
  impossible_score incomplete_odds_snapshot non_canonical_season odds_coverage_low : Code
  odds_price_out_of_range overround_out_of_range score_conflict_across_sources : Code
  season_incomplete uneven_team_schedule unusual_team_count : Code

abbrev pub code_rank : Code → ℕ
code_rank closing_after_kickoff = 0
code_rank duplicate_fixture = 1
code_rank finished_in_future = 2
code_rank finished_without_score = 3
code_rank impossible_score = 4
code_rank incomplete_odds_snapshot = 5
code_rank non_canonical_season = 6
code_rank odds_coverage_low = 7
code_rank odds_price_out_of_range = 8
code_rank overround_out_of_range = 9
code_rank score_conflict_across_sources = 10
code_rank season_incomplete = 11
code_rank uneven_team_schedule = 12
code_rank unusual_team_count = 13

pub record Issue : Type 0 where
  pub severity : Severity
  pub code : Code
  pub league : ℕ
  pub season : Text
  pub fixture_ids : List ℕ

pub record CoverageRow : Type 0 where
  pub league : ℕ
  pub season : Text
  pub fixtures : ℕ
  pub finished : ℕ
  pub with_score : ℕ
  pub teams : ℕ
  pub expected_fixtures : ℕ
  pub time_known : ℕ
  pub closing_1x2_by_bookmaker : List (ℕ × ℕ)
  pub closing_ou : ℕ
  pub issues : ℕ

pub record DataReport : Type 0 where
  pub generated_at : ℕ
  pub rows : List CoverageRow
  pub issues : List Issue

abbrev pub severity_rank : Severity → ℕ
severity_rank error = 0
severity_rank warning = 1

abbrev pub is_error : Issue → Bool
is_error i = severity_rank i.severity == 0

unfoldable pub errors : DataReport → List Issue
errors r = select is_error r.issues

unfoldable pub warnings : DataReport → List Issue
warnings r = select (λ i. not (is_error i)) r.issues

unfoldable pub exit_code : Bool → DataReport → ℕ
exit_code strict r =
    if not (is_empty (errors r)) || (strict && not (is_empty (warnings r))) then 1 else 0

-- Texts in the order of their characters, the shorter first.
abbrev pub is_text_before : Text → Text → Bool
is_text_before [] [] = false
is_text_before [] (y ∷ ys) = true
is_text_before (x ∷ xs) [] = false
is_text_before (x ∷ xs) (y ∷ ys) = ltb x y || ((x == y) && is_text_before xs ys)

-- The order of (league, season).
abbrev pub is_key_before : ℕ × Text → ℕ × Text → Bool
is_key_before a b = ltb a.0 b.0 || ((a.0 == b.0) && is_text_before a.1 b.1)

-- The key of the sort: severity, code, league, season.
abbrev pub is_issue_before : Issue → Issue → Bool
is_issue_before i j =
    ltb (severity_rank i.severity) (severity_rank j.severity)
    || ((severity_rank i.severity == severity_rank j.severity)
        && (ltb (code_rank i.code) (code_rank j.code)
            || ((code_rank i.code == code_rank j.code)
                && is_key_before (i.league, i.season) (j.league, j.season))))

-- `issues.sort(key=…)`, which keeps the order of equal keys.
abbrev pub insert_issue : Issue → List Issue → List Issue
insert_issue i [] = i ∷ []
insert_issue i (j ∷ js) =
    let rest = insert_issue i js in if is_issue_before j i then j ∷ rest else i ∷ j ∷ js

unfoldable pub sort_issues : List Issue → List Issue
sort_issues [] = []
sort_issues (i ∷ is) = insert_issue i (sort_issues is)

-- `add` under a condition.
abbrev pub issue_if : Bool → Issue → List Issue
issue_if b i = if b then i ∷ [] else []
