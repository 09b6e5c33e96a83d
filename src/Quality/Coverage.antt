-- ===== src/Quality/Coverage.antt =====
-- backend/app/services/data_quality.py: the fixtures by league and season, their row of coverage and
-- the checks of a season. Shares of fixtures are compared without dividing.
use betpulse.Prelude.{
  ℕ, zero, suc, ◌+◌, ◌-◌, ◌*◌, max, Bool, true, false, Option, none, some, List, [], ◌∷◌, ◌++◌,
  ◌==◌, ◌&&◌, ◌||◌, ltb, not, length, is_empty, contains, count_if, select, if◌then◌else◌,
}
use betpulse.Clock.{day}
use betpulse.Ingest.Seasons.{Text, digits, eqb_text}
use betpulse.Ingest.Model.{Fixture}
use betpulse.Quality.Model.{
  Issue, warning, Code, CoverageRow, issue_if, is_key_before, non_canonical_season,
  unusual_team_count, season_incomplete, uneven_team_schedule, odds_coverage_low,
}
use betpulse.Quality.Checks.{Scoped, is_finished, has_score}
use betpulse.Quality.Quotes.{Closing, add_id}

-- `$`: the end, or a line feed before it.
abbrev pub at_dollar : Text → Bool
at_dollar [] = true
at_dollar (ch ∷ []) = ch == 10
at_dollar (ch ∷ _ ∷ _) = false

abbrev pub is_next_year : ℕ → Option (ℕ × Text) → Bool
is_next_year start none = false
is_next_year start (some (end, rest)) = at_dollar rest && (end == start + 1)

-- After the first year: the end of the label, or a dash and the next year.
abbrev pub is_rest_canonical : ℕ → Text → Bool
is_rest_canonical start [] = true
is_rest_canonical start (ch ∷ rest) =
    if ch == b'-' then is_next_year start (digits 4 0 rest) else at_dollar (ch ∷ rest)

abbrev pub is_read_canonical : Option (ℕ × Text) → Bool
is_read_canonical none = false
is_read_canonical (some (start, rest)) = is_rest_canonical start rest

unfoldable pub is_canonical_season : Text → Bool
is_canonical_season season = is_read_canonical (digits 4 0 season)

abbrev pub Group : Type 0
Group = (ℕ × Text) × List Fixture

abbrev pub is_same_key : ℕ × Text → ℕ × Text → Bool
is_same_key a b = (a.0 == b.0) && eqb_text a.1 b.1

-- `groups[key].append(f)`, the groups in the order of their keys.
abbrev pub put_group : ℕ × Text → Fixture → List Group → List Group
put_group key f [] = (key, f ∷ []) ∷ []
put_group key f (g ∷ gs) =
    let rest = put_group key f gs in
    if is_same_key g.0 key
    then (g.0, g.1 ++ (f ∷ [])) ∷ gs
    else if is_key_before key g.0
    then (key, f ∷ []) ∷ g ∷ gs
    else g ∷ rest

unfoldable pub put_groups : List Scoped → List Group → List Group
put_groups [] gs = gs
put_groups (x ∷ xs) gs = put_groups xs (put_group (x.code, x.fixture.season) x.fixture gs)

abbrev pub teams_of : List Fixture → List ℕ → List ℕ
teams_of [] teams = teams
teams_of (f ∷ fs) teams = teams_of fs (add_id f.away_team_id (add_id f.home_team_id teams))

-- `counts[k] += 1`, in the order of the keys.
abbrev pub bump : ℕ → List (ℕ × ℕ) → List (ℕ × ℕ)
bump k [] = (k, 1) ∷ []
bump k (c ∷ cs) =
    let rest = bump k cs in
    if c.0 == k then (k, suc c.1) ∷ cs else if ltb k c.0 then (k, 1) ∷ c ∷ cs else c ∷ rest

-- `for bm in closing_1x2.get(id, ()): bookmakers[bm] += 1`
abbrev pub bump_bookmakers : ℕ → List (ℕ × ℕ) → List (ℕ × ℕ) → List (ℕ × ℕ)
bump_bookmakers id [] counts = counts
bump_bookmakers id (p ∷ ps) counts =
    bump_bookmakers id ps (if p.0 == id then bump p.1 counts else counts)

unfoldable pub bookmakers_of : Closing → List Fixture → List (ℕ × ℕ) → List (ℕ × ℕ)
bookmakers_of c [] counts = counts
bookmakers_of c (f ∷ fs) counts = bookmakers_of c fs (bump_bookmakers f.id c.closing_1x2 counts)

abbrev pub played_by : List Fixture → List (ℕ × ℕ) → List (ℕ × ℕ)
played_by [] played = played
played_by (f ∷ fs) played = played_by fs (bump f.away_team_id (bump f.home_team_id played))

abbrev pub has_closing : List (ℕ × ℕ) → ℕ → Bool
has_closing [] id = false
has_closing (p ∷ ps) id = (p.0 == id) || has_closing ps id

unfoldable pub coverage_row : Closing → Group → CoverageRow
coverage_row c ((code, season), group) =
    let n = length (teams_of group []) in
    let played = select is_finished group in
    record {
      league = code;
      season = season;
      fixtures = length group;
      finished = length played;
      with_score = count_if has_score played;
      teams = n;
      expected_fixtures = n * (n - 1);
      time_known = count_if (λ f. f.kickoff_time_known) group;
      closing_1x2_by_bookmaker = bookmakers_of c played [];
      closing_ou = count_if (λ f. contains c.closing_ou f.id) played;
      issues = 0;
    }

abbrev pub take_ids : ℕ → List Fixture → List ℕ
take_ids zero fs = []
take_ids (suc n) [] = []
take_ids (suc n) (f ∷ fs) = f.id ∷ take_ids n fs

abbrev pub last_kickoff : List Fixture → ℕ
last_kickoff [] = 0
last_kickoff (f ∷ fs) = max f.kickoff_at (last_kickoff fs)

abbrev pub is_typical : ℕ → Bool
is_typical n = (n == 16) || (n == 18) || (n == 20)

-- SEASON_OVER_AFTER has passed since the last kickoff.
abbrev pub is_over_at : ℕ → List Fixture → Bool
is_over_at now group = ltb (last_kickoff group + 60 * day) now

-- Teams that did not play each other one twice.
abbrev pub is_uneven : ℕ → List Fixture → Bool
is_uneven n group = not (is_empty (select (λ p. not (p.1 == 2 * (n - 1))) (played_by group [])))

-- Less than MIN_ODDS_COVERAGE of the finished fixtures have closing 1x2 odds.
abbrev pub is_coverage_low : Closing → List Fixture → Bool
is_coverage_low c played =
    not (is_empty played)
    && ltb (10 * count_if (λ f. has_closing c.closing_1x2 f.id) played) (9 * length played)

abbrev pub season_issue : Code → ℕ × Text → List ℕ → Issue
season_issue code key ids = record {
  severity = warning;
  code = code;
  league = key.0;
  season = key.1;
  fixture_ids = ids;
}

unfoldable pub season_issues : ℕ → Closing → Group → List Issue
season_issues now c (key, group) =
    let n = length (teams_of group []) in
    issue_if (not (is_canonical_season key.1))
      (season_issue non_canonical_season key (take_ids 20 group))
    ++ issue_if (not (is_typical n)) (season_issue unusual_team_count key [])
    ++ issue_if (is_over_at now group && ltb (length group) (n * (n - 1)))
        (season_issue season_incomplete key [])
    ++ issue_if (is_over_at now group && is_uneven n group)
        (season_issue uneven_team_schedule key [])
    ++ issue_if (is_coverage_low c (select is_finished group))
        (season_issue odds_coverage_low key [])

unfoldable pub seasons_issues : ℕ → Closing → List Group → List Issue
seasons_issues now c [] = []
seasons_issues now c (g ∷ gs) = season_issues now c g ++ seasons_issues now c gs
