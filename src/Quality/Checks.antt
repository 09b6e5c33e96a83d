-- ===== src/Quality/Checks.antt =====
-- backend/app/services/data_quality.py: the scope of a report, the checks of each fixture and the
-- fixtures recorded twice. A score is the 32-bit word of its Integer column, and is read as signed.
use betpulse.Prelude.{
  ℕ, ◌*◌, ◌-◌, ◌^◌, Bool, false, Option, none, some, List, [], ◌∷◌, ◌++◌, ◌==◌, ◌&&◌, ◌||◌, ltb,
  leb, is_empty, is_some, contains, find, not, if◌then◌else◌,
}
use betpulse.Prelude.Int.{ℤ, pos, negsuc, ltb_ℤ}
use betpulse.Clock.{hour}
use betpulse.Ingest.Seasons.{Text, eqb_text}
use betpulse.Ingest.Model.{League, Fixture, finished, same_status}
use betpulse.Ingest.Fixtures.{distance}
use betpulse.Quality.Model.{
  Issue, error, issue_if, finished_without_score, finished_in_future, impossible_score,
  duplicate_fixture,
}

abbrev pub duplicate_window : ℕ
duplicate_window = 36 * hour

abbrev pub max_goals : ℕ
max_goals = 15

-- `leagues` and `seasons` of the call; an empty list filters nothing, as None does.
pub record Scope : Type 0 where
  pub leagues : List ℕ
  pub seasons : List Text

abbrev pub contains_text : List Text → Text → Bool
contains_text [] season = false
contains_text (s ∷ ss) season = eqb_text s season || contains_text ss season

abbrev pub is_in_scope : Scope → ℕ → Text → Bool
is_in_scope s code season =
    (is_empty s.leagues || contains s.leagues code)
    && (is_empty s.seasons || contains_text s.seasons season)

-- A fixture with the code of its league: a row of the first query.
pub record Scoped : Type 0 where
  pub fixture : Fixture
  pub code : ℕ

abbrev pub code_in : Option League → Option ℕ
code_in none = none
code_in (some l) = some l.code

-- JOIN leagues ON leagues.id = fixtures.league_id
abbrev pub league_code : List League → ℕ → Option ℕ
league_code leagues id = code_in (find (λ l. l.id == id) leagues)

abbrev pub keep_scoped : Scope → Fixture → Option ℕ → List Scoped → List Scoped
keep_scoped s f none rest = rest
keep_scoped s f (some code) rest =
    if is_in_scope s code f.season then record { fixture = f; code = code } ∷ rest else rest

unfoldable pub scoped_fixtures : Scope → List League → List Fixture → List Scoped
scoped_fixtures s leagues [] = []
scoped_fixtures s leagues (f ∷ fs) =
    keep_scoped s f (league_code leagues f.league_id) (scoped_fixtures s leagues fs)

-- `by_id.get(id)`
abbrev pub by_id : List Scoped → ℕ → Option Scoped
by_id xs id = find (λ x. x.fixture.id == id) xs

abbrev pub is_finished : Fixture → Bool
is_finished f = same_status f.status finished

abbrev pub has_score : Fixture → Bool
has_score f = is_some f.ft_home && is_some f.ft_away

-- The integer that a 32-bit word of an Integer column stands for.
abbrev pub signed : ℕ → ℤ
signed w = if ltb w (2 ^ 31) then pos w else negsuc (2 ^ 32 - 1 - w)

-- `s < 0 or s > MAX_GOALS`
abbrev pub is_over : Option ℕ → Bool
is_over none = false
is_over (some s) = ltb_ℤ (signed s) (pos 0) || ltb_ℤ (pos max_goals) (signed s)

-- More goals at half time than at full time, where all four scores are known.
abbrev pub half_exceeds : Option ℕ → Option ℕ → Option ℕ → Option ℕ → Bool
half_exceeds (some hh) (some fh) (some ha) (some fa) =
    ltb_ℤ (signed fh) (signed hh) || ltb_ℤ (signed fa) (signed ha)
half_exceeds _ _ _ _ = false

abbrev pub is_impossible : Fixture → Bool
is_impossible f =
    is_over f.ft_home
    || is_over f.ft_away
    || is_over f.ht_home
    || is_over f.ht_away
    || half_exceeds f.ht_home f.ft_home f.ht_away f.ft_away

unfoldable pub fixture_issues : ℕ → Scoped → List Issue
fixture_issues now x =
    let f = x.fixture in
    issue_if (is_finished f && not (has_score f)) (record {
      severity = error;
      code = finished_without_score;
      league = x.code;
      season = f.season;
      fixture_ids = f.id ∷ [];
    })
    ++ issue_if (is_finished f && ltb now f.kickoff_at) (record {
      severity = error;
      code = finished_in_future;
      league = x.code;
      season = f.season;
      fixture_ids = f.id ∷ [];
    })
    ++ issue_if (is_impossible f) (record {
      severity = error;
      code = impossible_score;
      league = x.code;
      season = f.season;
      fixture_ids = f.id ∷ [];
    })

unfoldable pub fixtures_issues : ℕ → List Scoped → List Issue
fixtures_issues now [] = []
fixtures_issues now (x ∷ xs) = fixture_issues now x ++ fixtures_issues now xs

-- The join of a fixture with another that is the same match.
abbrev pub is_duplicate : Fixture → Fixture → Bool
is_duplicate f other =
    (other.league_id == f.league_id)
    && (other.home_team_id == f.home_team_id)
    && (other.away_team_id == f.away_team_id)
    && ltb f.id other.id
    && leb (distance other.kickoff_at f.kickoff_at) duplicate_window

abbrev pub is_scoped : List Scoped → ℕ → Bool
is_scoped xs id = is_some (by_id xs id)

-- One of the two is in the scope; without a scope every pair is.
abbrev pub is_pair_scoped : Scope → List Scoped → Fixture → Fixture → Bool
is_pair_scoped s xs f other =
    (is_empty s.leagues && is_empty s.seasons) || is_scoped xs f.id || is_scoped xs other.id

abbrev pub duplicate_of : List Scoped → ℕ → Fixture → Fixture → Issue
duplicate_of xs code f other = record {
  severity = error;
  code = duplicate_fixture;
  league = code;
  season = if is_scoped xs f.id then f.season else other.season;
  fixture_ids = f.id ∷ other.id ∷ [];
}

abbrev pub duplicates_with : Scope → List Scoped → ℕ → Fixture → List Fixture → List Issue
duplicates_with s xs code f [] = []
duplicates_with s xs code f (other ∷ others) =
    issue_if (is_duplicate f other && is_pair_scoped s xs f other) (duplicate_of xs code f other)
    ++ duplicates_with s xs code f others

abbrev pub duplicates_in : Scope → List Scoped → Option ℕ → Fixture → List Fixture → List Issue
duplicates_in s xs none f others = []
duplicates_in s xs (some code) f others = duplicates_with s xs code f others

-- Each pair of rows; `all` are the rows of `other`.
unfoldable pub duplicate_issues :
    Scope → List Scoped → List League → List Fixture → List Fixture → List Issue
duplicate_issues s xs leagues all [] = []
duplicate_issues s xs leagues all (f ∷ fs) =
    duplicates_in s xs (league_code leagues f.league_id) f all
    ++ duplicate_issues s xs leagues all fs
