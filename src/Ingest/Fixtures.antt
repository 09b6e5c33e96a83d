-- ===== src/Ingest/Fixtures.antt =====
-- backend/app/services/ingestion/core.py: the fixture that a record denotes, the references of the
-- sources to fixtures, and a new fixture.
use betpulse.Prelude.{
  ℕ, suc, ◌+◌, ◌-◌, ◌*◌, Bool, true, false, Option, none, some, List, [], ◌∷◌, ◌==◌, ◌&&◌, ◌||◌,
  leb, ltb, find, is_some, select, if◌then◌else◌,
}
use betpulse.Clock.{hour}
use betpulse.Ingest.Seasons.{Text, eqb_text}
use betpulse.Ingest.Model.{Fixture, ExternalRef, FixtureDto, Tables, fixture_of}

abbrev pub dedup_window : ℕ
dedup_window = 36 * hour

-- `abs(a - b)`
abbrev pub distance : ℕ → ℕ → ℕ
distance a b = (a - b) + (b - a)

abbrev pub is_ref : ℕ → ℕ → ExternalRef → Bool
is_ref provider external_id x = (x.provider == provider) && (x.external_id == external_id)

abbrev pub referred : Tables → Option ExternalRef → Option Fixture
referred t none = none
referred t (some x) = fixture_of t x.fixture_id

-- The fixture of the source's own id; uq_fixture_external_ref leaves one row at most.
unfoldable pub by_reference : Tables → ℕ → Option ℕ → Option Fixture
by_reference t provider none = none
by_reference t provider (some external_id) = referred t (find (is_ref provider external_id) t.refs)

abbrev pub is_candidate : ℕ → ℕ → ℕ → ℕ → Fixture → Bool
is_candidate league_id home_id away_id kickoff f =
    (f.league_id == league_id)
    && (f.home_team_id == home_id)
    && (f.away_team_id == away_id)
    && leb (distance f.kickoff_at kickoff) dedup_window

-- `ORDER BY distance, id`
abbrev pub is_closer : ℕ → Fixture → Fixture → Bool
is_closer kickoff f g =
    ltb (distance f.kickoff_at kickoff) (distance g.kickoff_at kickoff)
    || ((distance f.kickoff_at kickoff == distance g.kickoff_at kickoff) && ltb f.id g.id)

abbrev pub closest_of : ℕ → Fixture → List Fixture → Fixture
closest_of kickoff f [] = f
closest_of kickoff f (g ∷ gs) = closest_of kickoff (if is_closer kickoff g f then g else f) gs

abbrev pub closest : ℕ → List Fixture → Option Fixture
closest kickoff [] = none
closest kickoff (f ∷ fs) = some (closest_of kickoff f fs)

unfoldable pub by_kickoff : Tables → ℕ → ℕ → ℕ → ℕ → Option Fixture
by_kickoff t league_id home_id away_id kickoff =
    closest kickoff (select (is_candidate league_id home_id away_id kickoff) t.fixtures)

abbrev pub found_or : Option Fixture → Option Fixture → Option Fixture × Bool
found_or (some f) _ = (some f, true)
found_or none other = (other, false)

-- The fixture, and whether the source's own id found it.
unfoldable pub find_fixture : Tables → ℕ → Option ℕ → ℕ → ℕ → ℕ → ℕ → Option Fixture × Bool
find_fixture t provider external_id league_id home_id away_id kickoff =
    found_or (by_reference t provider external_id) (by_kickoff t league_id home_id away_id kickoff)

-- INSERT … ON CONFLICT ON CONSTRAINT uq_fixture_external_ref DO NOTHING.
unfoldable pub link_external_ref : ℕ → ℕ → ℕ → Tables → Tables
link_external_ref fixture_id provider external_id t =
    if is_some (find (is_ref provider external_id) t.refs) then t else record t {
      refs =
          record { fixture_id = fixture_id; provider = provider; external_id = external_id }
          ∷ t.refs;
    }

-- uq_fixture_identity
abbrev pub is_same_match : ℕ → Text → ℕ → ℕ → ℕ → Fixture → Bool
is_same_match league_id season home_id away_id kickoff f =
    (f.league_id == league_id)
    && eqb_text f.season season
    && (f.home_team_id == home_id)
    && (f.away_team_id == away_id)
    && (f.kickoff_at == kickoff)

abbrev pub new_fixture : ℕ → FixtureDto → ℕ → Text → ℕ → ℕ → Fixture
new_fixture id dto league_id season home_id away_id = record {
  id = id;
  league_id = league_id;
  season = season;
  home_team_id = home_id;
  away_team_id = away_id;
  kickoff_at = dto.kickoff_at;
  kickoff_time_known = dto.kickoff_time_known;
  status = dto.status;
  ft_home = dto.ft_home;
  ft_away = dto.ft_away;
  ht_home = dto.ht_home;
  ht_away = dto.ht_away;
  source = dto.provider;
}

-- `_insert_fixture`: the new row's identifier, or none on a conflict.
unfoldable pub insert_fixture : FixtureDto → ℕ → Text → ℕ → ℕ → Tables → Option ℕ × Tables
insert_fixture dto league_id season home_id away_id t =
    if is_some (find (is_same_match league_id season home_id away_id dto.kickoff_at) t.fixtures)
    then (none, t)
    else (
      some t.next_id,
      record t {
        fixtures = new_fixture t.next_id dto league_id season home_id away_id ∷ t.fixtures;
        next_id = suc t.next_id;
      },
    )
