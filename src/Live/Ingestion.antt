-- ===== src/Live/Ingestion.antt =====
-- backend/app/services/live/ingestion.py: a poll brings the fixtures of the tables of Ingest into play.
-- The columns minute and last_polled_at of fixtures, which no other part of the model reads, stand in
-- a list by fixture. The empty code of a league is 0.
use betpulse.Prelude.{
  ℕ, suc, true, Option, none, some, List, [], ◌∷◌, ◌++◌, ◌==◌, ltb, not, find, update_where,
  if◌then◌else◌,
}
use betpulse.Ingest.Seasons.{Text}
use betpulse.Ingest.Action.{
  Action, Result, ok, err, season_format, quota_exhausted, or_raise, pure, ◌>>=◌,
}
use betpulse.Ingest.Model.{Names, Fixture, live, status, Tables, TeamRef}
use betpulse.Ingest.Mapping.{resolve_league, resolve_team}
use betpulse.Ingest.Steps.{canonical_season_for}
use betpulse.Ingest.Fixtures.{find_fixture, link_external_ref, is_same_match}
use betpulse.Ingest.Reconcile.{apply_changes}

pub record LiveFixtureDto : Type 0 where
  pub provider : ℕ
  pub provider_fixture_id : ℕ
  pub raw_code : Option ℕ
  pub season : Text
  pub home : TeamRef
  pub away : TeamRef
  pub kickoff_at : ℕ
  pub minute : ℕ
  pub home_score : ℕ
  pub away_score : ℕ

pub record LiveFixtureState : Type 0 where
  pub fixture_id : ℕ
  pub minute : ℕ
  pub home_score : ℕ
  pub away_score : ℕ

-- The minute and the poll's instant of a fixture.
pub record MatchClock : Type 0 where
  pub fixture_id : ℕ
  pub minute : ℕ
  pub last_polled_at : ℕ

pub record Polled : Type 0 where
  pub tables : Tables
  pub clocks : List MatchClock

pub record LivePollResult : Type 0 where
  pub seen : ℕ
  pub ingested : ℕ
  pub skipped_unmapped : ℕ
  pub states : List LiveFixtureState

abbrev pub code_or_empty : Option ℕ → ℕ
code_or_empty none = 0
code_or_empty (some code) = code

-- The identities of a record: the league, the teams and the season.
unfoldable pub resolve_live : LiveFixtureDto → Action Names (ℕ × ℕ × ℕ × Text)
resolve_live dto = do
  league ← resolve_league dto.provider (code_or_empty dto.raw_code)
  home ←
      resolve_team dto.provider dto.home.raw_name dto.home.external_id
        (some (code_or_empty dto.raw_code))
  away ←
      resolve_team dto.provider dto.away.raw_name dto.away.external_id
        (some (code_or_empty dto.raw_code))
  season ← or_raise (canonical_season_for league dto.season) season_format
  pure (league.id, home, away, season)

abbrev pub set_clock : ℕ → ℕ → ℕ → List MatchClock → List MatchClock
set_clock id minute now [] = record { fixture_id = id; minute = minute; last_polled_at = now } ∷ []
set_clock id minute now (k ∷ ks) =
    let rest = set_clock id minute now ks in
    if k.fixture_id == id
    then record { fixture_id = id; minute = minute; last_polled_at = now } ∷ ks
    else k ∷ rest

-- The row of the fixture is live, with the clock of the poll, and the source's id refers to it.
abbrev pub advance : LiveFixtureDto → ℕ → ℕ → Tables → List MatchClock → Polled
advance dto now id t clocks = record {
  tables = link_external_ref id dto.provider dto.provider_fixture_id (record t {
    fixtures = update_where (λ g. g.id == id) (apply_changes (status live ∷ [])) t.fixtures;
  });
  clocks = set_clock id dto.minute now clocks;
}

abbrev pub new_live_fixture : ℕ → LiveFixtureDto → ℕ → Text → ℕ → ℕ → Fixture
new_live_fixture id dto league_id season home_id away_id = record {
  id = id;
  league_id = league_id;
  season = season;
  home_team_id = home_id;
  away_team_id = away_id;
  kickoff_at = dto.kickoff_at;
  kickoff_time_known = true;
  status = live;
  ft_home = none;
  ft_away = none;
  ht_home = none;
  ht_away = none;
  source = dto.provider;
}

-- INSERT … ON CONFLICT ON CONSTRAINT uq_fixture_identity DO UPDATE … RETURNING id
abbrev pub insert_or_advance :
    LiveFixtureDto → ℕ → ℕ → Text → ℕ → ℕ → Option Fixture → Polled → ℕ × Polled
insert_or_advance dto now league_id season home_id away_id (some g) p =
    (g.id, advance dto now g.id p.tables p.clocks)
insert_or_advance dto now league_id season home_id away_id none p =
    let t = p.tables in
    (
      t.next_id,
      record {
        tables = link_external_ref t.next_id dto.provider dto.provider_fixture_id (record t {
          fixtures = new_live_fixture t.next_id dto league_id season home_id away_id ∷ t.fixtures;
          next_id = suc t.next_id;
        });
        clocks = set_clock t.next_id dto.minute now p.clocks;
      },
    )

abbrev pub upsert_found :
    LiveFixtureDto → ℕ → ℕ → Text → ℕ → ℕ → Option Fixture → Polled → ℕ × Polled
upsert_found dto now league_id season home_id away_id (some f) p =
    (f.id, advance dto now f.id p.tables p.clocks)
upsert_found dto now league_id season home_id away_id none p =
    insert_or_advance dto now league_id season home_id away_id
      (find (is_same_match league_id season home_id away_id dto.kickoff_at) p.tables.fixtures) p

-- `_upsert_live_fixture`
unfoldable pub upsert_live_fixture : LiveFixtureDto → ℕ → ℕ → Text → ℕ → ℕ → Polled → ℕ × Polled
upsert_live_fixture dto now league_id season home_id away_id p =
    upsert_found dto now league_id season home_id away_id
      (find_fixture p.tables dto.provider (some dto.provider_fixture_id) league_id home_id away_id
        dto.kickoff_at).0
      p

abbrev pub state_of : ℕ → LiveFixtureDto → LiveFixtureState
state_of id dto = record {
  fixture_id = id;
  minute = dto.minute;
  home_score = dto.home_score;
  away_score = dto.away_score;
}

-- The names as the resolution left them.
abbrev pub with_names : Names → Polled → Polled
with_names n p = record p { tables = record p.tables { names = n } }

abbrev pub poll_resolved :
    LiveFixtureDto
    → ℕ
    → Result (ℕ × ℕ × ℕ × Text)
    → Polled
    → LivePollResult
    → LivePollResult × Polled
poll_resolved dto now (err e) p r =
    (record r { seen = suc r.seen; skipped_unmapped = suc r.skipped_unmapped }, p)
poll_resolved dto now (ok (league_id, home_id, away_id, season)) p r =
    let (id, p') = upsert_live_fixture dto now league_id season home_id away_id p in
    (
      record r {
        seen = suc r.seen;
        ingested = suc r.ingested;
        states = r.states ++ (state_of id dto ∷ []);
      },
      p',
    )

-- The body of the loop of `poll_live`.
unfoldable pub poll_one : LiveFixtureDto → ℕ → LivePollResult × Polled → LivePollResult × Polled
poll_one dto now (r, p) =
    let (resolved, n) = resolve_live dto p.tables.names in
    poll_resolved dto now resolved (with_names n p) r

unfoldable pub poll_all :
    List LiveFixtureDto → ℕ → LivePollResult × Polled → LivePollResult × Polled
poll_all [] now x = x
poll_all (dto ∷ dtos) now x = poll_all dtos now (poll_one dto now x)

abbrev pub no_result : LivePollResult
no_result = record { seen = 0; ingested = 0; skipped_unmapped = 0; states = [] }

-- What the provider's `rate_limit_state` and `fetch_live` answer are the arguments; without quota the
-- provider is not asked.
unfoldable pub poll_live : ℕ → List LiveFixtureDto → ℕ → Polled → Result LivePollResult × Polled
poll_live requests_remaining fetched now p =
    if not (ltb 0 requests_remaining)
    then (err quota_exhausted, p)
    else let (r, p') = poll_all fetched now (no_result, p) in (ok r, p')
