-- ===== src/Ingest/Model.antt =====
-- The tables of backend/app/models/reference.py, fixture.py, market.py and ingestion_run.py that an
-- ingestion writes, and the records of providers/dtos.py. Identifiers that come from outside are
-- numbers where they are only compared, names of teams are texts; instants are microseconds and
-- prices are in thousandths. A new row's identifier is the next one of a counter, as uuid4 gives
-- one that no row has.
use betpulse.Prelude.{ℕ, Bool, true, false, Option, List, ◌==◌, find}
use betpulse.Ingest.Seasons.{Text}

pub record League : Type 0 where
  pub id : ℕ
  pub code : ℕ
  pub name : ℕ
  pub country : Option ℕ
  pub season_start_month : Option ℕ

pub record Team : Type 0 where
  pub id : ℕ
  pub name : Text
  pub normalized_name : Text
  pub country : Option ℕ

pub record TeamAlias : Type 0 where
  pub provider : ℕ
  pub alias : Text
  pub external_id : Option ℕ
  pub team_id : ℕ

pub record UnmappedTeam : Type 0 where
  pub provider : ℕ
  pub raw_name : Text
  pub external_id : Option ℕ
  pub league_hint : Option ℕ
  pub seen_count : ℕ

pub record LeagueAlias : Type 0 where
  pub provider : ℕ
  pub alias : ℕ
  pub league_id : ℕ

-- The audit of `map_team`.
pub record TeamMapped : Type 0 where
  pub provider : ℕ
  pub raw_name : Text
  pub team_id : ℕ
  pub previous_team_id : Option ℕ
  pub external_id : Option ℕ

pub record Names : Type 0 where
  pub leagues : List League
  pub teams : List Team
  pub team_aliases : List TeamAlias
  pub league_aliases : List LeagueAlias
  pub unmapped_teams : List UnmappedTeam
  pub mapped_events : List TeamMapped
  pub next_id : ℕ

pub data FixtureStatus : Type 0 where
  scheduled live finished : FixtureStatus

abbrev pub same_status : FixtureStatus → FixtureStatus → Bool
same_status scheduled scheduled = true
same_status live live = true
same_status finished finished = true
same_status _ _ = false

pub record Fixture : Type 0 where
  pub id : ℕ
  pub league_id : ℕ
  pub season : Text
  pub home_team_id : ℕ
  pub away_team_id : ℕ
  pub kickoff_at : ℕ
  pub kickoff_time_known : Bool
  pub status : FixtureStatus
  pub ft_home : Option ℕ
  pub ft_away : Option ℕ
  pub ht_home : Option ℕ
  pub ht_away : Option ℕ
  pub source : ℕ

pub record ExternalRef : Type 0 where
  pub fixture_id : ℕ
  pub provider : ℕ
  pub external_id : ℕ

pub record Odds : Type 0 where
  pub fixture_id : ℕ
  pub bookmaker : ℕ
  pub market : ℕ
  pub outcome : ℕ
  pub ts : ℕ
  pub price : ℕ
  pub is_closing : Bool

pub data ScoreField : Type 0 where
  ft_home ft_away ht_home ht_away : ScoreField

pub record Conflict : Type 0 where
  pub fixture_id : ℕ
  pub provider : ℕ
  pub external_id : Option ℕ
  pub field : ScoreField
  pub existing : ℕ
  pub incoming : ℕ

pub data Change : Type 0 where
  score : ScoreField → ℕ → Change
  status : FixtureStatus → Change
  kickoff_at : ℕ → Change
  kickoff_time_known : Bool → Change

-- The audit of a correction: the fixture, the provider, the changes and the quotes removed.
pub record Corrected : Type 0 where
  pub fixture_id : ℕ
  pub provider : ℕ
  pub changes : List Change
  pub odds_removed : ℕ

pub record Tables : Type 0 where
  pub names : Names
  pub fixtures : List Fixture
  pub refs : List ExternalRef
  pub odds : List Odds
  -- fixture_stats: the fixture and its numbers, which are only stored.
  pub stats : List (ℕ × ℕ)
  pub conflicts : List Conflict
  pub events : List Corrected
  pub next_id : ℕ

pub record TeamRef : Type 0 where
  pub raw_name : Text
  pub external_id : Option ℕ

pub record QuoteDto : Type 0 where
  pub bookmaker : ℕ
  pub market : ℕ
  pub outcome : ℕ
  pub price : ℕ
  pub ts : ℕ
  pub is_closing : Bool

pub record FixtureDto : Type 0 where
  pub provider : ℕ
  pub external_id : Option ℕ
  pub raw_code : Option ℕ
  pub season : Text
  pub home : TeamRef
  pub away : TeamRef
  pub kickoff_at : ℕ
  pub kickoff_time_known : Bool
  pub status : FixtureStatus
  pub ft_home : Option ℕ
  pub ft_away : Option ℕ
  pub ht_home : Option ℕ
  pub ht_away : Option ℕ
  pub odds : List QuoteDto
  pub stats : Option ℕ

pub record LeagueMeta : Type 0 where
  pub name : ℕ
  pub country : ℕ
  pub season_start_month : Option ℕ

-- IngestSummary; a group is a league's code and a season.
pub record Summary : Type 0 where
  pub fixtures_inserted : ℕ
  pub fixtures_seen : ℕ
  pub fixtures_linked : ℕ
  pub odds_inserted : ℕ
  pub odds_rejected : ℕ
  pub fixtures_corrected : ℕ
  pub conflicts : ℕ
  pub teams_created : ℕ
  pub leagues_created : ℕ
  pub groups : List ((ℕ × Text) × ℕ)

-- The session and the summary of the call.
pub record Run : Type 0 where
  pub tables : Tables
  pub summary : Summary

-- `session.get(Fixture, id)`: Python's row objects are identified by their primary key.
abbrev pub fixture_of : Tables → ℕ → Option Fixture
fixture_of t id = find (λ f. f.id == id) t.fixtures
