-- ===== src/Ingest/Records.antt =====
-- backend/app/services/ingestion/core.py and quota.py: the records of one source for one league.
use betpulse.Prelude.{
  ℕ, suc, ◌+◌, Bool, true, false, Option, none, some, List, [], ◌∷◌, ◌==◌, ◌&&◌, not, is_some, find,
  if◌then◌else◌,
}
use betpulse.Ingest.Action.{
  Action, ok, err, value_error, runtime_error, season_format, source_not_licensed, quota_exhausted,
  pure, gets, or_raise, modify, raise_if, ◌>>=◌, ◌>>◌,
}
use betpulse.Ingest.Seasons.{Text, eqb_text}
use betpulse.Ingest.Model.{Fixture, Tables, FixtureDto, Summary, Run, LeagueMeta, fixture_of}
use betpulse.Ingest.Fixtures.{by_kickoff, find_fixture, link_external_ref, insert_fixture}
use betpulse.Ingest.Quotes.{insert_odds}
use betpulse.Ingest.Steps.{Job, reconcile, resolve_entities, canonical_season_for}

-- Where a record's fixture is: its row, whether it is new, and the kickoff that the row has.
pub record Place : Type 0 where
  pub fixture_id : ℕ
  pub inserted : Bool
  pub stored_kickoff : ℕ

abbrev pub place_of : Fixture → Place
place_of f = record { fixture_id = f.id; inserted = false; stored_kickoff = f.kickoff_at }

abbrev pub on_tables : (Tables → Tables) → Run → Run
on_tables g x = record x { tables = g x.tables }

abbrev pub on_summary : (Summary → Summary) → Run → Run
on_summary g x = record x { summary = g x.summary }

-- The branch of a record that no fixture was found for; a conflict on the insertion is a lost race.
unfoldable pub insert_row : FixtureDto → ℕ → Text → ℕ → ℕ → Action Run (Option ℕ)
insert_row dto league_id season home_id away_id x =
    let (id, t) = insert_fixture dto league_id season home_id away_id x.tables in
    (ok id, record x { tables = t })

unfoldable pub place_inserted : FixtureDto → ℕ → ℕ → ℕ → Option ℕ → Action Run Place
place_inserted dto league_id home_id away_id (some id) =
    pure record { fixture_id = id; inserted = true; stored_kickoff = dto.kickoff_at }
place_inserted dto league_id home_id away_id none = do
  found ← gets λ x. by_kickoff x.tables league_id home_id away_id dto.kickoff_at
  f ← or_raise found runtime_error
  pure (place_of f)

unfoldable pub place_new : FixtureDto → ℕ → Text → ℕ → ℕ → Action Run Place
place_new dto league_id season home_id away_id =
    insert_row dto league_id season home_id away_id >>= place_inserted dto league_id home_id away_id

-- The row object after the correction, which the session identifies by its key.
abbrev pub refreshed : Fixture → Option Fixture → Fixture
refreshed f none = f
refreshed f (some g) = g

abbrev pub count_linked : Bool → Summary → Summary
count_linked by_ref s = if by_ref then s else record s { fixtures_linked = suc s.fixtures_linked }

unfoldable pub place_found : ℕ → Bool → Fixture → FixtureDto → Action Run Place
place_found provider by_ref f dto = do
  reconcile provider by_ref f dto
  modify (on_summary (count_linked by_ref))
  row ← gets λ x. fixture_of x.tables f.id
  pure (place_of (refreshed f row))

unfoldable pub place_record :
    ℕ → FixtureDto → ℕ → Text → ℕ → ℕ → Option Fixture × Bool → Action Run Place
place_record provider dto league_id season home_id away_id (none, by_ref) =
    place_new dto league_id season home_id away_id
place_record provider dto league_id season home_id away_id (some f, by_ref) =
    place_found provider by_ref f dto

-- `groups[key] = groups.get(key, 0) + n`
abbrev pub add_group : ℕ × Text → ℕ → List ((ℕ × Text) × ℕ) → List ((ℕ × Text) × ℕ)
add_group key n [] = (key, n) ∷ []
add_group key n (g ∷ gs) =
    let rest = add_group key n gs in
    if (g.0.0 == key.0) && eqb_text g.0.1 key.1 then (g.0, g.1 + n) ∷ gs else g ∷ rest

abbrev pub count_inserted : ℕ → Text → Summary → Summary
count_inserted league_code season s = record s {
  fixtures_inserted = suc s.fixtures_inserted;
  groups = add_group (league_code, season) 1 s.groups;
}

abbrev pub store_stats : ℕ → Option ℕ → Tables → Tables
store_stats fixture_id none t = t
store_stats fixture_id (some stats) t =
    if is_some (find (λ s. s.0 == fixture_id) t.stats)
    then t
    else record t { stats = (fixture_id, stats) ∷ t.stats }

abbrev pub finish_insert : ℕ → Text → FixtureDto → Place → Run → Run
finish_insert league_code season dto place x =
    if place.inserted
    then on_summary (count_inserted league_code season)
        (on_tables (store_stats place.fixture_id dto.stats) x)
    else x

unfoldable pub store_odds : FixtureDto → Place → Run → Run
store_odds dto place x =
    let done =
      insert_odds place.fixture_id dto.kickoff_at place.stored_kickoff dto.odds
        (record { inserted = 0; rejected = 0; odds = x.tables.odds }) in
    record {
      tables = record x.tables { odds = done.odds };
      summary = record x.summary {
        odds_inserted = x.summary.odds_inserted + done.inserted;
        odds_rejected = x.summary.odds_rejected + done.rejected;
      };
    }

unfoldable pub store_record : Job → FixtureDto → ℕ → ℕ → Text → ℕ → ℕ → Action Run (Unit {0})
store_record job dto external_id league_id season home_id away_id = do
  found ← gets λ x.
      find_fixture x.tables job.provider (some external_id) league_id home_id away_id dto.kickoff_at
  place ← place_record job.provider dto league_id season home_id away_id found
  modify (on_tables (link_external_ref place.fixture_id job.provider external_id))
  modify (finish_insert job.league_code season dto place)
  modify (store_odds dto place)

abbrev pub count_seen : Summary → Summary
count_seen s = record s { fixtures_seen = suc s.fixtures_seen }

-- One turn of the loop of `ingest_records`.
unfoldable pub ingest_record : Job → FixtureDto → Action Run (Unit {0})
ingest_record job dto = do
  modify (on_summary count_seen)
  external_id ← or_raise dto.external_id value_error
  entities ← resolve_entities job dto
  season ← or_raise (canonical_season_for entities.0 dto.season) season_format
  store_record job dto external_id entities.0.id season entities.1 entities.2

unfoldable pub ingest_all : Job → List FixtureDto → Action Run (Unit {0})
ingest_all job [] = pure tt
ingest_all job (dto ∷ dtos) = ingest_record job dto >> ingest_all job dtos

abbrev pub empty_summary : Summary
empty_summary = record {
  fixtures_inserted = 0;
  fixtures_seen = 0;
  fixtures_linked = 0;
  odds_inserted = 0;
  odds_rejected = 0;
  fixtures_corrected = 0;
  conflicts = 0;
  teams_created = 0;
  leagues_created = 0;
  groups = [];
}

unfoldable pub ingest_records : Job → List FixtureDto → Action Tables Summary
ingest_records job dtos t =
    let (done, x) = ingest_all job dtos (record { tables = t; summary = empty_summary }) in
    elim done [ ok _ ↦ (ok x.summary, x.tables) | err e ↦ (err e, x.tables) ]

-- `IngestSummary.merge`
abbrev pub add_groups : List ((ℕ × Text) × ℕ) → List ((ℕ × Text) × ℕ) → List ((ℕ × Text) × ℕ)
add_groups gs [] = gs
add_groups gs ((key, n) ∷ more) = add_groups (add_group key n gs) more

unfoldable pub merge : Summary → Summary → Summary
merge s other = record {
  fixtures_inserted = s.fixtures_inserted + other.fixtures_inserted;
  fixtures_seen = s.fixtures_seen + other.fixtures_seen;
  fixtures_linked = s.fixtures_linked + other.fixtures_linked;
  odds_inserted = s.odds_inserted + other.odds_inserted;
  odds_rejected = s.odds_rejected + other.odds_rejected;
  fixtures_corrected = s.fixtures_corrected + other.fixtures_corrected;
  conflicts = s.conflicts + other.conflicts;
  teams_created = s.teams_created + other.teams_created;
  leagues_created = s.leagues_created + other.leagues_created;
  groups = add_groups s.groups other.groups;
}

-- An adapter: its name, its two flags, and what `fetch` gives, which is code of its own.
pub record Adapter : Type 0 where
  pub name : ℕ
  pub licensed_for_production : Bool
  pub may_seed_canonical : Bool
  pub fetch : ℕ → Text → List FixtureDto

unfoldable pub ensure_licensed : Bool → Adapter → Action Tables (Unit {0})
ensure_licensed is_production adapter =
    raise_if (is_production && not adapter.licensed_for_production) source_not_licensed

unfoldable pub ingest_from_adapter :
    (Text → Text) → Bool → Adapter → ℕ → Text → Option LeagueMeta → Action Tables Summary
ingest_from_adapter fold is_production adapter league_code season meta = do
  ensure_licensed is_production adapter
  ingest_records
      (record {
        fold = fold;
        provider = adapter.name;
        league_code = league_code;
        seed = adapter.may_seed_canonical;
        meta = meta;
      })
      (adapter.fetch league_code season)

-- backend/app/services/ingestion/quota.py. The provider gives the answers; the state counts the
-- fetches. A negative remainder is 0.
unfoldable pub fetch_fixtures_guarded : {A : Type 0} → ℕ → A → Action ℕ A
fetch_fixtures_guarded requests_remaining answer n =
    if requests_remaining == 0 then (err quota_exhausted, n) else (ok answer, suc n)
