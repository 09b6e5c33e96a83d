-- ===== src/Ingest/Tests.antt =====
-- Runs of an ingestion on one match.
use betpulse.Prelude.{length, ◌≡◌, refl, true, false, none, some, [], ◌∷◌, All, count_if}
use betpulse.Ingest.Action.{ok}
use betpulse.Ingest.Seasons.{Text, canonical_season, read_label, year_text}
use betpulse.Ingest.Model.{Summary, Names, Tables, Run, Fixture, FixtureDto, QuoteDto, finished}
use betpulse.Ingest.Steps.{
  Job, canonical_season_for, reconcile, resolve_entities, seed_entities, seed_team,
}
use betpulse.Ingest.Records.{
  empty_summary, ingest_all, ingest_record, ingest_records, insert_row, place_inserted, place_new,
  place_record, store_odds, store_record,
}
use betpulse.Ingest.Runner.{
  Database, Source, ingest_content, ingest_dtos, ingest_pair, ingest_payload, is_running,
  is_success, last_success_sha, unchanged,
}
use betpulse.Ingest.Pairs.{run_pair, run_pairs, run_recorded_ingestion, settle}
use betpulse.Ingest.Mapping.{
  get_or_create_canonical_league, get_or_create_canonical_team, normalize_name, ensure_team_alias,
}
use betpulse.Ingest.Fixtures.{
  find_fixture, by_reference, by_kickoff, insert_fixture, link_external_ref,
}
use betpulse.Ingest.Quotes.{insert_odds, take_quote, quote_problem}
use betpulse.Ingest.Keeps.{Timely}
use betpulse.Ingest.History.{run_recorded_ingestion-Timely}
use betpulse.Ingest.Resume.{pairs_recorded, stored_after, run_pairs_recorded, run_pair_again}
use betpulse.Ingest.Rerun.{ingest_records_again}
use betpulse.Ingest.Sources.{Deferred, reconcile-Deferred}

abbrev pub no_names : Names
no_names = record {
  leagues = [];
  teams = [];
  team_aliases = [];
  league_aliases = [];
  unmapped_teams = [];
  mapped_events = [];
  next_id = 0;
}

abbrev no_tables : Tables
no_tables = record {
  names = no_names;
  fixtures = [];
  refs = [];
  odds = [];
  stats = [];
  conflicts = [];
  events = [];
  next_id = 0;
}

abbrev pub empty_database : Database
empty_database = record { tables = no_tables; runs = []; next_run = 0 }

abbrev pub season_text : Text
season_text = b'2' ∷ b'0' ∷ b'2' ∷ b'4' ∷ b'-' ∷ b'2' ∷ b'5' ∷ []

abbrev closing_quote : QuoteDto
closing_quote = record {
  bookmaker = 1;
  market = 1;
  outcome = 1;
  price = 2_100;
  ts = 50;
  is_closing = true;
}

-- A quote taken after the kickoff, which the rule rejects.
abbrev late_quote : QuoteDto
late_quote = record {
  bookmaker = 2;
  market = 1;
  outcome = 1;
  price = 2_100;
  ts = 60;
  is_closing = false;
}

abbrev dto : FixtureDto
dto = record {
  provider = 7;
  external_id = some 11;
  raw_code = none;
  season = season_text;
  home = record { raw_name = b'a' ∷ []; external_id = none };
  away = record { raw_name = b'b' ∷ []; external_id = none };
  kickoff_at = 50;
  kickoff_time_known = true;
  status = finished;
  ft_home = some 2;
  ft_away = some 1;
  ht_home = none;
  ht_away = none;
  odds = closing_quote ∷ late_quote ∷ [];
  stats = none;
}

abbrev pub source : Source
source = record {
  fold = λ text. text;
  is_production = false;
  licensed_for_production = false;
  may_seed_canonical = true;
  provider = 7;
  provider_name = 7;
  csv_source = λ league season. ok season;
  parse_csv = λ content league season. ok (dto ∷ []);
  sha256 = λ content. 99;
  started_at = λ id. 1_000;
  finished_at = λ id. 2_000;
}

run_recorded_ingestion-Timely_example :
    Timely
      (run_recorded_ingestion source false none 60 5_000
        (0 ∷ 9 ∷ [])
        (season_text ∷ [])
        empty_database).1.tables
run_recorded_ingestion-Timely_example =
    run_recorded_ingestion-Timely source false none 60 5_000 (0 ∷ 9 ∷ []) (season_text ∷ [])
      empty_database (tt, tt, tt)

first_pair : is_success (run_pair source false none 0 season_text empty_database).0.status ≡ true
unfolding run_pair settle ingest_pair ingest_payload last_success_sha ingest_content ingest_dtos
    ingest_records ingest_all ingest_record store_record place_record place_new insert_row
    place_inserted store_odds resolve_entities seed_entities seed_team canonical_season_for
    get_or_create_canonical_league get_or_create_canonical_team normalize_name ensure_team_alias
    canonical_season read_label year_text find_fixture by_reference by_kickoff insert_fixture
    link_external_ref insert_odds take_quote quote_problem
first_pair = refl

run_pair_again_example :
    let db' = (run_pair source false none 0 season_text empty_database).1 in
    let (run, db'') = run_pair source false (some 3) 0 season_text db' in
    (db''.tables ≡ db'.tables)
    × (is_success run.status ≡ true)
    × (run.skipped_reason ≡ some unchanged)
    × (run.records ≡ some 0)
run_pair_again_example =
    run_pair_again source false none (some 3) 0 season_text empty_database first_pair tt

run_pairs_recorded_example :
    let (runs, db) =
      run_pairs source false none ((0, season_text) ∷ (9, season_text) ∷ []) empty_database in
    (pairs_recorded runs ≡ (0, season_text) ∷ (9, season_text) ∷ [])
    × All (λ run. is_running run.status ≡ false) runs
    × (db.runs ≡ stored_after runs [])
    × (count_if (λ run. is_running run.status) db.runs ≡ 0)
run_pairs_recorded_example =
    run_pairs_recorded source false none ((0, season_text) ∷ (9, season_text) ∷ []) empty_database

-- A fixture of source 4, without a half-time score, that source 7 gives another result for.
abbrev stored_fixture : Fixture
stored_fixture = record {
  id = 0;
  league_id = 1;
  season = season_text;
  home_team_id = 2;
  away_team_id = 3;
  kickoff_at = 40;
  kickoff_time_known = true;
  status = finished;
  ft_home = some 0;
  ft_away = some 1;
  ht_home = none;
  ht_away = none;
  source = 4;
}

abbrev stored_run : Run
stored_run = record {
  tables = record no_tables { fixtures = stored_fixture ∷ []; next_id = 1 };
  summary = empty_summary;
}

reconcile-Deferred_example :
    Deferred stored_fixture stored_run (reconcile 7 true stored_fixture dto stored_run).1
reconcile-Deferred_example = reconcile-Deferred 7 true stored_fixture dto stored_run refl refl

abbrev job : Job
job = record {
  fold = λ text. text;
  provider = 7;
  league_code = 0;
  seed = true;
  meta = some record { name = 0; country = 0; season_start_month = some 8 };
}

-- What the first run gives, but for its summary.
first_run : (s : Summary) × ((ingest_records job (dto ∷ []) no_tables).0 ≡ ok s)
unfolding ingest_records ingest_all ingest_record store_record place_record place_new insert_row
    place_inserted store_odds resolve_entities seed_entities seed_team canonical_season_for
    get_or_create_canonical_league get_or_create_canonical_team normalize_name ensure_team_alias
    canonical_season read_label year_text find_fixture by_reference by_kickoff insert_fixture
    link_external_ref insert_odds take_quote quote_problem
first_run = (_, refl)

ingest_records_again_example :
    let t' = (ingest_records job (dto ∷ []) no_tables).1 in
    length (ingest_records job (dto ∷ []) t').1.fixtures ≡ length t'.fixtures
ingest_records_again_example =
    ingest_records_again job (dto ∷ []) no_tables first_run.0 (tt, tt, tt) first_run.1

-- 2024/25
abbrev raw_season : Text
raw_season = b'2' ∷ b'0' ∷ b'2' ∷ b'4' ∷ b'/' ∷ b'2' ∷ b'5' ∷ []

-- 2024-2025
abbrev full_season : Text
full_season = b'2' ∷ b'0' ∷ b'2' ∷ b'4' ∷ b'-' ∷ b'2' ∷ b'0' ∷ b'2' ∷ b'5' ∷ []
