-- ===== src/Ingest/Runner.antt =====
-- backend/app/services/ingestion/football_data.py and runner.py, and the run rows of
-- models/ingestion_run.py. League codes are numbers, in the order of `LEAGUE_META`. The download, the
-- hash of a payload and `parse_csv` of the provider are parameters, and so are the instants at which
-- a run starts and ends.
use betpulse.Prelude.{
  ℕ, ◌+◌, ◌*◌, Bool, true, false, Option, none, some, List, [], ◌∷◌, ◌==◌, ◌&&◌, not, ltb, length,
  is_some, is_some_eq, select, update_where, count_if, if◌then◌else◌,
}
use betpulse.Clock.{second}
use betpulse.Ingest.Action.{
  Action, Result, ok, err, Error, value_error, quota_exhausted, source_not_licensed, pure, or_raise,
  raise_if, ◌>>=◌, ◌>>◌,
}
use betpulse.Ingest.Seasons.{Text, eqb_text}
use betpulse.Ingest.Model.{Tables, FixtureDto, Summary, LeagueMeta}
use betpulse.Ingest.Steps.{Job}
use betpulse.Ingest.Records.{ingest_records, empty_summary, merge}

-- `LEAGUE_META`: the five leagues start in August.
abbrev pub league_meta : ℕ → Option LeagueMeta
league_meta code =
    if ltb code 5
    then some record { name = code; country = code; season_start_month = some 8 }
    else none

pub data RunStatus : Type 0 where
  running success partial failed : RunStatus

abbrev pub is_running : RunStatus → Bool
is_running running = true
is_running _ = false

abbrev pub is_success : RunStatus → Bool
is_success success = true
is_success _ = false

pub data Skipped : Type 0 where
  unsupported_league unchanged : Skipped

pub data RunError : Type 0 where
  stale : RunError
  raised : Error → RunError

pub record IngestionRun : Type 0 where
  pub id : ℕ
  pub provider : ℕ
  pub league : ℕ
  pub season : Text
  pub status : RunStatus
  pub fixtures_ingested : ℕ
  pub odds_ingested : ℕ
  pub error : Option RunError
  pub triggered_by : Option ℕ
  pub started_at : ℕ
  pub finished_at : Option ℕ
  pub content_sha256 : Option ℕ
  pub records : Option ℕ
  pub skipped_reason : Option Skipped

-- The committed database: the runs' table, newest first, and the others.
pub record Database : Type 0 where
  pub tables : Tables
  pub runs : List IngestionRun
  pub next_run : ℕ

-- The source, the parser and the clock of a call.
pub record Source : Type 0 where
  pub fold : Text → Text
  pub is_production : Bool
  pub licensed_for_production : Bool
  pub may_seed_canonical : Bool
  pub provider : ℕ
  pub provider_name : ℕ
  pub csv_source : ℕ → Text → Result Text
  pub parse_csv : Text → ℕ → Text → Result (List FixtureDto)
  pub sha256 : Text → ℕ
  pub started_at : ℕ → ℕ
  pub finished_at : ℕ → ℕ

-- An answer that may be an exception.
abbrev pub from_result : {S A : Type 0} → Result A → Action S A
from_result r s = (r, s)

unfoldable pub network_csv_source : ℕ → (ℕ → Text → Text) → ℕ → Text → Result Text
network_csv_source requests_remaining download_csv league_code season =
    if requests_remaining == 0 then err quota_exhausted else ok (download_csv league_code season)

-- `ensure_licensed`
abbrev pub is_refused : Source → Bool
is_refused source = source.is_production && not source.licensed_for_production

abbrev pub check_licence : {S : Type 0} → Source → Action S (Unit {0})
check_licence source = raise_if (is_refused source) source_not_licensed

abbrev pub job_of : Source → ℕ → LeagueMeta → Job
job_of source league_code meta = record {
  fold = source.fold;
  provider = source.provider;
  league_code = league_code;
  seed = source.may_seed_canonical;
  meta = some meta;
}

-- `LEAGUE_META[league_code]` raises KeyError for another league.
unfoldable pub ingest_dtos : Source → ℕ → List FixtureDto → Action Tables Summary
ingest_dtos source league_code dtos = do
  check_licence source
  meta ← or_raise (league_meta league_code) value_error
  ingest_records (job_of source league_code meta) dtos

-- `bootstrap_history`: the seasons of a league that the source covers.
unfoldable pub bootstrap_seasons : Source → ℕ → List Text → Summary → Action Tables Summary
bootstrap_seasons source league_code [] total = pure total
bootstrap_seasons source league_code (season ∷ seasons) total = do
  content ← from_result (source.csv_source league_code season)
  dtos ← from_result (source.parse_csv content league_code season)
  summary ← ingest_dtos source league_code dtos
  bootstrap_seasons source league_code seasons (merge total summary)

unfoldable pub bootstrap_leagues : Source → List ℕ → List Text → Summary → Action Tables Summary
bootstrap_leagues source [] seasons total = pure total
bootstrap_leagues source (league_code ∷ leagues) seasons total = do
  total' ← elim (league_meta league_code) [
    | none ↦ pure total
    | some meta ↦ bootstrap_seasons source league_code seasons total
  ]
  bootstrap_leagues source leagues seasons total'

unfoldable pub bootstrap_history : Source → List ℕ → List Text → Action Tables Summary
bootstrap_history source leagues seasons =
    check_licence source >> bootstrap_leagues source leagues seasons empty_summary

-- `mark_stale_runs`; the threshold is in minutes.
abbrev pub is_stale : ℕ → ℕ → ℕ → IngestionRun → Bool
is_stale provider stale_run_minutes now run =
    (run.provider == provider)
    && is_running run.status
    && ltb (run.started_at + stale_run_minutes * 60 * second) now

unfoldable pub mark_stale_runs : ℕ → ℕ → ℕ → List IngestionRun → ℕ × List IngestionRun
mark_stale_runs provider stale_run_minutes now runs = (
  count_if (is_stale provider stale_run_minutes now) runs,
  update_where (is_stale provider stale_run_minutes now)
      (λ run. record run { status = failed; error = some stale; finished_at = some now }) runs,
)

-- `_last_success_sha`
abbrev pub is_candidate_sha : ℕ → ℕ → Text → ℕ → IngestionRun → Bool
is_candidate_sha provider league season exclude run =
    (run.provider == provider)
    && (run.league == league)
    && eqb_text run.season season
    && is_success run.status
    && is_some run.content_sha256
    && not (run.id == exclude)

abbrev pub latest_of : IngestionRun → List IngestionRun → IngestionRun
latest_of run [] = run
latest_of run (next ∷ runs) =
    latest_of (if ltb run.started_at next.started_at then next else run) runs

abbrev pub sha_of : List IngestionRun → Option ℕ
sha_of [] = none
sha_of (run ∷ runs) = (latest_of run runs).content_sha256

unfoldable pub last_success_sha : ℕ → ℕ → Text → ℕ → List IngestionRun → Option ℕ
last_success_sha provider league season exclude runs =
    sha_of (select (is_candidate_sha provider league season exclude) runs)

-- `_ingest_pair` after the download: the payload's hash decides whether it is read.
abbrev pub ended : ℕ → Summary → IngestionRun → IngestionRun
ended records summary run = record run {
  records = some records;
  fixtures_ingested = summary.fixtures_inserted;
  odds_ingested = summary.odds_inserted;
  status = if ltb 0 summary.fixtures_seen then success else partial;
}

unfoldable pub ingest_content : Source → Text → IngestionRun → Action Tables IngestionRun
ingest_content source content run = do
  dtos ← from_result (source.parse_csv content run.league run.season)
  summary ← ingest_dtos source run.league dtos
  pure (ended (length dtos) summary run)

unfoldable pub ingest_payload :
    Source → List IngestionRun → Bool → IngestionRun → Text → Action Tables IngestionRun
ingest_payload source runs force run content =
    let sha = source.sha256 content in
    let hashed = record run { content_sha256 = some sha } in
    let previous = last_success_sha run.provider run.league run.season run.id runs in
    if not force && is_some_eq previous sha
    then pure
        (record hashed { status = success; skipped_reason = some unchanged; records = some 0 })
    else ingest_content source content hashed

abbrev pub ingest_covered :
    Source
    → List IngestionRun
    → Bool
    → IngestionRun
    → Option LeagueMeta
    → Action Tables IngestionRun
ingest_covered source runs force run none =
    pure (record run { status = partial; skipped_reason = some unsupported_league })
ingest_covered source runs force run (some meta) =
    from_result (source.csv_source run.league run.season) >>= ingest_payload source runs force run

unfoldable pub ingest_pair :
    Source → List IngestionRun → Bool → IngestionRun → Action Tables IngestionRun
ingest_pair source runs force run = ingest_covered source runs force run (league_meta run.league)
