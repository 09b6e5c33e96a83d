-- ===== src/Ingest/Pairs.antt =====
-- backend/app/services/ingestion/runner.py: the pairs of leagues and seasons, each in a transaction
-- of its own, and the check that every pair has fixtures.
use betpulse.Prelude.{
  ℕ, suc, Bool, true, false, Option, none, some, List, [], ◌∷◌, ◌++◌, ◌==◌, ◌&&◌, not, count_if,
  find, is_some, if◌then◌else◌,
}
use betpulse.Ingest.Action.{Result, ok, err, source_not_licensed}
use betpulse.Ingest.Seasons.{Text, eqb_text}
use betpulse.Ingest.Model.{League, Fixture, Tables, fixture_of}
use betpulse.Ingest.Runner.{
  IngestionRun, running, failed, raised, Database, Source, league_meta, ingest_pair,
  mark_stale_runs, is_refused,
}

-- The row that is committed before its pair is read.
abbrev pub new_run : Source → ℕ → Option ℕ → ℕ → Text → IngestionRun
new_run source id triggered_by league season = record {
  id = id;
  provider = source.provider_name;
  league = league;
  season = season;
  status = running;
  fixtures_ingested = 0;
  odds_ingested = 0;
  error = none;
  triggered_by = triggered_by;
  started_at = source.started_at id;
  finished_at = none;
  content_sha256 = none;
  records = none;
  skipped_reason = none;
}

-- The end of a pair: an exception rolls its tables back and is written on the row.
unfoldable pub settle : IngestionRun → Tables → Result IngestionRun × Tables → IngestionRun × Tables
settle run before (ok run', after) = (run', after)
settle run before (err e, after) = (record run { status = failed; error = some (raised e) }, before)

unfoldable pub run_pair : Source → Bool → Option ℕ → ℕ → Text → Database → IngestionRun × Database
run_pair source force triggered_by league season db =
    let run = new_run source db.next_run triggered_by league season in
    let (run', tables) =
      settle run db.tables (ingest_pair source (run ∷ db.runs) force run db.tables) in
    let ended = record run' { finished_at = some (source.finished_at db.next_run) } in
    (ended, record { tables = tables; runs = ended ∷ db.runs; next_run = suc db.next_run })

unfoldable pub run_pairs :
    Source → Bool → Option ℕ → List (ℕ × Text) → Database → List IngestionRun × Database
run_pairs source force triggered_by [] db = ([], db)
run_pairs source force triggered_by ((league, season) ∷ pairs) db =
    let (run, db') = run_pair source force triggered_by league season db in
    let (runs, db'') = run_pairs source force triggered_by pairs db' in (run ∷ runs, db'')

-- The pairs in the order of the two loops.
abbrev pub with_league : ℕ → List Text → List (ℕ × Text)
with_league league [] = []
with_league league (season ∷ seasons) = (league, season) ∷ with_league league seasons

abbrev pub pairs_of : List ℕ → List Text → List (ℕ × Text)
pairs_of [] seasons = []
pairs_of (league ∷ leagues) seasons = with_league league seasons ++ pairs_of leagues seasons

-- `run_recorded_ingestion`: an unlicensed source is refused before anything is written.
unfoldable pub run_recorded_ingestion :
    Source
    → Bool
    → Option ℕ
    → ℕ
    → ℕ
    → List ℕ
    → List Text
    → Database
    → Result (List IngestionRun) × Database
run_recorded_ingestion source force triggered_by stale_run_minutes now leagues seasons db =
    if is_refused source
    then (err source_not_licensed, db)
    else let (count, marked) = mark_stale_runs source.provider_name stale_run_minutes now db.runs in
      let (runs, db') =
        run_pairs source force triggered_by (pairs_of leagues seasons)
          (record db { runs = marked }) in
      (ok runs, db')

-- `verify_history`
pub record VerifyRow : Type 0 where
  pub league : ℕ
  pub season : Text
  pub fixture_count : ℕ
  pub odds_count : ℕ

abbrev pub is_of : ℕ → Text → Fixture → Bool
is_of league_id season f = (f.league_id == league_id) && eqb_text f.season season

abbrev pub is_odds_of : Option Fixture → ℕ → Text → Bool
is_odds_of none league_id season = false
is_odds_of (some f) league_id season = is_of league_id season f

unfoldable pub verify_pair : Tables → ℕ → Option League → Text → VerifyRow
verify_pair t code none season = record {
  league = code;
  season = season;
  fixture_count = 0;
  odds_count = 0;
}
verify_pair t code (some league) season = record {
  league = code;
  season = season;
  fixture_count = count_if (is_of league.id season) t.fixtures;
  odds_count = count_if (λ o. is_odds_of (fixture_of t o.fixture_id) league.id season) t.odds;
}

abbrev pub verify_pairs : Tables → List (ℕ × Text) → List VerifyRow
verify_pairs t [] = []
verify_pairs t ((code, season) ∷ pairs) =
    let rest = verify_pairs t pairs in
    if is_some (league_meta code)
    then verify_pair t code (find (λ l. l.code == code) t.names.leagues) season ∷ rest
    else rest

abbrev pub all_have_fixtures : List VerifyRow → Bool
all_have_fixtures [] = true
all_have_fixtures (row ∷ rows) = not (row.fixture_count == 0) && all_have_fixtures rows

unfoldable pub verify_history : Tables → List ℕ → List Text → List VerifyRow × Bool
verify_history t leagues seasons =
    let rows = verify_pairs t (pairs_of leagues seasons) in (rows, all_have_fixtures rows)
