-- ===== src/Ingest/History.antt =====
-- Recorded ingestion, over the pairs of a call: what is committed, and the rows of the runs.
use betpulse.Prelude.{is_some_eq, ℕ, Bool, Option, none, some, List, [], ◌∷◌, ◌&&◌, not, length}
use betpulse.Ingest.Action.{Action, Result, ok, err, value_error}
use betpulse.Ingest.Seasons.{Text}
use betpulse.Ingest.Model.{Tables, Summary, Run, FixtureDto, LeagueMeta}
use betpulse.Ingest.Steps.{Job}
use betpulse.Ingest.Records.{ingest_records, ingest_all, empty_summary}
use betpulse.Ingest.Runner.{
  IngestionRun, success, unchanged, partial, unsupported_league, Database, Source, league_meta,
  from_result, check_licence, is_refused, job_of, ingest_dtos, ended, ingest_content,
  ingest_payload, ingest_covered, ingest_pair, last_success_sha, mark_stale_runs,
}
use betpulse.Ingest.Pairs.{new_run, settle, run_pair, run_pairs, pairs_of, run_recorded_ingestion}
use betpulse.Ingest.Triples.{Triple, After, bind, or_raise_keeps, answer}
use betpulse.Ingest.Rows.{if_either}
use betpulse.Ingest.Keeps.{Timely, Sound}
use betpulse.Ingest.Timely.{Aborted}
use betpulse.Ingest.Rule.{ingest_all-Sound}

-- Nothing is said of tables that are rolled back.
abbrev Undone : Tables → Type 0
Undone t = Unit

ended-Timely :
    (r : Result (Unit {0})) (x : Run)
    → After Aborted (λ _. Sound) r x
    → (let (s, t) = elim r as (λ _. Result Summary × Tables) [
      | ok a ↦ (ok x.summary, x.tables)
      | err e ↦ (err e, x.tables)
    ] in
        After Undone (λ _. Timely) s t)
ended-Timely (ok a) x h = h
ended-Timely (err e) x h = h

ingest_records-Timely :
    (job : Job) (dtos : List FixtureDto)
    → Triple Undone Timely (ingest_records job dtos) (λ _. Timely)
unfolding ingest_records
ingest_records-Timely job dtos = record {
  ends = λ t h.
      let start : Run = record { tables = t; summary = empty_summary } in
      ended-Timely (ingest_all job dtos start).0 (ingest_all job dtos start).1
        ((ingest_all-Sound job dtos).ends start h);
}

check_licence-Timely : (source : Source) → Triple Undone Timely (check_licence source) (λ _. Timely)
check_licence-Timely source = record {
  ends = λ t h.
      if_either (λ (r : Result (Unit {0})). After Undone (λ _. Timely) r t) (is_refused source) tt
        h;
}

from_result-Timely :
    {A : Type 0} (r : Result A) → Triple Undone Timely (from_result r) (λ _. Timely)
from_result-Timely (ok a) = record { ends = λ t h. h }
from_result-Timely (err e) = record { ends = λ t h. tt }

ingest_dtos-Timely :
    (source : Source) (league_code : ℕ) (dtos : List FixtureDto)
    → Triple Undone Timely (ingest_dtos source league_code dtos) (λ _. Timely)
unfolding ingest_dtos
ingest_dtos-Timely source league_code dtos = bind (check_licence-Timely source) (λ _.
    bind (or_raise_keeps (league_meta league_code) value_error (λ x h. tt))
      (λ meta. ingest_records-Timely (job_of source league_code meta) dtos))

ingest_content-Timely :
    (source : Source) (content : Text) (run : IngestionRun)
    → Triple Undone Timely (ingest_content source content run) (λ _. Timely)
unfolding ingest_content
ingest_content-Timely source content run =
    bind (from_result-Timely (source.parse_csv content run.league run.season)) (λ dtos.
      bind (ingest_dtos-Timely source run.league dtos)
        (λ summary. answer (ended (length dtos) summary run) (λ x h. h)))

ingest_payload-Timely :
    (source : Source) (runs : List IngestionRun) (force : Bool) (run : IngestionRun)
    (content : Text)
    → Triple Undone Timely (ingest_payload source runs force run content) (λ _. Timely)
unfolding ingest_payload
ingest_payload-Timely source runs force run content =
    let sha = source.sha256 content in
    let hashed = record run { content_sha256 = some sha } in
    if_either (λ (m : Action Tables IngestionRun). Triple Undone Timely m (λ _. Timely))
      (not force
        && is_some_eq (last_success_sha run.provider run.league run.season run.id runs) sha)
      (answer
        (record hashed { status = success; skipped_reason = some unchanged; records = some 0 })
        (λ x h. h))
      (ingest_content-Timely source content hashed)

ingest_covered-Timely :
    (source : Source) (runs : List IngestionRun) (force : Bool) (run : IngestionRun)
    (meta : Option LeagueMeta)
    → Triple Undone Timely (ingest_covered source runs force run meta) (λ _. Timely)
ingest_covered-Timely source runs force run none =
    answer (record run { status = partial; skipped_reason = some unsupported_league }) (λ x h. h)
ingest_covered-Timely source runs force run (some meta) =
    bind (from_result-Timely (source.csv_source run.league run.season))
      (λ content. ingest_payload-Timely source runs force run content)

ingest_pair-Timely :
    (source : Source) (runs : List IngestionRun) (force : Bool) (run : IngestionRun)
    → Triple Undone Timely (ingest_pair source runs force run) (λ _. Timely)
unfolding ingest_pair
ingest_pair-Timely source runs force run =
    ingest_covered-Timely source runs force run (league_meta run.league)

-- A pair that fails is rolled back.
settle-Timely :
    (run : IngestionRun) (before after : Tables) (r : Result IngestionRun)
    → Timely before
    → After Undone (λ _. Timely) r after
    → Timely (settle run before (r, after)).1
unfolding settle
settle-Timely run before after (ok run') h k = k
settle-Timely run before after (err e) h k = h

run_pair-Timely :
    (source : Source) (force : Bool) (triggered_by : Option ℕ) (league : ℕ) (season : Text)
    (db : Database)
    → Timely db.tables
    → Timely (run_pair source force triggered_by league season db).1.tables
unfolding run_pair
run_pair-Timely source force triggered_by league season db h =
    let run = new_run source db.next_run triggered_by league season in
    let (r, after) = ingest_pair source (run ∷ db.runs) force run db.tables in
    settle-Timely run db.tables after r h
      ((ingest_pair-Timely source (run ∷ db.runs) force run).ends db.tables h)

run_pairs-Timely :
    (source : Source) (force : Bool) (triggered_by : Option ℕ) (pairs : List (ℕ × Text))
    (db : Database)
    → Timely db.tables
    → Timely (run_pairs source force triggered_by pairs db).1.tables
unfolding run_pairs
run_pairs-Timely source force triggered_by [] db h = h
run_pairs-Timely source force triggered_by ((league, season) ∷ pairs) db h =
    run_pairs-Timely source force triggered_by pairs
      (run_pair source force triggered_by league season db).1
      (run_pair-Timely source force triggered_by league season db h)

-- Whatever the source delivers, and whichever pairs of leagues and seasons fail, the committed tables
-- keep the time rule: each stored quote belongs to a stored fixture, a closing quote was taken at its
-- kickoff at the latest, another one strictly before it, the identifiers of the fixtures are distinct,
-- and each external reference points to a stored fixture.
pub run_recorded_ingestion-Timely :
    (source : Source) (force : Bool) (triggered_by : Option ℕ) (stale_run_minutes now : ℕ)
    (leagues : List ℕ) (seasons : List Text) (db : Database)
    → Timely db.tables
    → Timely
        (run_recorded_ingestion source force triggered_by stale_run_minutes now leagues seasons
          db).1.tables
unfolding run_recorded_ingestion
run_recorded_ingestion-Timely source force triggered_by stale_run_minutes now leagues seasons db h =
    let marked = (mark_stale_runs source.provider_name stale_run_minutes now db.runs).1 in
    if_either (λ (p : Result (List IngestionRun) × Database). Timely p.1.tables) (is_refused source)
      h
      (run_pairs-Timely source force triggered_by (pairs_of leagues seasons)
        (record db { runs = marked }) h)
