-- ===== src/Ingest/Steps.antt =====
-- backend/app/services/ingestion/core.py: the steps of a record that read and write the session: the
-- correction of a fixture, and the teams and the league. A run's session and summary are the state;
-- an error leaves them to the caller, who rolls back.
use betpulse.Prelude.{
  ℕ, suc, ◌+◌, Bool, true, false, Option, none, some, List, [], ◌∷◌, ◌==◌, length, is_some, select,
  update_where, if◌then◌else◌,
}
use betpulse.Ingest.Action.{
  Action, ok, err, value_error, integrity_error, pure, raise, modify, ◌>>=◌, ◌>>◌,
}
use betpulse.Ingest.Seasons.{Text, canonical_season}
use betpulse.Ingest.Model.{
  League, Names, Fixture, Odds, Change, Tables, TeamRef, FixtureDto, LeagueMeta, Run,
}
use betpulse.Ingest.Mapping.{
  resolve_team, resolve_league, get_or_create_canonical_team, get_or_create_canonical_league,
}
use betpulse.Ingest.Reconcile.{
  score_fields, score_conflicts, changes_for, is_moved, is_late, move_odds, apply_changes, collides,
}

-- An action of the identity mapping, in the session of a run.
abbrev pub on_names : {A : Type 0} → Action Names A → Action Run A
on_names m x =
    let (a, n) = m x.tables.names in (a, record x { tables = record x.tables { names = n } })

-- `_reconcile`
abbrev pub write_changes : ℕ → Fixture → List Change → ℕ → Tables → Tables
write_changes provider f changes odds_removed t = record t {
  fixtures = update_where (λ g. g.id == f.id) (apply_changes changes) t.fixtures;
  events =
      record {
        fixture_id = f.id;
        provider = provider;
        changes = changes;
        odds_removed = odds_removed;
      }
      ∷ t.events;
}

abbrev pub reconcile_odds : Bool → Fixture → FixtureDto → List Odds → List Odds
reconcile_odds moved f dto odds = if moved then move_odds f.id dto.kickoff_at odds else odds

abbrev pub removed_odds : Bool → Fixture → FixtureDto → List Odds → ℕ
removed_odds moved f dto odds =
    if moved then length (select (is_late f.id dto.kickoff_at) odds) else 0

abbrev pub flush_changes : ℕ → Fixture → List Change → ℕ → Action Run (Unit {0})
flush_changes provider f [] odds_removed x = (ok tt, x)
flush_changes provider f (c ∷ cs) odds_removed x =
    if collides (apply_changes (c ∷ cs) f) x.tables.fixtures then (err integrity_error, x) else (
      ok tt,
      record {
        tables = write_changes provider f (c ∷ cs) odds_removed x.tables;
        summary = record x.summary { fixtures_corrected = suc x.summary.fixtures_corrected };
      },
    )

-- The conflicts recorded and the odds of a move, before the changes are written.
abbrev pub before_changes : ℕ → Bool → Bool → Fixture → FixtureDto → Run → Run
before_changes provider own moved f dto x =
    let (conflicts, n) = score_conflicts own provider f dto score_fields (x.tables.conflicts, 0) in
    record {
      tables = record x.tables {
        conflicts = conflicts;
        odds = reconcile_odds moved f dto x.tables.odds;
      };
      summary = record x.summary { conflicts = x.summary.conflicts + n };
    }

unfoldable pub reconcile : ℕ → Bool → Fixture → FixtureDto → Action Run (Unit {0})
reconcile provider by_ref f dto x =
    let own = f.source == provider in
    let moved = is_moved own by_ref f dto in
    flush_changes provider f (changes_for own by_ref f dto) (removed_odds moved f dto x.tables.odds)
      (before_changes provider own moved f dto x)

-- `_resolve_entities`
abbrev pub count_league : Bool → Run → Run
count_league created x =
    if created
    then record x { summary = record x.summary { leagues_created = suc x.summary.leagues_created } }
    else x

abbrev pub count_team : Bool → Run → Run
count_team created x =
    if created
    then record x { summary = record x.summary { teams_created = suc x.summary.teams_created } }
    else x

unfoldable pub seed_team : (Text → Text) → ℕ → ℕ → TeamRef → Action Run ℕ
seed_team fold provider country ref = do
  team ←
      on_names
        (get_or_create_canonical_team fold provider ref.raw_name (some country) ref.external_id)
  modify (count_team team.1)
  pure team.0

abbrev pub code_or : Option ℕ → ℕ → ℕ
code_or none league_code = league_code
code_or (some code) league_code = code

unfoldable pub seed_entities :
    (Text → Text) → ℕ → ℕ → FixtureDto → Option LeagueMeta → Action Run (League × ℕ × ℕ)
seed_entities fold provider league_code dto none = raise value_error
seed_entities fold provider league_code dto (some meta) = do
  league ← on_names (
      get_or_create_canonical_league provider league_code meta.name
        (code_or dto.raw_code league_code) meta.country meta.season_start_month)
  modify (count_league league.1)
  home ← seed_team fold provider meta.country dto.home
  away ← seed_team fold provider meta.country dto.away
  pure (league.0, home, away)

unfoldable pub strict_entities : ℕ → ℕ → FixtureDto → Action Run (League × ℕ × ℕ)
strict_entities provider league_code dto = do
  league ← on_names (resolve_league provider (code_or dto.raw_code league_code))
  home ← on_names (resolve_team provider dto.home.raw_name dto.home.external_id (some league_code))
  away ← on_names (resolve_team provider dto.away.raw_name dto.away.external_id (some league_code))
  pure (league, home, away)

-- What stays the same over the records of a call: the source, the league, and the folding of names.
pub record Job : Type 0 where
  pub fold : Text → Text
  pub provider : ℕ
  pub league_code : ℕ
  pub seed : Bool
  pub meta : Option LeagueMeta

abbrev pub entities_by : Bool → Job → FixtureDto → Action Run (League × ℕ × ℕ)
entities_by true job dto = seed_entities job.fold job.provider job.league_code dto job.meta
entities_by false job dto = strict_entities job.provider job.league_code dto

unfoldable pub resolve_entities : Job → FixtureDto → Action Run (League × ℕ × ℕ)
resolve_entities job dto = entities_by job.seed job dto

unfoldable pub canonical_season_for : League → Text → Option Text
canonical_season_for league raw = canonical_season raw (is_some league.season_start_month)
