-- ===== src/Ingest/Keeps.antt =====
-- The invariant of the tables over the steps of an ingestion.
use betpulse.Prelude.{ℕ, Bool, true, false, Option, none, some}
use betpulse.Ingest.Action.{Action}
use betpulse.Ingest.Seasons.{Text}
use betpulse.Ingest.Model.{Names, FixtureDto, TeamRef, LeagueMeta, Tables, Run}
use betpulse.Ingest.Mapping.{
  get_or_create_canonical_league, get_or_create_canonical_team, resolve_league, resolve_team,
}
use betpulse.Ingest.Steps.{
  Job, on_names, count_league, count_team, code_or, seed_team, seed_entities, strict_entities,
  entities_by, resolve_entities,
}
use betpulse.Ingest.Triples.{Triple, bind, After-same, answer, modify_keeps}
use betpulse.Ingest.Rows.{Referenced, Below, if_either}
use betpulse.Ingest.TimeRule.{InTime}

-- Each quote is stored for a fixture and in time for it, the identifiers to come are unused, and each
-- external reference points to a fixture.
abbrev pub Timely : Tables → Type 0
Timely t = InTime t.fixtures t.odds × Below t.next_id t.fixtures × Referenced t.fixtures t.refs

abbrev pub Sound : Run → Type 0
Sound x = Timely x.tables

-- A predicate on runs that names and the counts of new teams and leagues do not touch.
module _ (P : Run → Type 0)
    (names : (x : Run) (n : Names) → P x → P (record x { tables = record x.tables { names = n } }))
    (league_count : (b : Bool) (x : Run) → P x → P (count_league b x))
    (team_count : (b : Bool) (x : Run) → P x → P (count_team b x)) where
  on_names_keeps : {A : Type 0} (m : Action Names A) → Triple P P (on_names m) (λ _. P)
  on_names_keeps m = record {
    ends =
        λ x h. After-same P (m x.tables.names).0 (on_names m x).1 (names x (m x.tables.names).1 h);
  }

  seed_team_keeps :
      (fold : Text → Text) (provider country : ℕ) (ref : TeamRef)
      → Triple P P (seed_team fold provider country ref) (λ _. P)
  unfolding seed_team
  seed_team_keeps fold provider country ref =
      bind
        (on_names_keeps
          (get_or_create_canonical_team fold provider ref.raw_name (some country) ref.external_id))
        (λ team.
          bind (modify_keeps (count_team team.1) (team_count team.1))
            (λ _. answer team.0 (λ x h. h)))

  seed_entities_keeps :
      (fold : Text → Text) (provider league_code : ℕ) (dto : FixtureDto) (meta : Option LeagueMeta)
      → Triple P P (seed_entities fold provider league_code dto meta) (λ _. P)
  unfolding seed_entities
  seed_entities_keeps fold provider league_code dto none = record { ends = λ x h. h }
  seed_entities_keeps fold provider league_code dto (some meta) =
      bind
        (on_names_keeps (
          get_or_create_canonical_league provider league_code meta.name
            (code_or dto.raw_code league_code) meta.country meta.season_start_month))
        (λ league. bind (modify_keeps (count_league league.1) (league_count league.1)) (λ _.
          bind (seed_team_keeps fold provider meta.country dto.home) (λ home.
            bind (seed_team_keeps fold provider meta.country dto.away)
              (λ away. answer (league.0, home, away) (λ x h. h)))))

  strict_entities_keeps :
      (provider league_code : ℕ) (dto : FixtureDto)
      → Triple P P (strict_entities provider league_code dto) (λ _. P)
  unfolding strict_entities
  strict_entities_keeps provider league_code dto =
      bind (on_names_keeps (resolve_league provider (code_or dto.raw_code league_code))) (λ league.
        bind
          (on_names_keeps
            (resolve_team provider dto.home.raw_name dto.home.external_id (some league_code)))
          (λ home.
            bind
              (on_names_keeps
                (resolve_team provider dto.away.raw_name dto.away.external_id (some league_code)))
              (λ away. answer (league, home, away) (λ x h. h))))

  entities_by_keeps :
      (seed : Bool) (job : Job) (dto : FixtureDto) → Triple P P (entities_by seed job dto) (λ _. P)
  entities_by_keeps true job dto =
      seed_entities_keeps job.fold job.provider job.league_code dto job.meta
  entities_by_keeps false job dto = strict_entities_keeps job.provider job.league_code dto

  pub resolve_entities_keeps :
      (job : Job) (dto : FixtureDto) → Triple P P (resolve_entities job dto) (λ _. P)
  unfolding resolve_entities
  resolve_entities_keeps job dto = entities_by_keeps job.seed job dto

pub resolve_entities-Sound :
    (job : Job) (dto : FixtureDto) → Triple Sound Sound (resolve_entities job dto) (λ _. Sound)
resolve_entities-Sound =
    resolve_entities_keeps Sound (λ x n h. h) (λ b x h. if_either Sound b h h)
      (λ b x h. if_either Sound b h h)
