-- ===== src/Ingest/Rule.antt =====
-- The time rule after the records of a source.
use betpulse.Prelude.{
  ℕ, ◌≡◌, refl, ◌∙◌, ap, subst, Bool, Option, none, some, List, [], ◌∷◌, ◌==◌, is_some, find, arith,
}
use betpulse.Ingest.Action.{value_error, season_format, gets}
use betpulse.Ingest.Seasons.{Text}
use betpulse.Ingest.Model.{League, Fixture, FixtureDto, Run, fixture_of}
use betpulse.Ingest.Fixtures.{find_fixture, link_external_ref, is_ref}
use betpulse.Ingest.Quotes.{Inserted, insert_odds}
use betpulse.Ingest.Steps.{Job, canonical_season_for}
use betpulse.Ingest.Records.{
  Place, place_of, place_found, place_record, refreshed, count_linked, count_seen, on_tables,
  on_summary, finish_insert, store_stats, store_odds, store_record, ingest_record, ingest_all,
}
use betpulse.Ingest.Triples.{Triple, bind, or_raise_keeps, gets_gives, answer, modify_keeps, weaken}
use betpulse.Ingest.Rows.{row, row-id, if_either}
use betpulse.Ingest.TimeRule.{InTime, insert_odds-InTime}
use betpulse.Ingest.Keeps.{Sound, resolve_entities-Sound}
use betpulse.Ingest.Timely.{
  Placed, Aborted, Kept, find_fixture-row, place_new-Placed, reconcile-Kept,
}

place_of-Placed :
    (id : ℕ) (f : Fixture) (x : Run) (r : Option Fixture)
    → Kept id x
    → row id x.tables.fixtures ≡ r
    → Placed (place_of (refreshed f r)) x
place_of-Placed id f x none h same = ground (arith, h.1, same)
place_of-Placed id f x (some g) h same =
    let at = row-id id x.tables.fixtures g same in
    (h.0, (g, ap (λ i. row i x.tables.fixtures) at ∙ same, refl))

place_found-Placed :
    (provider : ℕ) (by_ref : Bool) (f : Fixture) (dto : FixtureDto)
    → Triple Aborted (Kept f.id) (place_found provider by_ref f dto) Placed
unfolding place_found
place_found-Placed provider by_ref f dto = bind (reconcile-Kept provider by_ref f dto) (λ _.
    bind (modify_keeps (on_summary (count_linked by_ref)) (λ x h. h)) (λ _.
      bind (gets_gives (λ (x : Run). fixture_of x.tables f.id))
        (λ r. answer (place_of (refreshed f r)) (λ x h. place_of-Placed f.id f x r h.0 h.1))))

-- The session in which a fixture was looked up.
abbrev Found : Option Fixture × Bool → Run → Type 0
Found found x = Sound x × ((f : Fixture) → found.0 ≡ some f → row f.id x.tables.fixtures ≡ some f)

place_record-Placed :
    (provider : ℕ) (dto : FixtureDto) (league_id : ℕ) (season : Text) (home_id away_id : ℕ)
    (found : Option Fixture × Bool)
    → Triple Aborted
        (Found found)
        (place_record provider dto league_id season home_id away_id found)
        Placed
unfolding place_record
place_record-Placed provider dto league_id season home_id away_id (none, by_ref) = record {
  ends = λ x h. (place_new-Placed dto league_id season home_id away_id).ends x h.0;
}
place_record-Placed provider dto league_id season home_id away_id (some f, by_ref) = record {
  ends = λ x h. (place_found-Placed provider by_ref f dto).ends x (h.0, ap is_some (h.1 f refl));
}

store_stats-Placed :
    (place : Place) (stats : Option ℕ) (x : Run)
    → Placed place x
    → Placed place (on_tables (store_stats place.fixture_id stats) x)
store_stats-Placed place none x h = h
store_stats-Placed place (some stats) x h =
    if_either (λ t. Placed place (record x { tables = t }))
      (is_some (find (λ s. s.0 == place.fixture_id) x.tables.stats)) h h

finish_insert-Placed :
    (league_code : ℕ) (season : Text) (dto : FixtureDto) (place : Place) (x : Run)
    → Placed place x
    → Placed place (finish_insert league_code season dto place x)
finish_insert-Placed league_code season dto place x h =
    if_either (Placed place) place.inserted (store_stats-Placed place dto.stats x h) h

link_external_ref-Placed :
    (place : Place) (provider external_id : ℕ) (x : Run)
    → Placed place x
    → Placed place (on_tables (link_external_ref place.fixture_id provider external_id) x)
unfolding link_external_ref
link_external_ref-Placed place provider external_id x (h, (f, found, at)) =
    if_either (λ t. Placed place (record x { tables = t }))
      (is_some (find (is_ref provider external_id) x.tables.refs)) (h, (f, found, at))
      ((h.0, h.1, (ap is_some found, h.2)), (f, found, at))

store_odds-Sound :
    (dto : FixtureDto) (place : Place) (x : Run) → Placed place x → Sound (store_odds dto place x)
unfolding store_odds
store_odds-Sound dto place x (h, (f, found, at)) =
    let start : Inserted = record { inserted = 0; rejected = 0; odds = x.tables.odds } in
    (
      subst
          (λ k.
            InTime x.tables.fixtures
              (insert_odds place.fixture_id dto.kickoff_at k dto.odds start).odds)
          at
          (insert_odds-InTime x.tables.fixtures f place.fixture_id dto.kickoff_at dto.odds start
            found h.0),
      h.1,
      h.2,
    )

looked_up :
    (job : Job) (dto : FixtureDto) (external_id league_id home_id away_id : ℕ)
    → Triple Aborted Sound
        (gets λ x.
          find_fixture x.tables job.provider
            (some external_id)
            league_id
            home_id
            away_id
            dto.kickoff_at)
        Found
looked_up job dto external_id league_id home_id away_id = record {
  ends = λ x h. (
    h,
    λ f.
        find_fixture-row x.tables job.provider (some external_id) league_id home_id away_id
          dto.kickoff_at f h.1,
  );
}

store_record-Sound :
    (job : Job) (dto : FixtureDto) (external_id league_id : ℕ) (season : Text) (home_id away_id : ℕ)
    → Triple Aborted Sound
        (store_record job dto external_id league_id season home_id away_id)
        (λ _. Sound)
unfolding store_record
store_record-Sound job dto external_id league_id season home_id away_id =
    bind (looked_up job dto external_id league_id home_id away_id) (λ found.
      bind (place_record-Placed job.provider dto league_id season home_id away_id found) (λ place.
        bind
          (modify_keeps (on_tables (link_external_ref place.fixture_id job.provider external_id))
            (link_external_ref-Placed place job.provider external_id))
          (λ _.
            bind
              (modify_keeps (finish_insert job.league_code season dto place)
                (finish_insert-Placed job.league_code season dto place))
              (λ _. modify_keeps (store_odds dto place) (store_odds-Sound dto place)))))

pub ingest_record-Sound :
    (job : Job) (dto : FixtureDto) → Triple Aborted Sound (ingest_record job dto) (λ _. Sound)
unfolding ingest_record
ingest_record-Sound job dto = bind (modify_keeps (on_summary count_seen) (λ x h. h)) (λ _.
    bind (or_raise_keeps dto.external_id value_error (λ x h. tt)) (λ external_id.
      bind (weaken {E = Sound} (λ x h. tt) (resolve_entities-Sound job dto))
        (λ (entities : League × ℕ × ℕ).
          bind
            (or_raise_keeps (canonical_season_for entities.0 dto.season) season_format (λ x h. tt))
            (λ season.
              store_record-Sound job dto external_id entities.0.id season entities.1 entities.2))))

pub ingest_all-Sound :
    (job : Job) (dtos : List FixtureDto) → Triple Aborted Sound (ingest_all job dtos) (λ _. Sound)
unfolding ingest_all
ingest_all-Sound job [] = answer tt (λ x h. h)
ingest_all-Sound job (dto ∷ dtos) =
    bind (ingest_record-Sound job dto) (λ _. ingest_all-Sound job dtos)
