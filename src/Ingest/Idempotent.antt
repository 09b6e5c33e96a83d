-- ===== src/Ingest/Idempotent.antt =====
-- The records of a source, ingested a second time.
use betpulse.Prelude.{ℕ, ◌≡◌, refl, subst, Option, none, some, List, [], ◌∷◌, All}
use betpulse.Ingest.Action.{Action, value_error, season_format, gets, or_raise, modify, ◌>>=◌}
use betpulse.Ingest.Seasons.{Text}
use betpulse.Ingest.Model.{FixtureDto, Run}
use betpulse.Ingest.Fixtures.{link_external_ref}
use betpulse.Ingest.Steps.{Job, resolve_entities, canonical_season_for}
use betpulse.Ingest.Records.{
  place_record, count_seen, on_tables, on_summary, finish_insert, store_odds, store_record,
  ingest_record, ingest_all,
}
use betpulse.Ingest.Triples.{
  Triple, After-same, both, given, so_that, bind, or_raise_keeps, or_raise_gives, answer,
  modify_keeps, weaken,
}
use betpulse.Ingest.Again.{
  Linked, link_external_ref_links, store_record-Linked, Has, finish_insert_keeps, store_odds_keeps,
  entities_keep,
}

abbrev pub Any : Run → Type 0
Any x = Unit

anything : {A : Type 0} (m : Action Run A) → Triple Any Any m (λ _. Any)
anything m = record { ends = λ x h. After-same Any (m x).0 (m x).1 tt }

store_record_links :
    (job : Job) (dto : FixtureDto) (external_id league_id : ℕ) (season : Text) (home_id away_id : ℕ)
    → Triple Any Any
        (store_record job dto external_id league_id season home_id away_id)
        (λ _. Linked job.provider external_id)
unfolding store_record
store_record_links job dto external_id league_id season home_id away_id =
    let P = Has job.provider external_id in
    bind (anything (gets _)) (λ found.
      bind (anything (place_record job.provider dto league_id season home_id away_id found))
        (λ place.
          bind
            (modify_keeps (on_tables (link_external_ref place.fixture_id job.provider external_id))
              (λ x h. link_external_ref_links place.fixture_id job.provider external_id x))
            (λ _.
              bind
                (modify_keeps (finish_insert job.league_code season dto place)
                  (finish_insert_keeps P job.league_code season dto place))
                (λ _. modify_keeps (store_odds dto place) (store_odds_keeps P dto place)))))

-- The steps of a record after its identifier was read.
record_links :
    (job : Job) (dto : FixtureDto) (external_id : ℕ)
    → dto.external_id ≡ some external_id
    → Triple Any Any
        (resolve_entities job dto >>= (λ entities.
          or_raise (canonical_season_for entities.0 dto.season) season_format >>= (λ season.
            store_record job dto external_id entities.0.id season entities.1 entities.2)))
        (λ _ x. (e : ℕ) → dto.external_id ≡ some e → Linked job.provider e x)
record_links job dto external_id known = bind (anything (resolve_entities job dto)) (λ entities.
    bind (anything (or_raise (canonical_season_for entities.0 dto.season) season_format)) (λ season.
      so_that
        (λ a x h e same.
          let equal : external_id ≡ e = cc (known, same) in
          subst (λ i. Linked job.provider i x) equal h)
        (store_record_links job dto external_id entities.0.id season entities.1 entities.2)))

ingest_record_links :
    (job : Job) (dto : FixtureDto)
    → Triple Any Any
        (ingest_record job dto)
        (λ _ x. (e : ℕ) → dto.external_id ≡ some e → Linked job.provider e x)
unfolding ingest_record
ingest_record_links job dto = bind (anything (modify (on_summary count_seen))) (λ _.
    bind (or_raise_gives dto.external_id value_error (λ x h. tt))
      (λ external_id. record { ends = λ x h. (record_links job dto external_id h.1).ends x tt }))

pub ingest_record-Linked :
    (p e : ℕ) (job : Job) (dto : FixtureDto)
    → Triple (Linked p e) (Linked p e) (ingest_record job dto) (λ _. Linked p e)
unfolding ingest_record
ingest_record-Linked p e job dto = bind (modify_keeps (on_summary count_seen) (λ x h. h)) (λ _.
    bind (or_raise_keeps dto.external_id value_error (λ x h. h)) (λ external_id.
      bind (entities_keep (Has p e) job dto) (λ entities.
        bind (or_raise_keeps (canonical_season_for entities.0 dto.season) season_format (λ x h. h))
          (λ season.
            store_record-Linked p e job dto external_id entities.0.id season entities.1
              entities.2))))

ingest_all-Linked :
    (p e : ℕ) (job : Job) (dtos : List FixtureDto)
    → Triple (Linked p e) (Linked p e) (ingest_all job dtos) (λ _. Linked p e)
unfolding ingest_all
ingest_all-Linked p e job [] = answer tt (λ x h. h)
ingest_all-Linked p e job (dto ∷ dtos) =
    bind (ingest_record-Linked p e job dto) (λ _. ingest_all-Linked p e job dtos)

-- Each record of a list has an identifier that a reference has.
abbrev pub AllLinked : ℕ → List FixtureDto → Run → Type 0
AllLinked p dtos x = All (λ dto. (e : ℕ) → dto.external_id ≡ some e → Linked p e x) dtos

-- An action that keeps every reference keeps that of a record.
module _ (p : ℕ) (m : Action Run (Unit {0}))
    (keeps : (e : ℕ) → Triple (Linked p e) (Linked p e) m (λ _. Linked p e)) where
  links_stay :
      (o : Option ℕ)
      → Triple Any
          (λ x. (e : ℕ) → o ≡ some e → Linked p e x)
          m
          (λ _ x. (e : ℕ) → o ≡ some e → Linked p e x)
  links_stay none = so_that (λ a x h e same. absurd (cc)) (given (λ x h. tt) (anything m))
  links_stay (some d) =
      so_that (λ a x h e same. let equal : d ≡ e = cc (same) in subst (λ i. Linked p i x) equal h)
        (given (λ x h. h d refl) (weaken (λ x h. tt) (keeps d)))

  pub all_stay : (dtos : List FixtureDto) → Triple Any (AllLinked p dtos) m (λ _. AllLinked p dtos)
  all_stay [] = anything m
  all_stay (dto ∷ dtos) = both (links_stay dto.external_id) (all_stay dtos)

pub ingest_all_links :
    (job : Job) (dtos : List FixtureDto)
    → Triple Any Any (ingest_all job dtos) (λ _. AllLinked job.provider dtos)
unfolding ingest_all
ingest_all_links job [] = answer tt (λ x h. tt)
ingest_all_links job (dto ∷ dtos) = bind (ingest_record_links job dto) (λ _.
    so_that (λ a x h. (h.0, h.1))
      (given (λ x h. (h, tt))
        (both
          (links_stay job.provider (ingest_all job dtos)
            (λ e. ingest_all-Linked job.provider e job dtos) dto.external_id)
          (ingest_all_links job dtos))))
