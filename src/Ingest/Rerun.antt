-- ===== src/Ingest/Rerun.antt =====
-- The fixtures after the records of a source were ingested again.
use betpulse.Prelude.{
  ℕ, ◌≡◌, refl, sym, subst, Bool, true, Option, some, List, [], ◌∷◌, is_some, find, length,
}
use betpulse.Ingest.Action.{Result, ok, err, value_error, season_format, or_raise, ◌>>=◌}
use betpulse.Ingest.Seasons.{Text}
use betpulse.Ingest.Model.{Fixture, FixtureDto, ExternalRef, Tables, Summary, Run}
use betpulse.Ingest.Fixtures.{find_fixture, link_external_ref, is_ref}
use betpulse.Ingest.Steps.{Job, resolve_entities, canonical_season_for}
use betpulse.Ingest.Records.{
  count_seen, on_tables, on_summary, finish_insert, store_odds, store_record, ingest_record,
  ingest_all, ingest_records, empty_summary,
}
use betpulse.Ingest.Triples.{
  Triple, After, both, given, bind, or_raise_keeps, or_raise_gives, gets_gives, answer,
  modify_keeps, weaken,
}
use betpulse.Ingest.Rows.{Referenced, if_either}
use betpulse.Ingest.Keeps.{Timely, Sound}
use betpulse.Ingest.Timely.{Aborted}
use betpulse.Ingest.Again.{Linked, Has, On, finish_insert_keeps, store_odds_keeps, entities_keep}
use betpulse.Ingest.Idempotent.{Any, AllLinked, all_stay, ingest_record-Linked, ingest_all_links}
use betpulse.Ingest.Rule.{ingest_record-Sound, ingest_all-Sound}
use betpulse.Ingest.Count.{Count, Counted, find_fixture_known, place_record-Counted}

link_external_ref-Counted :
    (n fixture_id q d : ℕ) (x : Run)
    → Counted n x
    → Counted n (on_tables (link_external_ref fixture_id q d) x)
unfolding link_external_ref
link_external_ref-Counted n fixture_id q d x h =
    if_either (λ (t : Tables). length t.fixtures ≡ n) (is_some (find (is_ref q d) x.tables.refs)) h
      h

store_record-Counted :
    (n : ℕ) (job : Job) (dto : FixtureDto) (external_id league_id : ℕ) (season : Text)
    (home_id away_id : ℕ)
    → Triple
        (Counted n)
        (λ x.
          Counted n x
          × Referenced x.tables.fixtures x.tables.refs
          × Linked job.provider external_id x)
        (store_record job dto external_id league_id season home_id away_id)
        (λ _. Counted n)
unfolding store_record
store_record-Counted n job dto external_id league_id season home_id away_id =
    bind
      (gets_gives (λ (x : Run).
        find_fixture x.tables job.provider (some external_id) league_id home_id away_id
          dto.kickoff_at))
      (λ found.
        given
          (λ x h. (
            h.0.0,
            subst (λ (q : Option Fixture × Bool). is_some q.0 ≡ true) h.1
                (find_fixture_known x.tables job.provider external_id league_id home_id away_id
                  dto.kickoff_at h.0.1 h.0.2),
          ))
          (bind (place_record-Counted n job.provider dto league_id season home_id away_id found)
            (λ place.
              bind
                (modify_keeps
                  (on_tables (link_external_ref place.fixture_id job.provider external_id))
                  (link_external_ref-Counted n place.fixture_id job.provider external_id))
                (λ _.
                  bind
                    (modify_keeps (finish_insert job.league_code season dto place)
                      (finish_insert_keeps (Count n) job.league_code season dto place))
                    (λ _.
                      modify_keeps (store_odds dto place)
                        (store_odds_keeps (Count n) dto place))))))

-- What the steps before the search keep.
abbrev Ready : ℕ → ℕ → ℕ → List Fixture → List ExternalRef → Type 0
Ready n p e fixtures refs = Count n fixtures refs × Referenced fixtures refs × Has p e fixtures refs

record-Counted :
    (n : ℕ) (job : Job) (dto : FixtureDto) (e : ℕ)
    → Triple
        (Counted n)
        (On (Ready n job.provider e))
        (resolve_entities job dto >>= (λ entities.
          or_raise (canonical_season_for entities.0 dto.season) season_format
          >>= (λ season. store_record job dto e entities.0.id season entities.1 entities.2)))
        (λ _. Counted n)
record-Counted n job dto e =
    bind (weaken (λ x h. h.0) (entities_keep (Ready n job.provider e) job dto)) (λ entities.
      bind (or_raise_keeps (canonical_season_for entities.0 dto.season) season_format (λ x h. h.0))
        (λ season. store_record-Counted n job dto e entities.0.id season entities.1 entities.2))

-- Before a record that was read before.
abbrev Waiting : ℕ → Job → FixtureDto → Run → Type 0
Waiting n job dto x =
    Counted n x × Sound x × ((e : ℕ) → dto.external_id ≡ some e → Linked job.provider e x)

ingest_record-Counted :
    (n : ℕ) (job : Job) (dto : FixtureDto)
    → Triple (Counted n) (Waiting n job dto) (ingest_record job dto) (λ _. Counted n)
unfolding ingest_record
ingest_record-Counted n job dto =
    bind (modify_keeps {Q = Waiting n job dto} (on_summary count_seen) (λ x h. h)) (λ _.
      bind (or_raise_gives {P = Waiting n job dto} dto.external_id value_error (λ x h. h.0))
        (λ e. given (λ x h. (h.0.0, h.0.1.2, h.0.2 e h.1)) (record-Counted n job dto e)))

ingest_all-Counted :
    (n : ℕ) (job : Job) (dtos : List FixtureDto)
    → Triple
        (Counted n)
        (λ x. Counted n x × Sound x × AllLinked job.provider dtos x)
        (ingest_all job dtos)
        (λ _. Counted n)
unfolding ingest_all
ingest_all-Counted n job [] = answer tt (λ x h. h.0)
ingest_all-Counted n job (dto ∷ dtos) =
    bind
      (given (λ x h. ((h.1, h.2.1), (h.0, h.1, h.2.0)))
        (both
          (both (ingest_record-Sound job dto) (
            all_stay job.provider (ingest_record job dto)
              (λ e. ingest_record-Linked job.provider e job dto) dtos))
          (ingest_record-Counted n job dto)))
      (λ _. given (λ x h. (h.1, h.0.0, h.0.1)) (ingest_all-Counted n job dtos))

-- What a first run that succeeded leaves, read off its summary.
end_of_success :
    (p : ℕ) (dtos : List FixtureDto) (r : Result (Unit {0})) (x : Run) (s : Summary)
    → After Aborted (λ _. Sound) r x
    → After Any (λ _. AllLinked p dtos) r x
    → (elim r as (λ _. Result Summary × Tables) [
      | ok _ ↦ (ok x.summary, x.tables)
      | err e ↦ (err e, x.tables)
    ]).0
      ≡ ok s
    → Sound x × AllLinked p dtos x
end_of_success p dtos (ok a) x s h k done = (h, k)
end_of_success p dtos (err e) x s h k done = absurd (cc (done))

tables_of :
    (n : ℕ) (r : Result (Unit {0})) (x : Run)
    → After (Counted n) (λ _. Counted n) r x
    → length
        (elim r as (λ _. Result Summary × Tables) [
          | ok _ ↦ (ok x.summary, x.tables)
          | err e ↦ (err e, x.tables)
        ]).1.fixtures
      ≡ n
tables_of n (ok a) x h = h
tables_of n (err e) x h = h

same_tables :
    (r : Result (Unit {0})) (x : Run)
    → (elim r as (λ _. Result Summary × Tables) [
      | ok _ ↦ (ok x.summary, x.tables)
      | err e ↦ (err e, x.tables)
    ]).1
      ≡ x.tables
same_tables (ok a) x = refl
same_tables (err e) x = refl

-- After the records of a source were ingested without an error, from tables that keep the time rule,
-- the same records ingested again add no fixture, whether or not the second call raises.
pub ingest_records_again :
    (job : Job) (dtos : List FixtureDto) (t : Tables) (s : Summary)
    → Timely t
    → (ingest_records job dtos t).0 ≡ ok s
    → let t' = (ingest_records job dtos t).1 in
      length (ingest_records job dtos t').1.fixtures ≡ length t'.fixtures
unfolding ingest_records
ingest_records_again job dtos t s h done =
    let start : Run = record { tables = t; summary = empty_summary } in
    let (r, x) = ingest_all job dtos start in
    let ready =
      end_of_success job.provider dtos r x s ((ingest_all-Sound job dtos).ends start h)
        ((ingest_all_links job dtos).ends start tt) done in
    let again : Run = record { tables = x.tables; summary = empty_summary } in
    let n = length x.tables.fixtures in
    let (r', x') = ingest_all job dtos again in
    subst (λ (t' : Tables). length (ingest_records job dtos t').1.fixtures ≡ length t'.fixtures)
      (sym (same_tables r x))
      (tables_of n r' x' ((ingest_all-Counted n job dtos).ends again (refl, ready.0, ready.1)))
