-- ===== src/Ingest/Again.antt =====
-- A source's records, ingested again.
use betpulse.Prelude.{
  ℕ, ◌≡◌, refl, sym, ap, subst, Bool, true, Option, none, some, List, [], ◌∷◌, ◌==◌, ◌&&◌, is_some,
  find, arith, if◌then◌else◌, Bool-cases, inl, inr,
}
use betpulse.Ingest.Action.{Result, runtime_error}
use betpulse.Ingest.Seasons.{Text}
use betpulse.Ingest.Model.{Fixture, FixtureDto, ExternalRef, Change, Tables, Run, fixture_of}
use betpulse.Ingest.Fixtures.{by_kickoff, link_external_ref, is_ref, is_same_match, insert_fixture}
use betpulse.Ingest.Reconcile.{is_moved, changes_for, apply_changes, collides}
use betpulse.Ingest.Steps.{
  Job, resolve_entities, reconcile, flush_changes, before_changes, removed_odds,
}
use betpulse.Ingest.Records.{
  Place, place_of, insert_row, place_inserted, place_new, place_found, place_record, refreshed,
  count_linked, on_tables, on_summary, finish_insert, store_stats, store_odds, store_record,
}
use betpulse.Ingest.Triples.{
  Triple, After-same, given, bind, or_raise_keeps, gets_gives, answer, modify_keeps,
}
use betpulse.Ingest.Rows.{if_either}
use betpulse.Ingest.Keeps.{resolve_entities_keeps}

-- The source's own identifier is that of a reference.
abbrev pub Linked : ℕ → ℕ → Run → Type 0
Linked p e x = is_some (find (is_ref p e) x.tables.refs) ≡ true

pub link_external_ref_links :
    (fixture_id q d : ℕ) (x : Run) → Linked q d (on_tables (link_external_ref fixture_id q d) x)
unfolding link_external_ref
link_external_ref_links fixture_id q d x =
    elim (Bool-cases (is_some (find (is_ref q d) x.tables.refs))) [
      | inl there ↦
          subst (λ (t : Tables). is_some (find (is_ref q d) t.refs) ≡ true)
            (ap
              (λ b. if b then x.tables else record x.tables {
                refs =
                    record { fixture_id = fixture_id; provider = q; external_id = d }
                    ∷ x.tables.refs;
              })
              (sym there))
            there
      | inr missing ↦
          subst (λ (t : Tables). is_some (find (is_ref q d) t.refs) ≡ true)
            (ap
              (λ b. if b then x.tables else record x.tables {
                refs =
                    record { fixture_id = fixture_id; provider = q; external_id = d }
                    ∷ x.tables.refs;
              })
              (sym missing))
            (ground arith)
    ]

-- References stay.
module _ (p e : ℕ) where
  link_external_ref-Linked :
      (fixture_id q d : ℕ) (x : Run)
      → Linked p e x
      → Linked p e (on_tables (link_external_ref fixture_id q d) x)
  unfolding link_external_ref
  link_external_ref-Linked fixture_id q d x h =
      if_either (λ (t : Tables). is_some (find (is_ref p e) t.refs) ≡ true)
        (is_some (find (is_ref q d) x.tables.refs)) h
        (if_either (λ (o : Option ExternalRef). is_some o ≡ true) ((q == p) && (d == e)) refl h)

  flush_changes-Linked :
      (provider : ℕ) (f : Fixture) (x : Run) (changes : List Change) (removed : ℕ)
      → Linked p e x
      → Linked p e (flush_changes provider f changes removed x).1
  flush_changes-Linked provider f x [] removed h = h
  flush_changes-Linked provider f x (c ∷ cs) removed h =
      if_either (λ (r : Result (Unit {0}) × Run). Linked p e r.1)
        (collides (apply_changes (c ∷ cs) f) x.tables.fixtures) h h

  reconcile-Linked :
      (provider : ℕ) (by_ref : Bool) (f : Fixture) (dto : FixtureDto)
      → Triple (Linked p e) (Linked p e) (reconcile provider by_ref f dto) (λ _. Linked p e)
  unfolding reconcile
  reconcile-Linked provider by_ref f dto = record {
    ends = λ x h.
        let own = f.source == provider in
        let moved = is_moved own by_ref f dto in
        let y = before_changes provider own moved f dto x in
        let changes = changes_for own by_ref f dto in
        let removed = removed_odds moved f dto x.tables.odds in
        let (r, z) = flush_changes provider f changes removed y in
        After-same (Linked p e) r z (flush_changes-Linked provider f y changes removed h);
  }

  insert_row-Linked :
      (dto : FixtureDto) (league_id : ℕ) (season : Text) (home_id away_id : ℕ)
      → Triple
          (Linked p e)
          (Linked p e)
          (insert_row dto league_id season home_id away_id)
          (λ _. Linked p e)
  unfolding insert_row insert_fixture
  insert_row-Linked dto league_id season home_id away_id = record {
    ends = λ x h.
        if_either (λ (r : Option ℕ × Tables). Linked p e (record x { tables = r.1 }))
          (is_some (
            find (is_same_match league_id season home_id away_id dto.kickoff_at) x.tables.fixtures))
          h h;
  }

  place_inserted-Linked :
      (dto : FixtureDto) (league_id home_id away_id : ℕ) (id : Option ℕ)
      → Triple
          (Linked p e)
          (Linked p e)
          (place_inserted dto league_id home_id away_id id)
          (λ _. Linked p e)
  unfolding place_inserted
  place_inserted-Linked dto league_id home_id away_id (some id) = record { ends = λ x h. h }
  place_inserted-Linked dto league_id home_id away_id none =
      bind (gets_gives (λ (x : Run). by_kickoff x.tables league_id home_id away_id dto.kickoff_at))
        (λ found.
          bind (or_raise_keeps found runtime_error (λ x h. h.0))
            (λ f. answer (place_of f) (λ x h. h.0)))

  place_record-Linked :
      (provider : ℕ) (dto : FixtureDto) (league_id : ℕ) (season : Text) (home_id away_id : ℕ)
      (found : Option Fixture × Bool)
      → Triple
          (Linked p e)
          (Linked p e)
          (place_record provider dto league_id season home_id away_id found)
          (λ _. Linked p e)
  unfolding place_record place_new place_found
  place_record-Linked provider dto league_id season home_id away_id (none, by_ref) =
      bind (insert_row-Linked dto league_id season home_id away_id)
        (place_inserted-Linked dto league_id home_id away_id)
  place_record-Linked provider dto league_id season home_id away_id (some f, by_ref) =
      bind (reconcile-Linked provider by_ref f dto) (λ _.
        bind (modify_keeps (on_summary (count_linked by_ref)) (λ x h. h)) (λ _.
          bind (gets_gives (λ (x : Run). fixture_of x.tables f.id))
            (λ r. answer (place_of (refreshed f r)) (λ x h. h.0))))

-- What is said of fixtures and references only is kept by the other tables and the summary.
module _ (P : List Fixture → List ExternalRef → Type 0) where
  abbrev pub On : Run → Type 0
  On x = P x.tables.fixtures x.tables.refs

  store_stats_keeps :
      (id : ℕ) (stats : Option ℕ) (x : Run) → On x → On (on_tables (store_stats id stats) x)
  store_stats_keeps id none x h = h
  store_stats_keeps id (some stats) x h =
      if_either (λ (t : Tables). P t.fixtures t.refs)
        (is_some (find (λ s. s.0 == id) x.tables.stats)) h h

  pub finish_insert_keeps :
      (league_code : ℕ) (season : Text) (dto : FixtureDto) (place : Place) (x : Run)
      → On x
      → On (finish_insert league_code season dto place x)
  finish_insert_keeps league_code season dto place x h =
      if_either On place.inserted (store_stats_keeps place.fixture_id dto.stats x h) h

  pub store_odds_keeps :
      (dto : FixtureDto) (place : Place) (x : Run) → On x → On (store_odds dto place x)
  unfolding store_odds
  store_odds_keeps dto place x h = h

  pub entities_keep :
      (job : Job) (dto : FixtureDto) → Triple On On (resolve_entities job dto) (λ _. On)
  entities_keep =
      resolve_entities_keeps On (λ x n h. h) (λ b x h. if_either On b h h)
        (λ b x h. if_either On b h h)

abbrev pub Has : ℕ → ℕ → List Fixture → List ExternalRef → Type 0
Has p e fixtures refs = is_some (find (is_ref p e) refs) ≡ true

pub store_record-Linked :
    (p e : ℕ) (job : Job) (dto : FixtureDto) (external_id league_id : ℕ) (season : Text)
    (home_id away_id : ℕ)
    → Triple
        (Linked p e)
        (Linked p e)
        (store_record job dto external_id league_id season home_id away_id)
        (λ _. Linked p e)
unfolding store_record
store_record-Linked p e job dto external_id league_id season home_id away_id =
    bind (gets_gives _) (λ found.
      given (λ x h. h.0)
        (bind (place_record-Linked p e job.provider dto league_id season home_id away_id found)
          (λ place.
            bind
              (modify_keeps
                (on_tables (link_external_ref place.fixture_id job.provider external_id))
                (link_external_ref-Linked p e place.fixture_id job.provider external_id))
              (λ _.
                bind
                  (modify_keeps (finish_insert job.league_code season dto place)
                    (finish_insert_keeps (Has p e) job.league_code season dto place))
                  (λ _.
                    modify_keeps (store_odds dto place) (store_odds_keeps (Has p e) dto place))))))
