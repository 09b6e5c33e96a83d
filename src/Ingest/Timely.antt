-- ===== src/Ingest/Timely.antt =====
-- The invariant of the tables over the placing of a record and its quotes.
use betpulse.Prelude.{
  ℕ, suc, ◌≡◌, refl, ◌∙◌, sym, ap, subst, Bool, true, false, Option, none, some, List, [], ◌∷◌,
  ◌==◌, is_some, find, update_where, select, All, arith, if◌then◌else◌, Bool-cases, Option-cases,
  inl, inr,
}
use betpulse.Ingest.Action.{Result, runtime_error}
use betpulse.Ingest.Seasons.{Text}
use betpulse.Ingest.Model.{Fixture, Odds, Change, FixtureDto, Tables, Run}
use betpulse.Ingest.Fixtures.{
  by_reference, is_ref, by_kickoff, closest, is_candidate, find_fixture, insert_fixture,
  new_fixture, is_same_match,
}
use betpulse.Ingest.Reconcile.{is_moved, changes_for, apply_changes, collides}
use betpulse.Ingest.Steps.{reconcile, before_changes, flush_changes, removed_odds, reconcile_odds}
use betpulse.Ingest.Records.{Place, place_of, insert_row, place_inserted, place_new}
use betpulse.Ingest.Triples.{Triple, After, bind, or_raise_gives, gets_gives, answer}
use betpulse.Ingest.Rows.{
  insert-Referenced, update_where-Referenced, update_where-is_some, row, Below, row-id, Below-row,
  All-map, if_either, select-All, closest_of-All, update_where-Below, kickoff_after,
  changes_for-kickoff_after,
}
use betpulse.Ingest.TimeRule.{InTime, corrected, insert-InTime, stays-InTime, moves-InTime}
use betpulse.Ingest.Keeps.{Sound}

closest-row :
    (kickoff : ℕ) (all fs : List Fixture) (f : Fixture)
    → All (λ g. row g.id all ≡ some g) fs
    → closest kickoff fs ≡ some f
    → row f.id all ≡ some f
closest-row kickoff all [] f h found = absurd (cc)
closest-row kickoff all (g ∷ gs) f (h, rest) found =
    let chosen = closest_of-All (λ x. row x.id all ≡ some x) kickoff g gs h rest in cc

by_kickoff-row :
    (t : Tables) (league_id home_id away_id kickoff : ℕ) (f : Fixture)
    → Below t.next_id t.fixtures
    → by_kickoff t league_id home_id away_id kickoff ≡ some f
    → row f.id t.fixtures ≡ some f
unfolding by_kickoff
by_kickoff-row t league_id home_id away_id kickoff f below found =
    closest-row kickoff t.fixtures
      (select (is_candidate league_id home_id away_id kickoff) t.fixtures) f
      (select-All (λ g. row g.id t.fixtures ≡ some g)
        (is_candidate league_id home_id away_id kickoff) t.fixtures
        (All-map t.fixtures (λ g h. h.1) (Below-row t.next_id t.fixtures below)))
      found

by_reference-row :
    (t : Tables) (provider : ℕ) (external_id : Option ℕ) (f : Fixture)
    → by_reference t provider external_id ≡ some f
    → row f.id t.fixtures ≡ some f
unfolding by_reference
by_reference-row t provider none f found = absurd (cc)
by_reference-row t provider (some external_id) f found =
    elim (Option-cases (find (is_ref provider external_id) t.refs)) [
      | inl missing ↦ absurd (cc)
      | inr (x, h) ↦
          let at : row x.fixture_id t.fixtures ≡ some f = cc in
          let same = row-id x.fixture_id t.fixtures f at in cc
    ]

pub find_fixture-row :
    (t : Tables) (provider : ℕ) (external_id : Option ℕ) (league_id home_id away_id kickoff : ℕ)
    (f : Fixture)
    → Below t.next_id t.fixtures
    → (find_fixture t provider external_id league_id home_id away_id kickoff).0 ≡ some f
    → row f.id t.fixtures ≡ some f
unfolding find_fixture
find_fixture-row t provider external_id league_id home_id away_id kickoff f below found =
    elim (Option-cases (by_reference t provider external_id)) [
      | inl missing ↦
          by_kickoff-row t league_id home_id away_id kickoff f below
            (ground (arith, found, missing))
      | inr (g, h) ↦ by_reference-row t provider external_id f (ground (arith, found, h))
    ]

-- The row that a place names, with the kickoff that the place gives.
abbrev pub Placed : Place → Run → Type 0
Placed place x =
    Sound x
    × ((f : Fixture) × (row place.fixture_id x.tables.fixtures ≡ some f)
        × (f.kickoff_at ≡ place.stored_kickoff))

-- Nothing is said of the session after an error, which the caller rolls back.
abbrev pub Aborted : Run → Type 0
Aborted x = Unit

-- An identifier given out by an insertion is that of a row with the record's kickoff.
abbrev Entered : ℕ → Option ℕ → Run → Type 0
Entered kickoff none x = Sound x
Entered kickoff (some id) x =
    Sound x × ((f : Fixture) × (row id x.tables.fixtures ≡ some f) × (f.kickoff_at ≡ kickoff))

insert_fixture-Entered :
    (dto : FixtureDto) (league_id : ℕ) (season : Text) (home_id away_id : ℕ) (x : Run)
    → Sound x
    → (let (id, t) = insert_fixture dto league_id season home_id away_id x.tables in
        Entered dto.kickoff_at id (record x { tables = t }))
unfolding insert_fixture
insert_fixture-Entered dto league_id season home_id away_id x h =
    let t = x.tables in
    let g = new_fixture t.next_id dto league_id season home_id away_id in
    if_either (λ (p : Option ℕ × Tables). Entered dto.kickoff_at p.0 (record x { tables = p.1 }))
      (is_some (find (is_same_match league_id season home_id away_id dto.kickoff_at) t.fixtures)) h
      (
        (
          insert-InTime t.next_id g t.fixtures t.odds refl h.1 h.0,
          (omega arith, h.1),
          insert-Referenced g t.fixtures t.refs h.2,
        ),
        (g, ground arith, refl),
      )

place_inserted-Placed :
    (dto : FixtureDto) (league_id home_id away_id : ℕ) (id : Option ℕ)
    → Triple Aborted
        (Entered dto.kickoff_at id)
        (place_inserted dto league_id home_id away_id id)
        Placed
unfolding place_inserted
place_inserted-Placed dto league_id home_id away_id (some id) = record { ends = λ x h. h }
place_inserted-Placed dto league_id home_id away_id none =
    bind (gets_gives (λ (x : Run). by_kickoff x.tables league_id home_id away_id dto.kickoff_at))
      (λ found. bind (or_raise_gives found runtime_error (λ x h. tt)) (λ f.
        answer (place_of f) (λ x h. (
          h.0.0,
          (
            f,
            by_kickoff-row x.tables league_id home_id away_id dto.kickoff_at f h.0.0.1
                (h.0.1 ∙ h.1),
            refl,
          ),
        ))))

insert_row-Entered :
    (dto : FixtureDto) (league_id : ℕ) (season : Text) (home_id away_id : ℕ)
    → Triple Aborted Sound
        (insert_row dto league_id season home_id away_id)
        (Entered dto.kickoff_at)
unfolding insert_row
insert_row-Entered dto league_id season home_id away_id = record {
  ends = λ x h. insert_fixture-Entered dto league_id season home_id away_id x h;
}

pub place_new-Placed :
    (dto : FixtureDto) (league_id : ℕ) (season : Text) (home_id away_id : ℕ)
    → Triple Aborted Sound (place_new dto league_id season home_id away_id) Placed
unfolding place_new
place_new-Placed dto league_id season home_id away_id =
    bind (insert_row-Entered dto league_id season home_id away_id)
      (place_inserted-Placed dto league_id home_id away_id)

-- A correction without changes does not move the kickoff.
unchanged_stays :
    (own by_ref : Bool) (f : Fixture) (dto : FixtureDto)
    → changes_for own by_ref f dto ≡ []
    → is_moved own by_ref f dto ≡ false
unchanged_stays own by_ref f dto none_left =
    let k = suc dto.kickoff_at in
    let same : k ≡ (if is_moved own by_ref f dto then dto.kickoff_at else k) =
      ap (kickoff_after k) (sym none_left) ∙ changes_for-kickoff_after own by_ref f dto k in
    elim (Bool-cases (is_moved own by_ref f dto)) [
      | inl moved ↦ ground (arith, same, moved)
      | inr stays ↦ stays
    ]

-- The odds of a correction, in time for the corrected fixtures.
reconcile_odds-InTime :
    (own by_ref : Bool) (f : Fixture) (dto : FixtureDto) (fixtures : List Fixture)
    (odds : List Odds) (moved : Bool)
    → is_moved own by_ref f dto ≡ moved
    → InTime fixtures odds
    → InTime (corrected own by_ref f dto fixtures) (reconcile_odds moved f dto odds)
reconcile_odds-InTime own by_ref f dto fixtures odds true moves h =
    moves-InTime own by_ref f dto fixtures odds moves h
reconcile_odds-InTime own by_ref f dto fixtures odds false stays h =
    stays-InTime own by_ref f dto fixtures odds stays h

-- The session in which the row of `f` is stored.
abbrev pub Kept : ℕ → Run → Type 0
Kept id x = Sound x × (is_some (row id x.tables.fixtures) ≡ true)

flush_changes-Kept :
    (provider : ℕ) (own by_ref : Bool) (f : Fixture) (dto : FixtureDto) (x : Run)
    (changes : List Change) (removed : ℕ)
    → changes_for own by_ref f dto ≡ changes
    → Kept f.id x
    → (let (r, y) =
          flush_changes provider f changes removed
            (before_changes provider own (is_moved own by_ref f dto) f dto x) in
        After Aborted (λ _. Kept f.id) r y)
flush_changes-Kept provider own by_ref f dto x [] removed same h = (
  (
    subst (λ b. InTime x.tables.fixtures (reconcile_odds b f dto x.tables.odds))
        (sym (unchanged_stays own by_ref f dto same)) h.0.0,
    h.0.1,
    h.0.2,
  ),
  h.1,
)
flush_changes-Kept provider own by_ref f dto x (c ∷ cs) removed same h =
    let t = x.tables in
    let y = before_changes provider own (is_moved own by_ref f dto) f dto x in
    let rows = update_where (λ g. g.id == f.id) (apply_changes (c ∷ cs)) t.fixtures in
    let odds =
      reconcile_odds-InTime own by_ref f dto t.fixtures t.odds (is_moved own by_ref f dto) refl
        h.0.0 in
    if_either (λ (p : Result (Unit {0}) × Run). After Aborted (λ _. Kept f.id) p.0 p.1)
      (collides (apply_changes (c ∷ cs) f) y.tables.fixtures) tt
      (
        (
          subst
              (λ new.
                InTime (update_where (λ g. g.id == f.id) (apply_changes new) t.fixtures)
                  (reconcile_odds (is_moved own by_ref f dto) f dto t.odds))
              same odds,
          update_where-Below t.next_id f.id (c ∷ cs) t.fixtures h.0.1,
          update_where-Referenced f.id (c ∷ cs) t.fixtures t.refs h.0.2,
        ),
        update_where-is_some f.id f.id (c ∷ cs) t.fixtures h.1,
      )

pub reconcile-Kept :
    (provider : ℕ) (by_ref : Bool) (f : Fixture) (dto : FixtureDto)
    → Triple Aborted (Kept f.id) (reconcile provider by_ref f dto) (λ _. Kept f.id)
unfolding reconcile
reconcile-Kept provider by_ref f dto = record {
  ends = λ x h.
      flush_changes-Kept provider (f.source == provider) by_ref f dto x
        (changes_for (f.source == provider) by_ref f dto)
        (removed_odds (is_moved (f.source == provider) by_ref f dto) f dto x.tables.odds) refl h;
}
