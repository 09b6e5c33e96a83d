-- ===== src/Ingest/Count.antt =====
-- The number of fixtures over the correction of a fixture that the source's identifier denotes.
use betpulse.Prelude.{
  ℕ, suc, ◌≡◌, refl, ◌∙◌, ap, subst, Bool, true, Option, none, some, List, [], ◌∷◌, ◌==◌, is_some,
  find, length, update_where, All, arith, Bool-cases, Option-cases, inl, inr,
}
use betpulse.Ingest.Action.{Result}
use betpulse.Ingest.Seasons.{Text}
use betpulse.Ingest.Model.{Fixture, FixtureDto, ExternalRef, Change, Tables, Run, fixture_of}
use betpulse.Ingest.Fixtures.{by_reference, find_fixture, is_ref}
use betpulse.Ingest.Reconcile.{is_moved, changes_for, apply_changes, collides}
use betpulse.Ingest.Steps.{reconcile, flush_changes, before_changes, removed_odds}
use betpulse.Ingest.Records.{
  place_of, place_found, place_record, refreshed, count_linked, on_summary,
}
use betpulse.Ingest.Triples.{Triple, After-same, given, bind, gets_gives, answer, modify_keeps}
use betpulse.Ingest.Rows.{Referenced, row, if_either}

-- How many fixtures there are.
abbrev pub Count : ℕ → List Fixture → List ExternalRef → Type 0
Count n fixtures refs = length fixtures ≡ n

abbrev pub Counted : ℕ → Run → Type 0
Counted n x = length x.tables.fixtures ≡ n

length-update_where :
    {A : Type 0} (p : A → Bool) (f : A → A) (xs : List A) → length (update_where p f xs) ≡ length xs
length-update_where p f [] = refl
length-update_where p f (x ∷ xs) = ap suc (length-update_where p f xs)

find-All :
    {A : Type 0} (P : A → Type 0) (p : A → Bool) (xs : List A) (x : A)
    → find p xs ≡ some x
    → All P xs
    → P x
find-All P p [] x found h = absurd (cc)
find-All P p (y ∷ ys) x found (h, rest) = elim (Bool-cases (p y)) [
  | inl hit ↦ let same : y ≡ x = ground (arith, found, hit) in subst P same h
  | inr miss ↦ find-All P p ys x (ground (arith, found, miss)) rest
]

pub find_fixture_known :
    (t : Tables) (p e league_id home_id away_id kickoff : ℕ)
    → Referenced t.fixtures t.refs
    → is_some (find (is_ref p e) t.refs) ≡ true
    → is_some (find_fixture t p (some e) league_id home_id away_id kickoff).0 ≡ true
unfolding find_fixture by_reference
find_fixture_known t p e league_id home_id away_id kickoff refs linked =
    elim (Option-cases (find (is_ref p e) t.refs)) [
      | inl missing ↦ absurd (cc)
      | inr (x, found) ↦
          let there =
            find-All (λ y. is_some (row y.fixture_id t.fixtures) ≡ true) (is_ref p e) t.refs x found
              refs in
          elim (Option-cases (row x.fixture_id t.fixtures)) [
            | inl gone ↦ absurd (cc)
            | inr (f, stored) ↦ ground (arith, found, stored)
          ]
    ]

flush_changes-Counted :
    (n provider : ℕ) (f : Fixture) (x : Run) (changes : List Change) (removed : ℕ)
    → Counted n x
    → Counted n (flush_changes provider f changes removed x).1
flush_changes-Counted n provider f x [] removed h = h
flush_changes-Counted n provider f x (c ∷ cs) removed h =
    if_either (λ (r : Result (Unit {0}) × Run). Counted n r.1)
      (collides (apply_changes (c ∷ cs) f) x.tables.fixtures) h
      (length-update_where (λ g. g.id == f.id) (apply_changes (c ∷ cs)) x.tables.fixtures ∙ h)

reconcile-Counted :
    (n provider : ℕ) (by_ref : Bool) (f : Fixture) (dto : FixtureDto)
    → Triple (Counted n) (Counted n) (reconcile provider by_ref f dto) (λ _. Counted n)
unfolding reconcile
reconcile-Counted n provider by_ref f dto = record {
  ends = λ x h.
      let own = f.source == provider in
      let moved = is_moved own by_ref f dto in
      let y = before_changes provider own moved f dto x in
      let changes = changes_for own by_ref f dto in
      let removed = removed_odds moved f dto x.tables.odds in
      let (r, z) = flush_changes provider f changes removed y in
      After-same (Counted n) r z (flush_changes-Counted n provider f y changes removed h);
}

pub place_record-Counted :
    (n provider : ℕ) (dto : FixtureDto) (league_id : ℕ) (season : Text) (home_id away_id : ℕ)
    (found : Option Fixture × Bool)
    → Triple
        (Counted n)
        (λ x. Counted n x × (is_some found.0 ≡ true))
        (place_record provider dto league_id season home_id away_id found)
        (λ _. Counted n)
unfolding place_record place_found
place_record-Counted n provider dto league_id season home_id away_id (none, by_ref) = record {
  ends = λ x h. absurd (cc (h.1));
}
place_record-Counted n provider dto league_id season home_id away_id (some f, by_ref) =
    given (λ x h. h.0)
      (bind (reconcile-Counted n provider by_ref f dto) (λ _.
        bind (modify_keeps (on_summary (count_linked by_ref)) (λ x h. h)) (λ _.
          bind (gets_gives (λ (x : Run). fixture_of x.tables f.id))
            (λ r. answer (place_of (refreshed f r)) (λ x h. h.0)))))
