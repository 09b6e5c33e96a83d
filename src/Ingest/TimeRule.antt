-- ===== src/Ingest/TimeRule.antt =====
-- The time rule of odds, relative to the stored kickoff of their fixture.
use betpulse.Prelude.{
  ℕ, ◌∙◌, sym, ap, subst, ◌≡◌, refl, Bool, true, false, Option, none, some, List, [], ◌∷◌, ◌==◌,
  ◌&&◌, not, leb, ltb, select, update_where, All, arith, if◌then◌else◌, Option-cases, inl, inr,
}
use betpulse.Ingest.Model.{Fixture, Odds, QuoteDto, FixtureDto}
use betpulse.Ingest.Reconcile.{move_odds, is_late, apply_changes, changes_for, is_moved}
use betpulse.Ingest.Rows.{
  row, Below, row-Below, row-update_where, applied, apply_changes-kickoff_at,
  changes_for-kickoff_after,
}
use betpulse.Ingest.Quotes.{Inserted, quote_problem, stored_ts, odds_row, take_quote, insert_odds}

-- A closing quote is taken at the kickoff at the latest, another one strictly before it.
abbrev pub is_in_time : ℕ → Odds → Bool
is_in_time kickoff o = if o.is_closing then leb o.ts kickoff else ltb o.ts kickoff

-- The quote's fixture is stored, and the quote is in time for it.
abbrev pub is_in_time_for : Option Fixture → Odds → Bool
is_in_time_for none o = false
is_in_time_for (some f) o = is_in_time f.kickoff_at o

abbrev pub InTime : List Fixture → List Odds → Type 0
InTime fixtures odds = All (λ o. is_in_time_for (row o.fixture_id fixtures) o ≡ true) odds

pub quote_problem-is_in_time :
    (fixture_id kickoff stored_kickoff : ℕ) (q : QuoteDto)
    → let ts = stored_ts kickoff stored_kickoff q in
      quote_problem ts q.is_closing q.price (kickoff, stored_kickoff) ≡ none
      → is_in_time stored_kickoff (odds_row fixture_id ts q) ≡ true
unfolding quote_problem
quote_problem-is_in_time fixture_id kickoff stored_kickoff q h = ground (arith, h)

pub take_quote-InTime :
    (fixtures : List Fixture) (f : Fixture) (fixture_id kickoff : ℕ) (q : QuoteDto) (x : Inserted)
    → row fixture_id fixtures ≡ some f
    → InTime fixtures x.odds
    → InTime fixtures (take_quote fixture_id kickoff f.kickoff_at q x).odds
unfolding take_quote
take_quote-InTime fixtures f fixture_id kickoff q x h rows =
    ground (arith, h, rows, quote_problem-is_in_time fixture_id kickoff f.kickoff_at q)

pub insert_odds-InTime :
    (fixtures : List Fixture) (f : Fixture) (fixture_id kickoff : ℕ) (qs : List QuoteDto)
    (x : Inserted)
    → row fixture_id fixtures ≡ some f
    → InTime fixtures x.odds
    → InTime fixtures (insert_odds fixture_id kickoff f.kickoff_at qs x).odds
unfolding insert_odds
insert_odds-InTime fixtures f fixture_id kickoff [] x h rows = rows
insert_odds-InTime fixtures f fixture_id kickoff (q ∷ qs) x h rows =
    insert_odds-InTime fixtures f fixture_id kickoff qs
      (take_quote fixture_id kickoff f.kickoff_at q x) h
      (take_quote-InTime fixtures f fixture_id kickoff q x h rows)

-- A new fixture takes an identifier that no quote has.
insert-is_in_time_for :
    (n : ℕ) (g : Fixture) (fixtures : List Fixture) (o : Odds)
    → g.id ≡ n
    → Below n fixtures
    → is_in_time_for (row o.fixture_id fixtures) o ≡ true
    → is_in_time_for (row o.fixture_id (g ∷ fixtures)) o ≡ true
insert-is_in_time_for n g fixtures o new below h = elim (Option-cases (row o.fixture_id fixtures)) [
  | inl missing ↦ ground (arith, h, missing)
  | inr (f, found) ↦
      let lower = row-Below n o.fixture_id fixtures f below found in
      ground (arith, h, found, lower, new)
]

pub insert-InTime :
    (n : ℕ) (g : Fixture) (fixtures : List Fixture) (odds : List Odds)
    → g.id ≡ n
    → Below n fixtures
    → InTime fixtures odds
    → InTime (g ∷ fixtures) odds
insert-InTime n g fixtures [] new below h = tt
insert-InTime n g fixtures (o ∷ odds) new below (h, rest) = (
  insert-is_in_time_for n g fixtures o new below h,
  insert-InTime n g fixtures odds new below rest,
)

-- A row that may be left out and may be rewritten, before rows that all have `P`.
kept-All :
    {A : Type 0} (P : A → Type 0) (p : A → Bool) (g : A → A) (b : Bool) (x : A) (xs : List A)
    → (b ≡ false → P (if p x then g x else x))
    → All P (update_where p g xs)
    → All P (update_where p g (if not b then x ∷ xs else xs))
kept-All P p g true x xs one rest = rest
kept-All P p g false x xs one rest = (one refl, rest)

module _ (own by_ref : Bool) (f : Fixture) (dto : FixtureDto) (fixtures : List Fixture) where
  -- The fixtures after the correction of `f`.
  abbrev pub corrected : List Fixture
  corrected =
      update_where (λ g. g.id == f.id) (apply_changes (changes_for own by_ref f dto)) fixtures

  -- A fixture that does not move keeps every quote in time.
  stays-is_in_time_for :
      (o : Odds) (c : Option Fixture)
      → is_moved own by_ref f dto ≡ false
      → is_in_time_for c o ≡ true
      → is_in_time_for (applied (changes_for own by_ref f dto) c) o ≡ true
  stays-is_in_time_for o none stays h = h
  stays-is_in_time_for o (some g) stays h =
      let at =
        apply_changes-kickoff_at (changes_for own by_ref f dto) g
        ∙ changes_for-kickoff_after own by_ref f dto g.kickoff_at
        ∙ ap (λ b. if b then dto.kickoff_at else g.kickoff_at) stays in
      subst (λ k. is_in_time k o ≡ true) (sym at) h

  pub stays-InTime :
      (odds : List Odds)
      → is_moved own by_ref f dto ≡ false
      → InTime fixtures odds
      → InTime corrected odds
  stays-InTime [] stays h = tt
  stays-InTime (o ∷ odds) stays (h, rest) = (
    ground (
      arith,
      h,
      row-update_where o.fixture_id f.id (changes_for own by_ref f dto) fixtures,
      stays-is_in_time_for o (row o.fixture_id fixtures) stays h,
    ),
    stays-InTime odds stays rest,
  )

  -- A quote of a fixture that moves, before the new kickoff and no longer closing.
  moves-is_in_time_for :
      (o : Odds) (c : Option Fixture)
      → is_moved own by_ref f dto ≡ true
      → is_in_time_for c o ≡ true
      → leb dto.kickoff_at o.ts ≡ false
      → is_in_time_for (applied (changes_for own by_ref f dto) c) (record o { is_closing = false })
        ≡ true
  moves-is_in_time_for o none moves h early = absurd (cc)
  moves-is_in_time_for o (some g) moves h early =
      let at =
        apply_changes-kickoff_at (changes_for own by_ref f dto) g
        ∙ changes_for-kickoff_after own by_ref f dto g.kickoff_at
        ∙ ap (λ b. if b then dto.kickoff_at else g.kickoff_at) moves in
      subst (λ k. ltb o.ts k ≡ true) (sym at) (ground (arith, early))

  moves_one :
      (o : Odds) (same closing : Bool)
      → o.is_closing ≡ closing
      → (o.fixture_id == f.id) ≡ same
      → is_moved own by_ref f dto ≡ true
      → is_in_time_for (row o.fixture_id fixtures) o ≡ true
      → (same && leb dto.kickoff_at o.ts) ≡ false
      → (let o' = (if same && closing then record o { is_closing = false } else o) in
          is_in_time_for (row o'.fixture_id corrected) o' ≡ true)
  moves_one o true true c same moves h kept =
      let after = row-update_where o.fixture_id f.id (changes_for own by_ref f dto) fixtures in
      let moved = moves-is_in_time_for o (row o.fixture_id fixtures) moves h kept in
      subst (λ r. is_in_time_for r (record o { is_closing = false }) ≡ true)
        (sym (
          after
          ∙ ap
              (λ b.
                if b
                then applied (changes_for own by_ref f dto) (row o.fixture_id fixtures)
                else row o.fixture_id fixtures)
              same))
        moved
  moves_one o true false c same moves h kept =
      let after = row-update_where o.fixture_id f.id (changes_for own by_ref f dto) fixtures in
      let moved = moves-is_in_time_for o (row o.fixture_id fixtures) moves h kept in
      ground (arith, after, moved, c, same)
  moves_one o false closing c same moves h kept =
      let after = row-update_where o.fixture_id f.id (changes_for own by_ref f dto) fixtures in
      ground (arith, after, same, h)

  pub moves-InTime :
      (odds : List Odds)
      → is_moved own by_ref f dto ≡ true
      → InTime fixtures odds
      → InTime corrected (move_odds f.id dto.kickoff_at odds)
  unfolding move_odds
  moves-InTime [] moves h = tt
  moves-InTime (o ∷ odds) moves (h, rest) =
      kept-All (λ q. is_in_time_for (row q.fixture_id corrected) q ≡ true)
        (λ q. (q.fixture_id == f.id) && q.is_closing) (λ q. record q { is_closing = false })
        (is_late f.id dto.kickoff_at o) o (select (λ q. not (is_late f.id dto.kickoff_at q)) odds)
        (moves_one o (o.fixture_id == f.id) o.is_closing refl refl moves h)
        (moves-InTime odds moves rest)
