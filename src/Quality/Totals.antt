-- ===== src/Quality/Totals.antt =====
-- backend/app/services/data_quality.py: the rows of a report against the fixtures in scope.
use betpulse.Prelude.{
  ℕ, ◌+◌, ◌≡◌, refl, sym, ◌∙◌, Bool, true, List, [], ◌∷◌, ◌++◌, ◌==◌, ◌&&◌, contains, length,
  count_if, select, map, if◌then◌else◌, arith,
}
use betpulse.Ingest.Seasons.{Text}
use betpulse.Ingest.Model.{Fixture, Tables}
use betpulse.Ml.OddsSelection.{Prices}
use betpulse.Quality.Model.{Issue, CoverageRow}
use betpulse.Quality.Checks.{Scope, Scoped, scoped_fixtures, is_finished, has_score}
use betpulse.Quality.Quotes.{Closing}
use betpulse.Quality.Coverage.{
  Group, put_group, put_groups, coverage_row, bump, bump_bookmakers, bookmakers_of,
}
use betpulse.Quality.Report.{count_issues, build_report, closing_of, issues_of}
use betpulse.Quality.Counts.{count_if-append}

-- The sum of a column over the rows.
abbrev pub total : (CoverageRow → ℕ) → List CoverageRow → ℕ
total column [] = 0
total column (r ∷ rs) = column r + total column rs

abbrev tally : (Fixture → Bool) → List Group → ℕ
tally p [] = 0
tally p (g ∷ gs) = count_if p g.1 + tally p gs

put_group-tally :
    (p : Fixture → Bool) (key : ℕ × Text) (f : Fixture) (gs : List Group)
    → tally p (put_group key f gs) ≡ (if p f then 1 else 0) + tally p gs
put_group-tally p key f [] = ground arith
put_group-tally p key f (g ∷ gs) =
    ground (arith, count_if-append p g.1 (f ∷ []), put_group-tally p key f gs)

put_groups-tally :
    (p : Fixture → Bool) (xs : List Scoped) (gs : List Group)
    → tally p (put_groups xs gs) ≡ count_if (λ x. p x.fixture) xs + tally p gs
unfolding put_groups
put_groups-tally p [] gs = omega arith
put_groups-tally p (x ∷ xs) gs = ground (
  arith,
  put_groups-tally p xs (put_group (x.code, x.fixture.season) x.fixture gs),
  put_group-tally p (x.code, x.fixture.season) x.fixture gs,
)

length-select : {A : Type 0} (p : A → Bool) (xs : List A) → length (select p xs) ≡ count_if p xs
length-select p [] = refl
length-select p (x ∷ xs) = ground (arith, length-select p xs)

count_if-select :
    {A : Type 0} (p q : A → Bool) (xs : List A)
    → count_if q (select p xs) ≡ count_if (λ x. p x && q x) xs
count_if-select p q [] = refl
count_if-select p q (x ∷ xs) = ground (arith, count_if-select p q xs)

count_if_always : {A : Type 0} (xs : List A) → count_if (λ _. true) xs ≡ length xs
count_if_always [] = refl
count_if_always (x ∷ xs) = omega (arith, count_if_always xs)

-- A column that counts the fixtures of its group which pass a test.
total-tally :
    (column : CoverageRow → ℕ) (p : Fixture → Bool) (is : List Issue) (c : Closing)
    (gs : List Group)
    → ((g : Group) → column (count_issues is (coverage_row c g)) ≡ count_if p g.1)
    → total column (map (λ g. count_issues is (coverage_row c g)) gs) ≡ tally p gs
total-tally column p is c [] h = refl
total-tally column p is c (g ∷ gs) h = omega (arith, h g, total-tally column p is c gs h)

total-scoped :
    (column : CoverageRow → ℕ) (p : Fixture → Bool) (is : List Issue) (c : Closing)
    (xs : List Scoped)
    → ((g : Group) → column (count_issues is (coverage_row c g)) ≡ count_if p g.1)
    → total column (map (λ g. count_issues is (coverage_row c g)) (put_groups xs []))
      ≡ count_if (λ x. p x.fixture) xs
total-scoped column p is c xs h =
    omega (arith, total-tally column p is c (put_groups xs []) h, put_groups-tally p xs [])

abbrev pub sum_by {ℓ} : {A : Type ℓ} → (A → ℕ) → List A → ℕ
sum_by w [] = 0
sum_by w (x ∷ xs) = w x + sum_by w xs

sum_by-append :
    {A : Type 0} (w : A → ℕ) (xs ys : List A) → sum_by w (xs ++ ys) ≡ sum_by w xs + sum_by w ys
sum_by-append w [] ys = omega arith
sum_by-append w (x ∷ xs) ys = omega (arith, sum_by-append w xs ys)

sum_by-select :
    {A : Type 0} (p : A → Bool) (w : A → ℕ) (xs : List A)
    → sum_by w (select p xs) ≡ sum_by (λ x. if p x then w x else 0) xs
sum_by-select p w [] = refl
sum_by-select p w (x ∷ xs) = ground (arith, sum_by-select p w xs)

put_group-sum :
    (w : Fixture → ℕ) (key : ℕ × Text) (f : Fixture) (gs : List Group)
    → sum_by (λ g. sum_by w g.1) (put_group key f gs) ≡ w f + sum_by (λ g. sum_by w g.1) gs
put_group-sum w key f [] = omega arith
put_group-sum w key f (g ∷ gs) =
    ground (arith, sum_by-append w g.1 (f ∷ []), put_group-sum w key f gs)

put_groups-sum :
    (w : Fixture → ℕ) (xs : List Scoped) (gs : List Group)
    → sum_by (λ g. sum_by w g.1) (put_groups xs gs)
      ≡ sum_by (λ x. w x.fixture) xs + sum_by (λ g. sum_by w g.1) gs
unfolding put_groups
put_groups-sum w [] gs = omega arith
put_groups-sum w (x ∷ xs) gs = omega (
  arith,
  put_groups-sum w xs (put_group (x.code, x.fixture.season) x.fixture gs),
  put_group-sum w (x.code, x.fixture.season) x.fixture gs,
)

-- What a mapping from bookmakers to counts says of a bookmaker.
abbrev pub count_of : ℕ → List (ℕ × ℕ) → ℕ
count_of b [] = 0
count_of b (c ∷ cs) = (if c.0 == b then c.1 else 0) + count_of b cs

count_of-bump :
    (b k : ℕ) (cs : List (ℕ × ℕ))
    → count_of b (bump k cs) ≡ (if k == b then 1 else 0) + count_of b cs
count_of-bump b k [] = ground arith
count_of-bump b k (c ∷ cs) = ground (arith, count_of-bump b k cs)

-- How often a fixture stands with a bookmaker among the closing prices.
abbrev pub closings : ℕ → Closing → Fixture → ℕ
closings b c f = count_if (λ p. (p.0 == f.id) && (p.1 == b)) c.closing_1x2

count_of-bump_bookmakers :
    (b id : ℕ) (ps counts : List (ℕ × ℕ))
    → count_of b (bump_bookmakers id ps counts)
      ≡ count_if (λ p. (p.0 == id) && (p.1 == b)) ps + count_of b counts
count_of-bump_bookmakers b id [] counts = omega arith
count_of-bump_bookmakers b id (p ∷ ps) counts = ground (
  arith,
  count_of-bump b p.1 counts,
  count_of-bump_bookmakers b id ps (if p.0 == id then bump p.1 counts else counts),
)

count_of-bookmakers_of :
    (b : ℕ) (c : Closing) (fs : List Fixture) (counts : List (ℕ × ℕ))
    → count_of b (bookmakers_of c fs counts) ≡ sum_by (closings b c) fs + count_of b counts
unfolding bookmakers_of
count_of-bookmakers_of b c [] counts = omega arith
count_of-bookmakers_of b c (f ∷ fs) counts = omega (
  arith,
  count_of-bookmakers_of b c fs (bump_bookmakers f.id c.closing_1x2 counts),
  count_of-bump_bookmakers b f.id c.closing_1x2 counts,
)

total-bookmaker :
    (b : ℕ) (is : List Issue) (c : Closing) (gs : List Group)
    → total
        (λ r. count_of b r.closing_1x2_by_bookmaker)
        (map (λ g. count_issues is (coverage_row c g)) gs)
      ≡ sum_by (λ g. sum_by (λ f. if is_finished f then closings b c f else 0) g.1) gs
unfolding coverage_row
total-bookmaker b is c [] = refl
total-bookmaker b is c (g ∷ gs) = omega (
  arith,
  count_of-bookmakers_of b c (select is_finished g.1) [],
  sum_by-select is_finished (closings b c) g.1,
  total-bookmaker b is c gs,
)

-- The rows of a report account for each fixture in scope once: their counts of fixtures, of finished
-- ones, of finished ones with a score, of known kickoff times, of finished ones with a closing price
-- over/under, and of closing 1x2 prices of finished ones by each bookmaker add up to those of the
-- scope.
pub build_report-total :
    (typical_overround : Prices → Bool) (now : ℕ) (s : Scope) (t : Tables) (bookmaker : ℕ)
    → let rows = (build_report typical_overround now s t).rows in
      let xs = scoped_fixtures s t.names.leagues t.fixtures in
      let c = closing_of typical_overround t xs in
      (total (λ r. r.fixtures) rows ≡ length xs)
      × (total (λ r. r.finished) rows ≡ count_if (λ x. is_finished x.fixture) xs)
      × (total (λ r. r.with_score) rows
          ≡ count_if (λ x. is_finished x.fixture && has_score x.fixture) xs)
      × (total (λ r. r.time_known) rows ≡ count_if (λ x. x.fixture.kickoff_time_known) xs)
      × (total (λ r. r.closing_ou) rows
          ≡ count_if (λ x. is_finished x.fixture && contains c.closing_ou x.fixture.id) xs)
      × (total (λ r. count_of bookmaker r.closing_1x2_by_bookmaker) rows
          ≡ sum_by (λ x. if is_finished x.fixture then closings bookmaker c x.fixture else 0) xs)
unfolding build_report coverage_row
build_report-total typical_overround now s t bookmaker =
    let xs = scoped_fixtures s t.names.leagues t.fixtures in
    let is = issues_of typical_overround now s t xs in
    let c = closing_of typical_overround t xs in
    (
      total-scoped (λ r. r.fixtures) (λ _. true) is c xs (λ g. sym (count_if_always g.1))
          ∙ count_if_always xs,
      total-scoped (λ r. r.finished) is_finished is c xs (λ g. length-select is_finished g.1),
      total-scoped (λ r. r.with_score) (λ f. is_finished f && has_score f) is c xs
          (λ g. count_if-select is_finished has_score g.1),
      total-scoped (λ r. r.time_known) (λ f. f.kickoff_time_known) is c xs (λ g. refl),
      total-scoped (λ r. r.closing_ou) (λ f. is_finished f && contains c.closing_ou f.id) is c xs
          (λ g. count_if-select is_finished (λ f. contains c.closing_ou f.id) g.1),
      omega (
        arith,
        total-bookmaker bookmaker is c (put_groups xs []),
        put_groups-sum (λ f. if is_finished f then closings bookmaker c f else 0) xs [],
      ),
    )
