-- ===== src/Quality/Exact.antt =====
-- backend/app/services/data_quality.py: the errors of a report against their meaning.
use betpulse.Prelude.{
  ℕ, ◌≡◌, refl, ◌∙◌, sym, ap, Bool, true, false, Option, none, some, List, [], ◌∷◌, ◌++◌, ◌==◌,
  ◌&&◌, ◌||◌, not, ltb, leb, is_some, count_if, if◌then◌else◌, arith,
}
use betpulse.Ingest.Model.{Fixture, Odds, League, Tables}
use betpulse.Ml.OddsSelection.{Prices}
use betpulse.Quality.Model.{
  Issue, error, odds_price_out_of_range, closing_after_kickoff, is_error, issue_if, sort_issues,
  errors, exit_code,
}
use betpulse.Quality.Checks.{
  Scope, Scoped, scoped_fixtures, by_id, is_finished, has_score, is_impossible, is_over,
  half_exceeds, fixture_issues, fixtures_issues, duplicates_with, duplicates_in, duplicate_issues,
  league_code, is_pair_scoped, is_duplicate, duplicate_of,
}
use betpulse.Quality.Quotes.{
  Scan, issue_of, scan_for, scan_quotes, conflict_issues, is_price_unusable, is_late_closing,
}
use betpulse.Quality.Coverage.{put_groups, seasons_issues}
use betpulse.Quality.Report.{no_scan, no_closing, scan_of, closing_of, issues_of, build_report}
use betpulse.Quality.Counts.{count_if-append, count_if-sort_issues, is_empty-select}
use betpulse.Quality.Warnings.{conflict_issues-quiet, seasons_issues-quiet, close_snapshots-quiet}
use betpulse.Quality.Reference.{
  every, fits, half_fits, is_sound_fixture, are_apart, is_pair_seen, are_single, is_sound_quote,
  is_sound,
}

-- None of the issues is an error.
abbrev clean : List Issue → Bool
clean is = count_if is_error is == 0

clean-append : (xs ys : List Issue) → clean (xs ++ ys) ≡ (clean xs && clean ys)
clean-append xs ys = ground (arith, count_if-append is_error xs ys)

fits-is_over : (g : Option ℕ) → fits g ≡ not (is_over g)
fits-is_over none = refl
fits-is_over (some g) = ground arith

half_fits-half_exceeds : (a b c d : Option ℕ) → half_fits a b c d ≡ not (half_exceeds a b c d)
half_fits-half_exceeds none b c d = refl
half_fits-half_exceeds (some a) none c d = refl
half_fits-half_exceeds (some a) (some b) none d = refl
half_fits-half_exceeds (some a) (some b) (some c) none = refl
half_fits-half_exceeds (some a) (some b) (some c) (some d) = ground arith

-- No score is out of range, and half time fits.
any_not :
    (a b c d e a' b' c' d' e' first : Bool)
    → a' ≡ not a
    → b' ≡ not b
    → c' ≡ not c
    → d' ≡ not d
    → e' ≡ not e
    → (first && not (a || b || c || d || e)) ≡ (first && a' && b' && c' && d' && e')
any_not true b c d e a' b' c' d' e' first p q r s t = ground (arith, p)
any_not false true c d e a' b' c' d' e' first p q r s t = ground (arith, p, q)
any_not false false true d e a' b' c' d' e' first p q r s t = ground (arith, p, q, r)
any_not false false false d e a' b' c' d' e' first p q r s t = ground (arith, p, q, r, s, t)

three-clean :
    (done scored late early bad : Bool) (i j k : Issue)
    → is_error i ≡ true
    → is_error j ≡ true
    → is_error k ≡ true
    → early ≡ not late
    → clean (issue_if (done && not scored) i ++ issue_if (done && late) j ++ issue_if bad k)
      ≡ ((not done || (scored && early)) && not bad)
three-clean true scored late early bad i j k p q r e = ground (arith, p, q, r, e)
three-clean false scored late early bad i j k p q r e = ground (arith, p, q, r, e)

fixture_issues-clean :
    (now : ℕ) (x : Scoped) → clean (fixture_issues now x) ≡ is_sound_fixture now x.fixture
unfolding fixture_issues
fixture_issues-clean now x =
    let f = x.fixture in
    three-clean (is_finished f) (has_score f) (ltb now f.kickoff_at) (leb f.kickoff_at now)
      (is_impossible f) _ _ _ refl refl refl (ground arith)
    ∙ any_not (is_over f.ft_home) (is_over f.ft_away) (is_over f.ht_home) (is_over f.ht_away)
        (half_exceeds f.ht_home f.ft_home f.ht_away f.ft_away) (fits f.ft_home) (fits f.ft_away)
        (fits f.ht_home) (fits f.ht_away) (half_fits f.ht_home f.ft_home f.ht_away f.ft_away)
        (not (is_finished f) || (has_score f && leb f.kickoff_at now)) (fits-is_over f.ft_home)
        (fits-is_over f.ft_away) (fits-is_over f.ht_home) (fits-is_over f.ht_away)
        (half_fits-half_exceeds f.ht_home f.ft_home f.ht_away f.ft_away)

fixtures_issues-clean :
    (now : ℕ) (xs : List Scoped)
    → clean (fixtures_issues now xs) ≡ every (λ x. is_sound_fixture now x.fixture) xs
unfolding fixtures_issues
fixtures_issues-clean now [] = refl
fixtures_issues-clean now (x ∷ xs) = ground (
  arith,
  clean-append (fixture_issues now x) (fixtures_issues now xs),
  fixture_issues-clean now x,
  fixtures_issues-clean now xs,
)

module _ (s : Scope) (xs : List Scoped) (leagues : List League) where
  duplicates_with-clean :
      (code : ℕ) (f : Fixture) (gs : List Fixture)
      → clean (duplicates_with s xs code f gs)
        ≡ every (λ g. not (is_pair_scoped s xs f g) || are_apart f g) gs
  duplicates_with-clean code f [] = refl
  duplicates_with-clean code f (g ∷ gs) = ground (
    arith,
    clean-append (issue_if (is_duplicate f g && is_pair_scoped s xs f g) (duplicate_of xs code f g))
        (duplicates_with s xs code f gs),
    duplicates_with-clean code f gs,
  )

  every_always : {A : Type 0} (gs : List A) → every (λ _. true) gs ≡ true
  every_always [] = refl
  every_always (g ∷ gs) = every_always gs

  duplicates_in-clean :
      (code : Option ℕ) (f : Fixture) (gs : List Fixture)
      → clean (duplicates_in s xs code f gs)
        ≡ every (λ g. not (is_some code && is_pair_scoped s xs f g) || are_apart f g) gs
  duplicates_in-clean none f gs = sym (every_always gs)
  duplicates_in-clean (some code) f gs = duplicates_with-clean code f gs

  duplicate_issues-clean :
      (all fs : List Fixture)
      → clean (duplicate_issues s xs leagues all fs) ≡ are_single s xs leagues all fs
  unfolding duplicate_issues
  duplicate_issues-clean all [] = refl
  duplicate_issues-clean all (f ∷ fs) =
      clean-append (duplicates_in s xs (league_code leagues f.league_id) f all)
        (duplicate_issues s xs leagues all fs)
      ∙ ap (λ b. b && clean (duplicate_issues s xs leagues all fs))
          (duplicates_in-clean (league_code leagues f.league_id) f all)
      ∙ ap (λ b. every (λ g. not (is_pair_seen s xs leagues f g) || are_apart f g) all && b)
          (duplicate_issues-clean all fs)

scan_for-clean :
    (x : Option Scoped) (o : Odds) (z : Scan)
    → clean (scan_for x o z).issues ≡ (clean z.issues && is_sound_quote x o)
scan_for-clean none o z = ground (arith)
scan_for-clean (some x) o z =
    let price = issue_if (is_price_unusable o) (issue_of error odds_price_out_of_range x) in
    let late = issue_if (is_late_closing x.fixture o) (issue_of error closing_after_kickoff x) in
    ground (arith, clean-append z.issues (price ++ late), clean-append price late)

scan_quotes-clean :
    (xs : List Scoped) (os : List Odds) (z : Scan)
    → clean (scan_quotes xs os z).issues
      ≡ (clean z.issues && every (λ o. is_sound_quote (by_id xs o.fixture_id) o) os)
unfolding scan_quotes
scan_quotes-clean xs [] z = ground arith
scan_quotes-clean xs (o ∷ os) z = ground (
  arith,
  scan_quotes-clean xs os (scan_for (by_id xs o.fixture_id) o z),
  scan_for-clean (by_id xs o.fixture_id) o z,
)

issues_of-clean :
    (typical_overround : Prices → Bool) (now : ℕ) (s : Scope) (t : Tables) (xs : List Scoped)
    → clean (issues_of typical_overround now s t xs) ≡ is_sound now s t xs
unfolding issues_of scan_of closing_of
issues_of-clean typical_overround now s t xs =
    let first = fixtures_issues now xs in
    let second = duplicate_issues s xs t.names.leagues t.fixtures t.fixtures in
    let third = (scan_of t xs).issues in
    let fourth = (closing_of typical_overround t xs).issues in
    let fifth = conflict_issues xs t.conflicts in
    let sixth = seasons_issues now (closing_of typical_overround t xs) (put_groups xs []) in
    ground (
      arith,
      clean-append (first ++ second ++ third ++ fourth ++ fifth) sixth,
      clean-append (first ++ second ++ third ++ fourth) fifth,
      clean-append (first ++ second ++ third) fourth,
      clean-append (first ++ second) third,
      clean-append first second,
      fixtures_issues-clean now xs,
      duplicate_issues-clean s xs t.names.leagues t.fixtures t.fixtures,
      scan_quotes-clean xs t.odds no_scan,
      close_snapshots-quiet is_error (λ i h. h) typical_overround xs (scan_of t xs)
          (scan_of t xs).snapshots no_closing,
      conflict_issues-quiet is_error (λ i h. h) xs t.conflicts,
      seasons_issues-quiet is_error (λ i h. h) now (closing_of typical_overround t xs)
          (put_groups xs []),
    )

-- Without `strict` the exit code of a report is 0 exactly when the data is sound: in the scope each
-- finished fixture has its score and has kicked off, no score is negative or
-- above 15 and none at half time above that at full time, no two rows of a stored
-- league are one match within 36 hours, and each quote of a fixture has a usable price and, if it is
-- closing, is not after the kickoff. Warnings never change it.
pub exit_code-build_report :
    (typical_overround : Prices → Bool) (now : ℕ) (s : Scope) (t : Tables)
    → exit_code false (build_report typical_overround now s t)
      ≡ (if is_sound now s t (scoped_fixtures s t.names.leagues t.fixtures) then 0 else 1)
unfolding exit_code build_report errors
exit_code-build_report typical_overround now s t =
    let xs = scoped_fixtures s t.names.leagues t.fixtures in
    let is = issues_of typical_overround now s t xs in
    ground (
      arith,
      is_empty-select is_error (sort_issues is),
      count_if-sort_issues is_error is,
      issues_of-clean typical_overround now s t xs,
    )
