-- ===== src/Quality/Warnings.antt =====
-- The parts of the report that only warn, for a test of issues that no warning passes.
use betpulse.Prelude.{
  ℕ, ◌≡◌, refl, Bool, true, false, Option, none, some, List, [], ◌∷◌, ◌++◌, ◌&&◌, not, count_if,
  arith,
}
use betpulse.Ingest.Model.{Conflict}
use betpulse.Ml.OddsSelection.{Prices}
use betpulse.Quality.Model.{
  Issue, is_error, issue_if, overround_out_of_range, incomplete_odds_snapshot,
  score_conflict_across_sources, warning,
}
use betpulse.Quality.Counts.{count_if-append}
use betpulse.Quality.Checks.{Scoped, by_id}
use betpulse.Quality.Quotes.{
  SnapshotKey, Scan, Closing, issue_of, close_snapshots, close_for, count_snapshot, conflict_for,
  conflict_issues, all_positive,
}
use betpulse.Quality.Coverage.{Group, season_issues, seasons_issues}

module _ (p : Issue → Bool) (quiet : (i : Issue) → is_error i ≡ false → p i ≡ false) where
  issue_if-quiet : (b : Bool) (i : Issue) → is_error i ≡ false → count_if p (issue_if b i) ≡ 0
  issue_if-quiet true i h = ground (arith, quiet i h)
  issue_if-quiet false i h = refl

  -- A warning adds nothing to the count.
  add-quiet :
      (is : List Issue) (b : Bool) (i : Issue)
      → is_error i ≡ false
      → count_if p (is ++ issue_if b i) ≡ count_if p is
  add-quiet is b i h = omega (arith, count_if-append p is (issue_if b i), issue_if-quiet b i h)

  -- The test passes none of the issues.
  record Quiet (is : List Issue) : Type 0 where
    none_passes : count_if p is ≡ 0

  append-Quiet : {is js : List Issue} → Quiet is → Quiet js → Quiet (is ++ js)
  append-Quiet {is} {js} h k = record {
    none_passes = omega (arith, count_if-append p is js, h.none_passes, k.none_passes);
  }

  issue_if-Quiet : (b : Bool) (i : Issue) → is_error i ≡ false → Quiet (issue_if b i)
  issue_if-Quiet b i h = record { none_passes = issue_if-quiet b i h }

  conflict_for-Quiet : (x : Option Scoped) → Quiet (conflict_for x)
  conflict_for-Quiet none = record { none_passes = refl }
  conflict_for-Quiet (some x) = record {
    none_passes = issue_if-quiet true (issue_of warning score_conflict_across_sources x) refl;
  }

  conflict_issues-Quiet : (xs : List Scoped) (cs : List Conflict) → Quiet (conflict_issues xs cs)
  unfolding conflict_issues
  conflict_issues-Quiet xs [] = record { none_passes = refl }
  conflict_issues-Quiet xs (c ∷ cs) =
      append-Quiet (conflict_for-Quiet (by_id xs c.fixture_id)) (conflict_issues-Quiet xs cs)

  pub conflict_issues-quiet :
      (xs : List Scoped) (cs : List Conflict) → count_if p (conflict_issues xs cs) ≡ 0
  conflict_issues-quiet xs cs = (conflict_issues-Quiet xs cs).none_passes

  season_issues-Quiet : (now : ℕ) (c : Closing) (g : Group) → Quiet (season_issues now c g)
  unfolding season_issues
  season_issues-Quiet now c (key, group) =
      append-Quiet
        (append-Quiet
          (append-Quiet (append-Quiet (issue_if-Quiet _ _ refl) (issue_if-Quiet _ _ refl))
            (issue_if-Quiet _ _ refl))
          (issue_if-Quiet _ _ refl))
        (issue_if-Quiet _ _ refl)

  seasons_issues-Quiet : (now : ℕ) (c : Closing) (gs : List Group) → Quiet (seasons_issues now c gs)
  unfolding seasons_issues
  seasons_issues-Quiet now c [] = record { none_passes = refl }
  seasons_issues-Quiet now c (g ∷ gs) =
      append-Quiet (season_issues-Quiet now c g) (seasons_issues-Quiet now c gs)

  pub seasons_issues-quiet :
      (now : ℕ) (c : Closing) (gs : List Group) → count_if p (seasons_issues now c gs) ≡ 0
  seasons_issues-quiet now c gs = (seasons_issues-Quiet now c gs).none_passes

  module _ (typical_overround : Prices → Bool) where
    count_snapshot-quiet :
        (x : Scoped) (key : SnapshotKey) (prices : Prices) (c : Closing)
        → count_if p (count_snapshot typical_overround x key prices c).issues ≡ count_if p c.issues
    count_snapshot-quiet x key prices c = ground (
      arith,
      add-quiet c.issues (all_positive prices && not (typical_overround prices))
          (issue_of warning overround_out_of_range x) refl,
    )

    close_for-quiet :
        (z : Scan) (x : Option Scoped) (key : SnapshotKey) (prices : Prices) (c : Closing)
        → count_if p (close_for typical_overround z x key prices c).issues ≡ count_if p c.issues
    close_for-quiet z none key prices c = refl
    close_for-quiet z (some x) key prices c = ground (
      arith,
      add-quiet c.issues true (issue_of warning incomplete_odds_snapshot x) refl,
      count_snapshot-quiet x key prices c,
    )

    pub close_snapshots-quiet :
        (xs : List Scoped) (z : Scan) (ss : List (SnapshotKey × Prices)) (c : Closing)
        → count_if p (close_snapshots typical_overround xs z ss c).issues ≡ count_if p c.issues
    unfolding close_snapshots
    close_snapshots-quiet xs z [] c = refl
    close_snapshots-quiet xs z (s ∷ ss) c = ground (
      arith,
      close_snapshots-quiet xs z ss
          (close_for typical_overround z (by_id xs s.0.fixture_id) s.0 s.1 c),
      close_for-quiet z (by_id xs s.0.fixture_id) s.0 s.1 c,
    )
