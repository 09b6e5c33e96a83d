-- ===== src/Ingest/Sources.antt =====
-- A correction by another source, and a correction made again.
use betpulse.Prelude.{
  ℕ, ◌≡◌, refl, ◌∙◌, sym, ap, subst, Bool, true, false, Option, none, some, List, [], ◌∷◌, ◌++◌,
  ◌==◌, ◌&&◌, not, is_some, All, arith, if◌then◌else◌,
}
use betpulse.Ingest.Action.{Result}
use betpulse.Ingest.Model.{
  Fixture, FixtureDto, FixtureStatus, finished, same_status, Change, score, status, kickoff_at,
  kickoff_time_known, ScoreField, ft_home, ft_away, ht_home, ht_away, Run,
}
use betpulse.Ingest.Reconcile.{
  stored_score, reported_score, compare_score, changes_of, score_fields, score_changes,
  status_changes, is_moved, changes_for, set_field, apply_changes, collides,
}
use betpulse.Ingest.Steps.{reconcile, flush_changes, before_changes, removed_odds}
use betpulse.Ingest.Rows.{row, if_either, row-update_where}

-- What another source leaves as it was: the kickoff, the scores that are known, and a final status.
abbrev pub Respects : Fixture → Fixture → Type 0
Respects f g =
    (g.kickoff_at ≡ f.kickoff_at)
    × ((field : ScoreField)
        → is_some (stored_score field f) ≡ true
        → stored_score field g ≡ stored_score field f)
    × (f.status ≡ finished → g.status ≡ finished)

-- A change that respects `f`.
abbrev Harmless : Fixture → Change → Type 0
Harmless f (score field n) = is_some (stored_score field f) ≡ false
Harmless f (status s) = same_status f.status finished ≡ false
Harmless f (kickoff_at k) = ⊥
Harmless f (kickoff_time_known b) = ⊥

set_score_other :
    (field other : ScoreField) (n : ℕ) (f g : Fixture)
    → is_some (stored_score field f) ≡ false
    → is_some (stored_score other f) ≡ true
    → stored_score other (set_field (score field n) g) ≡ stored_score other g
unfolding set_field
set_score_other ft_home ft_home n f g h k = absurd (cc)
set_score_other ft_home ft_away n f g h k = refl
set_score_other ft_home ht_home n f g h k = refl
set_score_other ft_home ht_away n f g h k = refl
set_score_other ft_away ft_home n f g h k = refl
set_score_other ft_away ft_away n f g h k = absurd (cc)
set_score_other ft_away ht_home n f g h k = refl
set_score_other ft_away ht_away n f g h k = refl
set_score_other ht_home ft_home n f g h k = refl
set_score_other ht_home ft_away n f g h k = refl
set_score_other ht_home ht_home n f g h k = absurd (cc)
set_score_other ht_home ht_away n f g h k = refl
set_score_other ht_away ft_home n f g h k = refl
set_score_other ht_away ft_away n f g h k = refl
set_score_other ht_away ht_home n f g h k = refl
set_score_other ht_away ht_away n f g h k = absurd (cc)

status_score :
    (field : ScoreField) (s : FixtureStatus) (g : Fixture)
    → stored_score field (record g { status = s }) ≡ stored_score field g
status_score ft_home s g = refl
status_score ft_away s g = refl
status_score ht_home s g = refl
status_score ht_away s g = refl

set_field-Respects :
    (f g : Fixture) (c : Change) → Harmless f c → Respects f g → Respects f (set_field c g)
unfolding set_field
set_field-Respects f g (score ft_home n) h (k, s, t) =
    (k, λ other known. set_score_other ft_home other n f g h known ∙ s other known, t)
set_field-Respects f g (score ft_away n) h (k, s, t) =
    (k, λ other known. set_score_other ft_away other n f g h known ∙ s other known, t)
set_field-Respects f g (score ht_home n) h (k, s, t) =
    (k, λ other known. set_score_other ht_home other n f g h known ∙ s other known, t)
set_field-Respects f g (score ht_away n) h (k, s, t) =
    (k, λ other known. set_score_other ht_away other n f g h known ∙ s other known, t)
set_field-Respects f g (status s') h (k, s, t) =
    (k, λ other known. status_score other s' g ∙ s other known, λ over. ground (arith, h, over))
set_field-Respects f g (kickoff_at j) h r = absurd h
set_field-Respects f g (kickoff_time_known b) h r = absurd h

apply_changes-Respects :
    (f g : Fixture) (cs : List Change)
    → All (Harmless f) cs
    → Respects f g
    → Respects f (apply_changes cs g)
unfolding apply_changes
apply_changes-Respects f g [] h r = r
apply_changes-Respects f g (c ∷ cs) (h, rest) r =
    apply_changes-Respects f (set_field c g) cs rest (set_field-Respects f g c h r)

append-All : {A : Type 0} (P : A → Type 0) (xs ys : List A) → All P xs → All P ys → All P (xs ++ ys)
append-All P [] ys h k = k
append-All P (x ∷ xs) ys (h, rest) k = (h, append-All P xs ys rest k)

compare_score-Harmless :
    (f : Fixture) (field : ScoreField) (incoming current : Option ℕ)
    → stored_score field f ≡ current
    → All (Harmless f) (changes_of field (compare_score false incoming current))
unfolding compare_score
compare_score-Harmless f field none current h = tt
compare_score-Harmless f field (some n) none h = (ap is_some h, tt)
compare_score-Harmless f field (some n) (some m) h =
    if_either (λ v. All (Harmless f) (changes_of field v)) (n == m) tt tt

score_changes-Harmless :
    (f : Fixture) (dto : FixtureDto) (fields : List ScoreField)
    → All (Harmless f) (score_changes false f dto fields)
score_changes-Harmless f dto [] = tt
score_changes-Harmless f dto (x ∷ xs) =
    append-All (Harmless f)
      (changes_of x (compare_score false (reported_score x dto) (stored_score x f)))
      (score_changes false f dto xs)
      (compare_score-Harmless f x (reported_score x dto) (stored_score x f) refl)
      (score_changes-Harmless f dto xs)

status_changes-Harmless :
    (f : Fixture) (new : FixtureStatus) (differs final : Bool)
    → same_status f.status finished ≡ final
    → All (Harmless f) (if differs && not final then status new ∷ [] else [])
status_changes-Harmless f new true true h = tt
status_changes-Harmless f new true false h = (h, tt)
status_changes-Harmless f new false final h = tt

changes_for-Harmless :
    (by_ref : Bool) (f : Fixture) (dto : FixtureDto)
    → All (Harmless f) (changes_for false by_ref f dto)
unfolding changes_for
changes_for-Harmless by_ref f dto =
    append-All (Harmless f) (score_changes false f dto score_fields)
      (status_changes false f dto ++ []) (score_changes-Harmless f dto score_fields)
      (append-All (Harmless f) (status_changes false f dto) []
        (status_changes-Harmless f dto.status (not (same_status dto.status f.status))
          (same_status f.status finished) refl)
        tt)

-- The session after the correction of `f` by another source.
abbrev pub Deferred : Fixture → Run → Run → Type 0
Deferred f x y =
    (y.tables.odds ≡ x.tables.odds)
    × ((g : Fixture) × (row f.id y.tables.fixtures ≡ some g) × Respects f g)

Respects-refl : (f : Fixture) → Respects f f
Respects-refl f = (refl, λ field known. refl, λ over. over)

flush_changes-Deferred :
    (provider : ℕ) (f : Fixture) (x : Run) (changes : List Change) (removed : ℕ)
    → All (Harmless f) changes
    → row f.id x.tables.fixtures ≡ some f
    → Deferred f x (flush_changes provider f changes removed x).1
flush_changes-Deferred provider f x [] removed h found = (refl, (f, found, Respects-refl f))
flush_changes-Deferred provider f x (c ∷ cs) removed h found =
    if_either (λ (p : Result (Unit {0}) × Run). Deferred f x p.1)
      (collides (apply_changes (c ∷ cs) f) x.tables.fixtures) (refl, (f, found, Respects-refl f))
      (
        refl,
        (
          apply_changes (c ∷ cs) f,
          ground (arith, found, row-update_where f.id f.id (c ∷ cs) x.tables.fixtures),
          apply_changes-Respects f f (c ∷ cs) h (Respects-refl f),
        ),
      )

-- A source other than the fixture's own deletes no quote, never moves the kickoff, never changes a
-- score that is known, and never takes back a final status; the row stays stored.
pub reconcile-Deferred :
    (provider : ℕ) (by_ref : Bool) (f : Fixture) (dto : FixtureDto) (x : Run)
    → (f.source == provider) ≡ false
    → row f.id x.tables.fixtures ≡ some f
    → Deferred f x (reconcile provider by_ref f dto x).1
unfolding reconcile
reconcile-Deferred provider by_ref f dto x other found =
    subst
      (λ own.
        Deferred f x
          (flush_changes provider f (changes_for own by_ref f dto)
            (removed_odds (is_moved own by_ref f dto) f dto x.tables.odds)
            (before_changes provider own (is_moved own by_ref f dto) f dto x)).1)
      (sym other)
      (flush_changes-Deferred provider f (before_changes provider false false f dto x)
        (changes_for false by_ref f dto) 0 (changes_for-Harmless by_ref f dto) found)
