-- ===== src/Ingest/Rows.antt =====
-- The rows of fixtures: searches by identifier after an insertion and after a correction.
use betpulse.Prelude.{
  is_some, Option-cases, inl, inr, ℕ, ◌<◌, ◌≡◌, ◌∙◌, ◌||◌, refl, sym, subst, Bool, true, false,
  Option, none, some, List, [], ◌∷◌, ◌++◌, ◌==◌, ◌&&◌, not, find, update_where, select, All, arith,
  if◌then◌else◌,
}
use betpulse.Ingest.Model.{
  ExternalRef, Fixture, FixtureDto, FixtureStatus, finished, same_status, Change, score, status,
  kickoff_at, kickoff_time_known, ScoreField, ft_home, ft_away, ht_home, ht_away,
}
use betpulse.Ingest.Fixtures.{closest_of, is_closer}
use betpulse.Ingest.Reconcile.{
  compare_score, score_changes, status_changes, score_fields, stored_score, reported_score,
  kickoff_changes, is_moved, changes_for, changes_of, Verdict, keep, change, disagree, set_field,
  apply_changes,
}

abbrev pub row : ℕ → List Fixture → Option Fixture
row id fixtures = find (λ f. f.id == id) fixtures

-- The identifiers are below `n` and fall from row to row: a new row stands first.
abbrev pub Below : ℕ → List Fixture → Type 0
Below n [] = Unit
Below n (f ∷ fs) = (f.id < n) × Below f.id fs

pub row-id : (id : ℕ) (fs : List Fixture) (f : Fixture) → row id fs ≡ some f → f.id ≡ id
row-id id [] f h = absurd (cc)
row-id id (g ∷ gs) f h = ground (arith, h, row-id id gs f)

pub row-Below :
    (n id : ℕ) (fs : List Fixture) (f : Fixture) → Below n fs → row id fs ≡ some f → id < n
row-Below n id [] f below h = absurd (cc)
row-Below n id (g ∷ gs) f (lower, below) h = ground (arith, h, lower, row-Below g.id id gs f below)

-- What is true of each row is also true of a selection of them.
pub All-map :
    {A : Type 0} {P Q : A → Type 0} (xs : List A) → ((x : A) → P x → Q x) → All P xs → All Q xs
All-map [] f h = tt
All-map (x ∷ xs) f (h, rest) = (f x h, All-map xs f rest)

pub if_either :
    {A : Type 0} (P : A → Type 0) {x y : A} (b : Bool) → P x → P y → P (if b then x else y)
if_either P true h k = h
if_either P false h k = k

pub select-All :
    {A : Type 0} (P : A → Type 0) (p : A → Bool) (xs : List A) → All P xs → All P (select p xs)
select-All P p [] h = tt
select-All P p (x ∷ xs) (h, rest) =
    let others = select-All P p xs rest in if_either (All P) (p x) (h, others) others

-- A row is found under its own identifier.
pub Below-row :
    (n : ℕ) (fs : List Fixture) → Below n fs → All (λ f. (f.id < n) × (row f.id fs ≡ some f)) fs
Below-row n [] below = tt
Below-row n (g ∷ gs) (lower, below) = (
  (lower, ground arith),
  All-map gs (λ f h. (omega (arith, lower, h.0), ground (arith, h.0, h.1)))
      (Below-row g.id gs below),
)

pub closest_of-All :
    (P : Fixture → Type 0) (kickoff : ℕ) (f : Fixture) (fs : List Fixture)
    → P f
    → All P fs
    → P (closest_of kickoff f fs)
closest_of-All P kickoff f [] h rest = h
closest_of-All P kickoff f (g ∷ gs) h (k, rest) =
    closest_of-All P kickoff (if is_closer kickoff g f then g else f) gs
      (if_either P (is_closer kickoff g f) k h) rest

pub set_field-id : (c : Change) (f : Fixture) → (set_field c f).id ≡ f.id
unfolding set_field
set_field-id (score ft_home n) f = refl
set_field-id (score ft_away n) f = refl
set_field-id (score ht_home n) f = refl
set_field-id (score ht_away n) f = refl
set_field-id (status s) f = refl
set_field-id (kickoff_at k) f = refl
set_field-id (kickoff_time_known b) f = refl

pub apply_changes-id : (cs : List Change) (f : Fixture) → (apply_changes cs f).id ≡ f.id
unfolding apply_changes
apply_changes-id [] f = refl
apply_changes-id (c ∷ cs) f = cc (apply_changes-id cs (set_field c f), set_field-id c f)

abbrev pub applied : List Change → Option Fixture → Option Fixture
applied cs none = none
applied cs (some f) = some (apply_changes cs f)

-- A search after the rows of `at` are corrected.
pub row-update_where :
    (id at : ℕ) (cs : List Change) (fs : List Fixture)
    → row id (update_where (λ g. g.id == at) (apply_changes cs) fs)
      ≡ (if id == at then applied cs (row id fs) else row id fs)
row-update_where id at cs [] = ground arith
row-update_where id at cs (f ∷ fs) =
    ground (arith, row-update_where id at cs fs, apply_changes-id cs f)

pub update_where-is_some :
    (id at : ℕ) (cs : List Change) (fs : List Fixture)
    → is_some (row id fs) ≡ true
    → is_some (row id (update_where (λ g. g.id == at) (apply_changes cs) fs)) ≡ true
update_where-is_some id at cs fs h = elim (Option-cases (row id fs)) [
  | inl missing ↦ absurd (cc)
  | inr (f, found) ↦ ground (arith, found, row-update_where id at cs fs)
]

-- Each external reference points to a stored fixture.
abbrev pub Referenced : List Fixture → List ExternalRef → Type 0
Referenced fs refs = All (λ x. is_some (row x.fixture_id fs) ≡ true) refs

pub insert-Referenced :
    (g : Fixture) (fs : List Fixture) (refs : List ExternalRef)
    → Referenced fs refs
    → Referenced (g ∷ fs) refs
insert-Referenced g fs refs =
    All-map refs
      (λ x h. if_either (λ (o : Option Fixture). is_some o ≡ true) (g.id == x.fixture_id) refl h)

pub update_where-Referenced :
    (at : ℕ) (cs : List Change) (fs : List Fixture) (refs : List ExternalRef)
    → Referenced fs refs
    → Referenced (update_where (λ g. g.id == at) (apply_changes cs) fs) refs
update_where-Referenced at cs fs refs =
    All-map refs (λ x h. update_where-is_some x.fixture_id at cs fs h)

pub update_where-Below :
    (n at : ℕ) (cs : List Change) (fs : List Fixture)
    → Below n fs
    → Below n (update_where (λ g. g.id == at) (apply_changes cs) fs)
update_where-Below n at cs [] below = tt
update_where-Below n at cs (f ∷ fs) (h, below) =
    let same : (if f.id == at then apply_changes cs f else f).id ≡ f.id =
      if_either (λ (g : Fixture). g.id ≡ f.id) (f.id == at) (apply_changes-id cs f) refl in
    (
      subst (λ id. id < n) (sym same) h,
      subst (λ id. Below id (update_where (λ g. g.id == at) (apply_changes cs) fs)) (sym same)
          (update_where-Below f.id at cs fs below),
    )

-- What a list of changes does to the kickoff: the last one that moves it.
abbrev pub kickoff_after : ℕ → List Change → ℕ
kickoff_after k [] = k
kickoff_after k (kickoff_at j ∷ cs) = kickoff_after j cs
kickoff_after k (score field n ∷ cs) = kickoff_after k cs
kickoff_after k (status s ∷ cs) = kickoff_after k cs
kickoff_after k (kickoff_time_known b ∷ cs) = kickoff_after k cs

pub apply_changes-kickoff_at :
    (cs : List Change) (f : Fixture)
    → (apply_changes cs f).kickoff_at ≡ kickoff_after f.kickoff_at cs
unfolding apply_changes set_field
apply_changes-kickoff_at [] f = refl
apply_changes-kickoff_at (score ft_home n ∷ cs) f =
    apply_changes-kickoff_at cs (record f { ft_home = some n })
apply_changes-kickoff_at (score ft_away n ∷ cs) f =
    apply_changes-kickoff_at cs (record f { ft_away = some n })
apply_changes-kickoff_at (score ht_home n ∷ cs) f =
    apply_changes-kickoff_at cs (record f { ht_home = some n })
apply_changes-kickoff_at (score ht_away n ∷ cs) f =
    apply_changes-kickoff_at cs (record f { ht_away = some n })
apply_changes-kickoff_at (status s ∷ cs) f = apply_changes-kickoff_at cs (record f { status = s })
apply_changes-kickoff_at (kickoff_at k ∷ cs) f =
    apply_changes-kickoff_at cs (record f { kickoff_at = k })
apply_changes-kickoff_at (kickoff_time_known b ∷ cs) f =
    apply_changes-kickoff_at cs (record f { kickoff_time_known = b })

verdict-kickoff_after :
    (x : ScoreField) (v : Verdict) (k : ℕ) (bs cs : List Change)
    → kickoff_after k ((changes_of x v ++ bs) ++ cs) ≡ kickoff_after k (bs ++ cs)
verdict-kickoff_after x keep k bs cs = refl
verdict-kickoff_after x (change n) k bs cs = refl
verdict-kickoff_after x (disagree a b) k bs cs = refl

score_changes-kickoff_after :
    (own : Bool) (f : Fixture) (dto : FixtureDto) (xs : List ScoreField) (k : ℕ) (cs : List Change)
    → kickoff_after k (score_changes own f dto xs ++ cs) ≡ kickoff_after k cs
score_changes-kickoff_after own f dto [] k cs = refl
score_changes-kickoff_after own f dto (x ∷ xs) k cs =
    verdict-kickoff_after x (compare_score own (reported_score x dto) (stored_score x f)) k
      (score_changes own f dto xs) cs
    ∙ score_changes-kickoff_after own f dto xs k cs

if_status-kickoff_after :
    (b : Bool) (s : FixtureStatus) (k : ℕ) (cs : List Change)
    → kickoff_after k ((if b then status s ∷ [] else []) ++ cs) ≡ kickoff_after k cs
if_status-kickoff_after true s k cs = refl
if_status-kickoff_after false s k cs = refl

if_moved-kickoff_after :
    (moved : Bool) (f : Fixture) (dto : FixtureDto) (k : ℕ)
    → kickoff_after k (if moved then kickoff_changes f dto else [])
      ≡ (if moved then dto.kickoff_at else k)
if_moved-kickoff_after true f dto k = ground arith
if_moved-kickoff_after false f dto k = refl

pub changes_for-kickoff_after :
    (own by_ref : Bool) (f : Fixture) (dto : FixtureDto) (k : ℕ)
    → kickoff_after k (changes_for own by_ref f dto)
      ≡ (if is_moved own by_ref f dto then dto.kickoff_at else k)
unfolding changes_for
changes_for-kickoff_after own by_ref f dto k =
    let moves = if is_moved own by_ref f dto then kickoff_changes f dto else [] in
    score_changes-kickoff_after own f dto score_fields k (status_changes own f dto ++ moves)
    ∙ if_status-kickoff_after
        (not (same_status dto.status f.status) && (own || not (same_status f.status finished)))
        dto.status k moves
    ∙ if_moved-kickoff_after (is_moved own by_ref f dto) f dto k
