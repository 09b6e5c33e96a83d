-- ===== src/Ml/Chronology.antt =====
-- backend/app/ml/chronology.py. `sorted` is an insertion sort here: the keys `(kickoff_at, id)` are
-- distinct, so every sort gives the same list.
use betpulse.Prelude.{
  ℕ, suc, ◌∙◌, ◌++◌, ap, count_if, ◌≤◌, ◌≡◌, refl, Bool, List, [], ◌∷◌, ◌==◌, ◌&&◌, ◌||◌, leb, ltb,
  All, arith, if◌then◌else◌, if_cases,
}

-- What `_Timed` asks of a fixture.
pub record Timed : Type 0 where
  pub id : ℕ
  pub kickoff_at : ℕ

-- `(a.kickoff_at, a.id) <= (b.kickoff_at, b.id)`
abbrev pub is_before : Timed → Timed → Bool
is_before a b = ltb a.kickoff_at b.kickoff_at || ((a.kickoff_at == b.kickoff_at) && leb a.id b.id)

abbrev pub insert : Timed → List Timed → List Timed
insert a [] = a ∷ []
insert a (b ∷ bs) = let rest = insert a bs in if is_before a b then a ∷ b ∷ bs else b ∷ rest

unfoldable pub chronological : List Timed → List Timed
chronological [] = []
chronological (a ∷ fs) = insert a (chronological fs)

-- `groupby` by the kickoff, which heads its group.
abbrev pub add_first : Timed → List (ℕ × List Timed) → List (ℕ × List Timed)
add_first a [] = (a.kickoff_at, a ∷ []) ∷ []
add_first a ((kickoff, batch) ∷ batches) =
    if a.kickoff_at == kickoff
    then (kickoff, a ∷ batch) ∷ batches
    else (a.kickoff_at, a ∷ []) ∷ (kickoff, batch) ∷ batches

abbrev pub group_by_kickoff : List Timed → List (ℕ × List Timed)
group_by_kickoff [] = []
group_by_kickoff (a ∷ fs) = add_first a (group_by_kickoff fs)

unfoldable pub chronological_batches : List Timed → List (ℕ × List Timed)
chronological_batches fixtures = group_by_kickoff (chronological fixtures)

-- The kickoffs do not fall, from a first one on.
abbrev Rising : ℕ → List Timed → Type 0
Rising k [] = Unit
Rising k (a ∷ fs) = (k ≤ a.kickoff_at) × Rising a.kickoff_at fs

insert-Rising :
    (k : ℕ) (a : Timed) (fs : List Timed) → k ≤ a.kickoff_at → Rising k fs → Rising k (insert a fs)
insert-Rising k a [] h rising = (h, tt)
insert-Rising k a (b ∷ bs) h (first, rest) =
    if_cases (Rising k) (is_before a b) (λ before. (h, (ground (arith, before), rest)))
      (λ after. (first, insert-Rising b.kickoff_at a bs (ground (arith, after)) rest))

chronological-Rising : (fs : List Timed) → Rising 0 (chronological fs)
unfolding chronological
chronological-Rising [] = tt
chronological-Rising (a ∷ fs) =
    insert-Rising 0 a (chronological fs) (omega arith) (chronological-Rising fs)

-- Batches of one kickoff each, in strictly rising order, from a kickoff on.
abbrev pub Batched : ℕ → List (ℕ × List Timed) → Type 0
Batched k [] = Unit
Batched k ((kickoff, batch) ∷ batches) =
    (k ≤ kickoff) × All (λ a. a.kickoff_at ≡ kickoff) batch × Batched (suc kickoff) batches

add_first-Batched :
    (k : ℕ) (a : Timed) (batches : List (ℕ × List Timed))
    → k ≤ a.kickoff_at
    → Batched a.kickoff_at batches
    → Batched k (add_first a batches)
add_first-Batched k a [] h batched = (h, (refl, tt), tt)
add_first-Batched k a ((kickoff, batch) ∷ batches) h (first, same, rest) =
    if_cases (Batched k) (a.kickoff_at == kickoff)
      (λ equal. (omega (arith, h, first), (ground (arith, equal), same), rest))
      (λ later. (h, (refl, tt), (ground (arith, later, first), same, rest)))

group_by_kickoff-Batched : (k : ℕ) (fs : List Timed) → Rising k fs → Batched k (group_by_kickoff fs)
group_by_kickoff-Batched k [] rising = tt
group_by_kickoff-Batched k (a ∷ fs) (h, rest) =
    add_first-Batched k a (group_by_kickoff fs) h (group_by_kickoff-Batched a.kickoff_at fs rest)

-- The fixtures of the batches, in order.
abbrev pub flatten : List (ℕ × List Timed) → List Timed
flatten [] = []
flatten ((kickoff, batch) ∷ batches) = batch ++ flatten batches

flatten-add_first :
    (a : Timed) (batches : List (ℕ × List Timed))
    → flatten (add_first a batches) ≡ a ∷ flatten batches
flatten-add_first a [] = refl
flatten-add_first a ((kickoff, batch) ∷ batches) =
    if_cases (λ bs. flatten bs ≡ a ∷ (batch ++ flatten batches)) (a.kickoff_at == kickoff)
      (λ equal. refl) (λ later. refl)

flatten-group_by_kickoff : (fs : List Timed) → flatten (group_by_kickoff fs) ≡ fs
flatten-group_by_kickoff [] = refl
flatten-group_by_kickoff (a ∷ fs) =
    flatten-add_first a (group_by_kickoff fs) ∙ ap (λ gs. a ∷ gs) (flatten-group_by_kickoff fs)

module _ (p : Timed → Bool) where
  count_if-insert : (a : Timed) (fs : List Timed) → count_if p (insert a fs) ≡ count_if p (a ∷ fs)
  count_if-insert a [] = refl
  count_if-insert a (b ∷ bs) =
      if_cases (λ gs. count_if p gs ≡ count_if p (a ∷ b ∷ bs)) (is_before a b) (λ before. refl)
        (λ after. ground (arith, count_if-insert a bs))

  count_if-chronological : (fs : List Timed) → count_if p (chronological fs) ≡ count_if p fs
  unfolding chronological
  count_if-chronological [] = refl
  count_if-chronological (a ∷ fs) =
      count_if-insert a (chronological fs)
      ∙ ap (λ n. if p a then suc n else n) (count_if-chronological fs)

-- However the fixtures come, each batch holds fixtures of one kickoff, each batch kicks off strictly
-- later than the one before it, and the batches hold the given fixtures and no other, each as often as
-- it was given.
pub chronological_batches-Batched :
    (fs : List Timed)
    → Batched 0 (chronological_batches fs)
      × ((p : Timed → Bool) → count_if p (flatten (chronological_batches fs)) ≡ count_if p fs)
unfolding chronological_batches
chronological_batches-Batched fs = (
  group_by_kickoff-Batched 0 (chronological fs) (chronological-Rising fs),
  λ p. ap (count_if p) (flatten-group_by_kickoff (chronological fs)) ∙ count_if-chronological p fs,
)
