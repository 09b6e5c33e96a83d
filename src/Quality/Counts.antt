-- ===== src/Quality/Counts.antt =====
-- Counts over lists of issues: over their concatenation, and over the sort.
use betpulse.Prelude.{
  ◌+◌, ◌≡◌, refl, Bool, List, [], ◌∷◌, ◌++◌, is_empty, select, count_if, arith, ◌==◌,
}
use betpulse.Quality.Model.{Issue, insert_issue, sort_issues}

pub count_if-append {ℓ} :
    {A : Type ℓ} (p : A → Bool) (xs ys : List A)
    → count_if p (xs ++ ys) ≡ count_if p xs + count_if p ys
count_if-append p [] ys = omega arith
count_if-append p (x ∷ xs) ys = ground (arith, count_if-append p xs ys)

count_if-insert_issue :
    (p : Issue → Bool) (i : Issue) (is : List Issue)
    → count_if p (insert_issue i is) ≡ count_if p (i ∷ is)
count_if-insert_issue p i [] = refl
count_if-insert_issue p i (j ∷ js) = ground (arith, count_if-insert_issue p i js)

-- The sort keeps every issue.
pub count_if-sort_issues :
    (p : Issue → Bool) (is : List Issue) → count_if p (sort_issues is) ≡ count_if p is
unfolding sort_issues
count_if-sort_issues p [] = refl
count_if-sort_issues p (i ∷ is) =
    ground (arith, count_if-insert_issue p i (sort_issues is), count_if-sort_issues p is)

-- `not any(p(x) for x in xs)`
pub is_empty-select {ℓ} :
    {A : Type ℓ} (p : A → Bool) (xs : List A) → is_empty (select p xs) ≡ (count_if p xs == 0)
is_empty-select p [] = refl
is_empty-select p (x ∷ xs) = ground (arith, is_empty-select p xs)
