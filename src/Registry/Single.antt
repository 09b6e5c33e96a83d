-- ===== src/Registry/Single.antt =====
-- One champion: promotions, and the flushes on the way.
use betpulse.Prelude.{
  ℕ, ◌≤◌, ◌≡◌, ◌∙◌, refl, true, Option, some, List, [], ◌∷◌, arith, ◌==◌, All, count_if, find,
}
use betpulse.Registry.Numbers.{Numbers}
use betpulse.Registry.Model.{Row, Registry}
use betpulse.Registry.Champion.{
  is_champion, demote_champions, promote_row, transfer_title, snapshot_registry,
}
use betpulse.Registry.Admin.{promote, ok, below_min_samples}

module _ (n : Numbers) where
  -- The champions are exactly the rows with this identifier.
  abbrev pub OnlyChampion : ℕ → List (Row n) → Type 0
  OnlyChampion id rows = All (λ r. is_champion n r ≡ (r.id == id)) rows

  abbrev pub champions : List (Row n) → ℕ
  champions rows = count_if (is_champion n) rows

  pub promote-demote :
      (id : ℕ) (rows : List (Row n))
      → OnlyChampion id (promote_row n id (demote_champions n (some id) rows))
  unfolding promote_row demote_champions
  promote-demote id [] = tt
  promote-demote id (r ∷ rows) = (ground arith, promote-demote id rows)

  pub transfer_title-single :
      (id method : ℕ) (reg : Registry n) → OnlyChampion id (transfer_title n id method reg).rows
  unfolding transfer_title
  transfer_title-single id method reg = promote-demote id reg.rows

  pub demote_champions-le :
      (keep : Option ℕ) (rows : List (Row n))
      → champions (demote_champions n keep rows) ≤ champions rows
  unfolding demote_champions
  demote_champions-le keep [] = omega arith
  demote_champions-le keep (r ∷ rows) = ground (arith, demote_champions-le keep rows)

  only-champions :
      (id : ℕ) (rows : List (Row n))
      → OnlyChampion id rows
      → champions rows ≡ count_if (λ r. r.id == id) rows
  only-champions id [] h = refl
  only-champions id (r ∷ rows) (h, hs) = ground (arith, h, only-champions id rows hs)

  pub ids-kept :
      (id : ℕ) (rows : List (Row n))
      → count_if (λ r. r.id == id) (promote_row n id (demote_champions n (some id) rows))
        ≡ count_if (λ r. r.id == id) rows
  unfolding promote_row demote_champions
  ids-kept id [] = refl
  ids-kept id (r ∷ rows) = ground (arith, ids-kept id rows)

  -- A transfer of the title writes the table twice, after the demotions and after the promotion: if
  -- the table had at most one champion and the identifier names one row, so has each of the two.
  pub transfer_flushes :
      (id : ℕ) (rows : List (Row n))
      → champions rows ≤ 1
      → count_if (λ r. r.id == id) rows ≡ 1
      → let demoted = demote_champions n (some id) rows in
        (champions demoted ≤ 1) × (champions (promote_row n id demoted) ≡ 1)
  transfer_flushes id rows one here = (
    omega (arith, demote_champions-le (some id) rows),
    only-champions id (promote_row n id (demote_champions n (some id) rows))
          (promote-demote id rows)
        ∙ ids-kept id rows
        ∙ here,
  )

  -- An administrator's promotion of a known row, with the lock, makes it the only champion, and
  -- warns exactly if the row has too few samples or no accuracy.
  pub promote-single :
      (row_id snapshot_id : ℕ) (reg : Registry n) (r : Row n)
      → find (λ x. x.id == row_id) reg.rows ≡ some r
      → (reg' : Registry n) × (promote n true row_id snapshot_id reg
          ≡ ok (some (below_min_samples n r), reg'))
        × OnlyChampion r.id reg'.rows
  unfolding promote snapshot_registry
  promote-single row_id snapshot_id reg r e =
      let reg' = transfer_title n r.id r.method (snapshot_registry n snapshot_id reg) in
      (reg', rw e refl, transfer_title-single r.id r.method (snapshot_registry n snapshot_id reg))
