-- ===== src/Registry/Crown.antt =====
-- The title after a nightly re-evaluation.
use betpulse.Prelude.{
  ℕ, ◌≤◌, ◌≡◌, ◌∙◌, refl, Bool, true, false, Option, none, some, List, [], ◌∷◌, ◌&&◌, not, arith,
  ◌==◌, length, All, count_if, find, select, is_some, map, sym, subst, Option-cases, Bool-cases,
  inl, inr,
}
use betpulse.Registry.Numbers.{Numbers}
use betpulse.Registry.Model.{Row, Registry, Metrics, ModelStatus}
use betpulse.Registry.Champion.{
  is_champion, transfer_title, snapshot_registry, demote_champions, promote_row,
}
use betpulse.Registry.Selection.{
  lookup, Evaluation, is_eligible, rows_for, store_metrics, store_one, apply_champion_selection,
  select_champion, crown, retitle, is_exactly, ids, apply_weights, weigh, winner_of, incumbent_of,
  best_of, softmax_weights, accuracies_of,
}
use betpulse.Registry.Single.{OnlyChampion, champions, promote-demote, ids-kept}
use betpulse.Registry.Rule.{best_of-All, incumbent_of-All, select-All, defend_cases}

-- A list that is exactly this identifier.
is_exactly_lem :
    (n : Numbers) (id : ℕ) (l : List ℕ)
    → is_exactly n id l ≡ true
    → (length l ≡ 1) × (count_if (λ x. not (x == id)) l ≡ 0)
is_exactly_lem n id [] h = absurd (cc)
is_exactly_lem n id (x ∷ []) h = ground arith
is_exactly_lem n id (x ∷ y ∷ l) h = absurd (cc)

module _ (n : Numbers) where
  -- Champion rows with another identifier.
  abbrev pub strangers : ℕ → List (Row n) → ℕ
  strangers id rows = count_if (λ r. is_champion n r && not (r.id == id)) rows

  -- There is a champion, and every champion row has this identifier.
  abbrev pub HoldsTitle : ℕ → List (Row n) → Type 0
  HoldsTitle id rows = (strangers id rows ≡ 0) × (1 ≤ champions n rows)

  champions-ids :
      (id : ℕ) (rows : List (Row n))
      → (champions n rows ≡ length (ids n (select (is_champion n) rows)))
        × (strangers id rows ≡ count_if (λ x. not (x == id)) (ids n (select (is_champion n) rows)))
  champions-ids id [] = (refl, refl)
  champions-ids id (r ∷ rows) =
      (ground (arith, champions-ids id rows), ground (arith, champions-ids id rows))

  only-HoldsTitle :
      (id : ℕ) (rows : List (Row n))
      → OnlyChampion n id rows
      → (strangers id rows ≡ 0) × (champions n rows ≡ count_if (λ r. r.id == id) rows)
  only-HoldsTitle id [] o = (refl, refl)
  only-HoldsTitle id (r ∷ rows) (o, os) =
      (ground (arith, o, only-HoldsTitle id rows os), ground (arith, o, only-HoldsTitle id rows os))

  find-count :
      (id : ℕ) (rows : List (Row n))
      → is_some (find (λ r. r.id == id) rows) ≡ true
      → 1 ≤ count_if (λ r. r.id == id) rows
  find-count id [] h = absurd (cc)
  find-count id (r ∷ rows) h = ground (arith, find-count id rows)

  title-moved :
      (id : ℕ) (rows : List (Row n))
      → is_some (find (λ r. r.id == id) rows) ≡ true
      → HoldsTitle id (promote_row n id (demote_champions n (some id) rows))
  title-moved id rows h =
      let after = promote_row n id (demote_champions n (some id) rows) in
      omega (
        arith,
        only-HoldsTitle id after (promote-demote n id rows),
        ids-kept n id rows,
        find-count id rows h,
      )

  retitle-HoldsTitle :
      (snapshot_id id method : ℕ) (reg : Registry n)
      → is_some (find (λ r. r.id == id) reg.rows) ≡ true
      → HoldsTitle id (retitle n snapshot_id id method reg).rows
  unfolding transfer_title snapshot_registry
  retitle-HoldsTitle snapshot_id id method reg h =
      elim (Bool-cases (is_exactly n id (ids n (select (is_champion n) reg.rows)))) [
        | inl same ↦ rw same (
            omega (
              arith,
              champions-ids id reg.rows,
              is_exactly_lem n id (ids n (select (is_champion n) reg.rows)) same,
            ))
        | inr moved ↦ rw moved (title-moved id reg.rows h)
      ]

  weigh-kept :
      (of_method : List (ℕ × ℕ)) (weights : List (ℕ × n.F)) (id : ℕ) (rows : List (Row n))
      → (strangers id (map (weigh n of_method weights) rows) ≡ strangers id rows)
        × (champions n (map (weigh n of_method weights) rows) ≡ champions n rows)
  weigh-kept of_method weights id [] = (refl, refl)
  weigh-kept of_method weights id (r ∷ rows) = (
    ground (arith, weigh-kept of_method weights id rows),
    ground (arith, weigh-kept of_method weights id rows),
  )

  eligible-row :
      (of_method : List (ℕ × ℕ)) (rows : List (Row n)) (min_samples : ℕ) (e : ℕ × Metrics n)
      → is_eligible n of_method rows min_samples e ≡ true
      → (id : ℕ) × (lookup e.0 of_method ≡ some id) × (is_some (find (λ r. r.id == id) rows) ≡ true)
  eligible-row of_method rows min_samples (k, m) h = elim (Option-cases (lookup k of_method)) [
    | inl missing ↦ absurd (ground (arith, h, missing))
    | inr (id, found) ↦ (id, found, ground (arith, h, found))
  ]

  abbrev pub statuses : List (Row n) → List ModelStatus
  statuses rows = map (λ r. r.status) rows

  store_one-statuses :
      (id : Option ℕ) (m : Metrics n) (now : ℕ) (rows : List (Row n))
      → statuses (store_one n id m now rows) ≡ statuses rows
  store_one-statuses none m now rows = refl
  store_one-statuses (some id) m now [] = refl
  store_one-statuses (some id) m now (r ∷ rows) =
      ground (arith, store_one-statuses (some id) m now rows)

  store_metrics-statuses :
      (of_method : List (ℕ × ℕ)) (ms : Evaluation n) (now : ℕ) (rows : List (Row n))
      → statuses (store_metrics n of_method ms now rows) ≡ statuses rows
  unfolding store_metrics
  store_metrics-statuses of_method [] now rows = refl
  store_metrics-statuses of_method ((k, m) ∷ ms) now rows =
      store_metrics-statuses of_method ms now (store_one n (lookup k of_method) m now rows)
      ∙ store_one-statuses (lookup k of_method) m now rows

  winner-All :
      (P : ℕ × Metrics n → Type 0) (margin : n.F) (champs : List (Row n)) (e : ℕ × Metrics n)
      (es : Evaluation n)
      → All P (e ∷ es)
      → P (winner_of n margin (incumbent_of n champs (e ∷ es)) (best_of n e es))
  unfolding winner_of
  winner-All P margin champs e es (h, hs) =
      let best = best_of n e es in
      let ok_best = best_of-All n P e es h hs in
      elim (Option-cases (incumbent_of n champs (e ∷ es))) [
        | inl vacant ↦ rw vacant ok_best
        | inr (i, held) ↦ rw held (elim (defend_cases n margin i best) [
          | inl beaten ↦ subst P (sym beaten) ok_best
          | inr (kept, _) ↦ subst P (sym kept) (incumbent_of-All n P champs (e ∷ es) i held (h, hs))
        ])
      ]

  -- How a re-evaluation ends: without a winner no status has changed; a winner's row holds the
  -- title, and it is the only one.
  abbrev pub Settled : List (ℕ × ℕ) → Registry n → Option ℕ × Registry n → Type 0
  Settled of_method before (none, after) = statuses after.rows ≡ statuses before.rows
  Settled of_method before (some winner, after) =
      (id : ℕ) × (lookup winner of_method ≡ some id) × HoldsTitle id after.rows

  crown-HoldsTitle :
      (auto : Bool) (snapshot_id : ℕ) (of_method : List (ℕ × ℕ)) (weights : List (ℕ × n.F))
      (id winner : ℕ) (reg : Registry n)
      → lookup winner of_method ≡ some id
      → is_some (find (λ r. r.id == id) reg.rows) ≡ true
      → HoldsTitle id
          (crown n auto snapshot_id of_method weights (lookup winner of_method) winner reg).rows
  unfolding apply_weights
  crown-HoldsTitle true snapshot_id of_method weights id winner reg found there = rw found (
      omega (
        arith,
        weigh-kept of_method weights id (retitle n snapshot_id id winner reg).rows,
        retitle-HoldsTitle snapshot_id id winner reg there,
      ))
  crown-HoldsTitle false snapshot_id of_method weights id winner reg found there =
      rw found (retitle-HoldsTitle snapshot_id id winner reg there)

  select_champion-Settled :
      (auto : Bool) (margin : n.F) (min_samples snapshot_id : ℕ) (of_method : List (ℕ × ℕ))
      (es : Evaluation n) (before reg : Registry n)
      → statuses reg.rows ≡ statuses before.rows
      → All (λ e. is_eligible n of_method reg.rows min_samples e ≡ true) es
      → Settled of_method before (select_champion n auto margin snapshot_id of_method es reg)
  select_champion-Settled auto margin min_samples snapshot_id of_method [] before reg same h = same
  select_champion-Settled auto margin min_samples snapshot_id of_method (e ∷ es) before reg same h =
      let champs = select (is_champion n) reg.rows in
      let winner = winner_of n margin (incumbent_of n champs (e ∷ es)) (best_of n e es) in
      let chosen =
        winner-All (λ x. is_eligible n of_method reg.rows min_samples x ≡ true) margin champs e es
          h in
      let (id, found, there) = eligible-row of_method reg.rows min_samples winner chosen in
      (
        id,
        found,
        crown-HoldsTitle auto snapshot_id of_method (softmax_weights n (accuracies_of n (e ∷ es)))
            id winner.0 reg found there,
      )

  -- After any re-evaluation that names a winner, the winner's evaluated row is champion and no other
  -- row is; one that names none leaves every status as it was.
  pub apply_champion_selection-Settled :
      (metrics : Evaluation n) (auto : Bool) (min_samples : ℕ) (margin : n.F) (now snapshot_id : ℕ)
      (reg : Registry n)
      → Settled
          (rows_for n reg.rows metrics)
          reg
          (apply_champion_selection n metrics auto min_samples margin now snapshot_id reg)
  unfolding apply_champion_selection
  apply_champion_selection-Settled metrics auto min_samples margin now snapshot_id reg =
      let of_method = rows_for n reg.rows metrics in
      let stored = store_metrics n of_method metrics now reg.rows in
      select_champion-Settled auto margin min_samples snapshot_id of_method
        (select (is_eligible n of_method stored min_samples) metrics) reg
        (record reg { rows = stored }) (store_metrics-statuses of_method metrics now reg.rows)
        (select-All n (is_eligible n of_method stored min_samples) metrics)
