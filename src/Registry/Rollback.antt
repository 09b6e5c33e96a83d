-- ===== src/Registry/Rollback.antt =====
-- Who holds the title after `rollback_to_snapshot`.
use betpulse.Prelude.{
  ℕ, ◌≡◌, ◌∙◌, refl, sym, subst, ap, Bool, true, false, Option, none, some, List, [], ◌∷◌, ◌&&◌,
  not, arith, ◌==◌, ltb, length, All, find, is_some_eq, update_where, Option-cases, Bool-cases, inl,
  inr,
}
use betpulse.Registry.Numbers.{Numbers}
use betpulse.Registry.Model.{Row, Item, Registry, Snapshot, is_champion_status, challenger}
use betpulse.Registry.Champion.{
  is_demoted, set_status, demote_champions, same_key, row_of_item, champion_ids, head, restored,
  restore_items, rollback_rows, rollback_to_snapshot, ok,
}

module _ (n : Numbers) where
  -- The row is the one of its method and version.
  abbrev pub owns_key : List (Row n) → Row n → Bool
  owns_key rows r = elim (find (λ x. x.method == r.method && x.version == r.version) rows) [
    | none ↦ false
    | some x ↦ x.id == r.id
  ]

  -- The unique constraint on method and version.
  abbrev pub HasUniqueKeys : List (Row n) → Type 0
  HasUniqueKeys rows = All (λ r. owns_key rows r ≡ true) rows

  -- Nobody but `keep` is champion.
  abbrev pub OnlyTitle : Option ℕ → List (Row n) → Type 0
  OnlyTitle keep rows = All (λ r. is_demoted n keep r ≡ false) rows

  -- A payload item that would give the title to another row.
  abbrev clashes : Option ℕ → Item n → Row n → Bool
  clashes keep i r = is_champion_status i.status && (same_key n i r && not (is_some_eq keep r.id))

  item-row :
      (i : Item n) (r : Row n) (rows : List (Row n))
      → same_key n i r ≡ true
      → owns_key rows r ≡ true
      → (x : Row n) × (row_of_item n rows i ≡ some x) × x.id ≡ r.id
  item-row i r rows same own =
      let m : r.method ≡ i.method = ground (arith, same) in
      let v : r.version ≡ i.version = ground (arith, same) in
      let e : find (λ x. x.method == r.method && x.version == r.version) rows
          ≡ row_of_item n rows i =
        ap (λ z. find (λ x. x.method == z && x.version == r.version) rows) m
        ∙ ap (λ z. find (λ x. x.method == i.method && x.version == z) rows) v in
      elim (Option-cases (find (λ x. x.method == r.method && x.version == r.version) rows)) [
        | inl missing ↦ absurd (ground (arith, own, missing))
        | inr (x, found) ↦ (x, sym e ∙ found, ground (arith, own, found))
      ]

  no-clash :
      (keep : Option ℕ) (i : Item n) (rows rs : List (Row n))
      → All (λ r. owns_key rows r ≡ true) rs
      → All (λ x. is_some_eq keep x ≡ true) (champion_ids n rows (i ∷ []))
      → All (λ r. clashes keep i r ≡ false) rs
  no-clash keep i rows [] own h = tt
  no-clash keep i rows (r ∷ rs) (o, own) h = (
    elim (Bool-cases (same_key n i r)) [
      | inl same ↦ ground (arith, same, item-row i r rows same o, h)
      | inr other ↦ ground (arith, other)
    ],
    no-clash keep i rows rs own h,
  )

  no-clashes :
      (keep : Option ℕ) (rows : List (Row n)) (items : List (Item n))
      → HasUniqueKeys rows
      → All (λ x. is_some_eq keep x ≡ true) (champion_ids n rows items)
      → All (λ i. All (λ r. clashes keep i r ≡ false) rows) items
  no-clashes keep rows [] own h = tt
  no-clashes keep rows (i ∷ items) own h = (
    no-clash keep i rows rows own (ground (arith, h)),
    no-clashes keep rows items own (ground (arith, h)),
  )

  only-head :
      (ids : List ℕ) → ltb 1 (length ids) ≡ false → All (λ x. is_some_eq (head n ids) x ≡ true) ids
  only-head [] h = tt
  only-head (x ∷ []) h = (ground arith, tt)
  only-head (x ∷ y ∷ ids) h = absurd (ground (arith, h))

  demote-OnlyTitle :
      (keep : Option ℕ) (rows : List (Row n)) → OnlyTitle keep (demote_champions n keep rows)
  unfolding demote_champions
  demote-OnlyTitle keep [] = tt
  demote-OnlyTitle keep (r ∷ rows) = (ground arith, demote-OnlyTitle keep rows)

  restore-OnlyTitle :
      (keep : Option ℕ) (i : Item n) (rows : List (Row n))
      → All (λ r. clashes keep i r ≡ false) rows
      → OnlyTitle keep rows
      → OnlyTitle keep (update_where (same_key n i) (restored n i) rows)
  restore-OnlyTitle keep i [] c o = tt
  restore-OnlyTitle keep i (r ∷ rows) (c, cs) (o, os) =
      (ground (arith, c, o), restore-OnlyTitle keep i rows cs os)

  -- A rewriting that keeps methods, versions and identifiers makes no clash.
  update-clash :
      (keep : Option ℕ) (j : Item n) (p : Row n → Bool) (f : Row n → Row n) (rows : List (Row n))
      → ((r : Row n) → clashes keep j (f r) ≡ clashes keep j r)
      → All (λ r. clashes keep j r ≡ false) rows
      → All (λ r. clashes keep j r ≡ false) (update_where p f rows)
  update-clash keep j p f [] same c = tt
  update-clash keep j p f (r ∷ rows) same (c, cs) =
      (ground (arith, c, same r), update-clash keep j p f rows same cs)

  update-clashes :
      (keep : Option ℕ) (items : List (Item n)) (p : Row n → Bool) (f : Row n → Row n)
      (rows : List (Row n))
      → ((j : Item n) (r : Row n) → clashes keep j (f r) ≡ clashes keep j r)
      → All (λ i. All (λ r. clashes keep i r ≡ false) rows) items
      → All (λ i. All (λ r. clashes keep i r ≡ false) (update_where p f rows)) items
  update-clashes keep [] p f rows same c = tt
  update-clashes keep (j ∷ items) p f rows same (c, cs) =
      (update-clash keep j p f rows (same j) c, update-clashes keep items p f rows same cs)

  restore_items-OnlyTitle :
      (keep : Option ℕ) (items : List (Item n)) (rows : List (Row n))
      → All (λ i. All (λ r. clashes keep i r ≡ false) rows) items
      → OnlyTitle keep rows
      → OnlyTitle keep (restore_items n items rows)
  unfolding restore_items
  restore_items-OnlyTitle keep [] rows c o = o
  restore_items-OnlyTitle keep (i ∷ items) rows (c, cs) o =
      restore_items-OnlyTitle keep items (update_where (same_key n i) (restored n i) rows)
        (update-clashes keep items (same_key n i) (restored n i) rows (λ j r. refl) cs)
        (restore-OnlyTitle keep i rows c o)

  -- A rollback that succeeds leaves nobody champion but the row of the champion that the snapshot
  -- names, and nobody if it names none, whatever was trained or promoted since; methods and versions
  -- are unique, as the table demands.
  pub rollback-OnlyTitle :
      (id : ℕ) (reg reg' : Registry n) (s : Snapshot n)
      → find (λ x. x.id == id) reg.snapshots ≡ some s
      → HasUniqueKeys reg.rows
      → rollback_to_snapshot n id reg ≡ ok reg'
      → OnlyTitle (head n (champion_ids n reg.rows s.payload)) reg'.rows
  unfolding rollback_to_snapshot rollback_rows demote_champions
  rollback-OnlyTitle id reg reg' s found own e =
      elim (Bool-cases (ltb 1 (length (champion_ids n reg.rows s.payload)))) [
        | inl many ↦ absurd (ground (arith, found, many, e))
        | inr few ↦
            let keep = head n (champion_ids n reg.rows s.payload) in
            let after : rollback_rows n s.payload reg.rows ≡ reg'.rows =
              ground (arith, found, few, e) in
            let ids = only-head (champion_ids n reg.rows s.payload) few in
            let free = no-clashes keep reg.rows s.payload own ids in
            subst (OnlyTitle keep) after (
              restore_items-OnlyTitle keep s.payload (demote_champions n keep reg.rows)
                (update-clashes keep s.payload (is_demoted n keep) (set_status n challenger)
                  reg.rows (λ j r. refl) free)
                (demote-OnlyTitle keep reg.rows))
      ]
