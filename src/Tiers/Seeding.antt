-- ===== src/Tiers/Seeding.antt =====
-- backend/app/services/tiers.py: the rows of tiers after a seeding.
use betpulse.Prelude.{
  ℕ, ◌≡◌, refl, sym, ◌∙◌, ap, Bool, true, false, Option, none, some, List, [], ◌∷◌, ◌==◌, is_some,
  All, arith, if◌then◌else◌, Option-cases, Bool-cases, inl, inr,
}
use betpulse.Tiers.Config.{TierRow, default_tiers}
use betpulse.Tiers.Resolve.{
  row_named, insert_missing, insert_all, seed_default_tiers, resolve_row, row_or_default,
  default_resolved,
}

abbrev pub first_some : Option TierRow → Option TierRow → Option TierRow
first_some none o = o
first_some (some t) o = some t

insert_missing-row_named :
    (d : TierRow) (rows : List TierRow) (name : ℕ)
    → row_named name (insert_missing d rows)
      ≡ first_some (row_named name rows) (if d.name == name then some d else none)
insert_missing-row_named d rows name = elim (Bool-cases (d.name == name)) [
  | inl same ↦
      let equal : d.name ≡ name = ground (arith, same) in
      let moved = ap (λ k. row_named k rows) equal in
      elim (Option-cases (row_named name rows)) [
        | inl missing ↦ ground (arith, same, missing, moved)
        | inr (t, found) ↦ ground (arith, same, found, moved)
      ]
  | inr other ↦ elim (Option-cases (row_named name rows)) [
    | inl missing ↦ ground (arith, other, missing)
    | inr (t, found) ↦ ground (arith, other, found)
  ]
]

first_some_assoc :
    (a b d : Option TierRow) → first_some (first_some a b) d ≡ first_some a (first_some b d)
first_some_assoc none b d = refl
first_some_assoc (some t) b d = refl

if_first_some :
    (b : Bool) (t : TierRow) (o : Option TierRow)
    → first_some (if b then some t else none) o ≡ (if b then some t else o)
if_first_some true t o = refl
if_first_some false t o = refl

first_some-none : (o : Option TierRow) → first_some o none ≡ o
first_some-none none = refl
first_some-none (some t) = refl

insert_all-row_named :
    (ds rows : List TierRow) (name : ℕ)
    → row_named name (insert_all ds rows) ≡ first_some (row_named name rows) (row_named name ds)
insert_all-row_named [] rows name = sym (first_some-none (row_named name rows))
insert_all-row_named (d ∷ ds) rows name =
    insert_all-row_named ds (insert_missing d rows) name
    ∙ ap (λ o. first_some o (row_named name ds)) (insert_missing-row_named d rows name)
    ∙ first_some_assoc (row_named name rows) (if d.name == name then some d else none)
        (row_named name ds)
    ∙ ap (first_some (row_named name rows)) (if_first_some (d.name == name) d (row_named name ds))

insert_all-same :
    (ds rows : List TierRow)
    → All (λ d. is_some (row_named d.name rows) ≡ true) ds
    → insert_all ds rows ≡ rows
insert_all-same [] rows h = refl
insert_all-same (d ∷ ds) rows (h, rest) =
    ap (λ b. insert_all ds (if b then rows else d ∷ rows)) h ∙ insert_all-same ds rows rest

first_some-is_some : (o p : Option TierRow) → is_some p ≡ true → is_some (first_some o p) ≡ true
first_some-is_some none p h = h
first_some-is_some (some t) p h = refl

seeded :
    (rows : List TierRow) (name : ℕ)
    → is_some (row_named name default_tiers) ≡ true
    → is_some (row_named name (seed_default_tiers rows)) ≡ true
unfolding seed_default_tiers
seeded rows name h =
    ap is_some (insert_all-row_named default_tiers rows name)
    ∙ first_some-is_some (row_named name rows) (row_named name default_tiers) h

first_some-row_or_default :
    (name : ℕ) (o : Option TierRow)
    → row_or_default name (first_some o (row_named name default_tiers)) ≡ row_or_default name o
unfolding default_resolved
first_some-row_or_default name (some t) = refl
first_some-row_or_default name none = elim (Option-cases (row_named name default_tiers)) [
  | inl missing ↦ ground (arith, missing)
  | inr (t, found) ↦ ground (arith, found)
]

-- A seeding leaves every row as an administrator has edited it, changes what no tier resolves to,
-- whether it is stored, a default or unknown, and a second one does nothing.
pub seed_default_tiers-resolve_row :
    (rows : List TierRow) (name : ℕ)
    → (row_named name (seed_default_tiers rows)
        ≡ first_some (row_named name rows) (row_named name default_tiers))
      × (resolve_row (seed_default_tiers rows) name ≡ resolve_row rows name)
      × (seed_default_tiers (seed_default_tiers rows) ≡ seed_default_tiers rows)
unfolding seed_default_tiers resolve_row
seed_default_tiers-resolve_row rows name = (
  insert_all-row_named default_tiers rows name,
  ap (row_or_default name) (insert_all-row_named default_tiers rows name)
      ∙ first_some-row_or_default name (row_named name rows),
  insert_all-same default_tiers (seed_default_tiers rows)
      (seeded rows 0 refl, (seeded rows 1 refl, (seeded rows 2 refl, (seeded rows 3 refl, tt)))),
)
