-- ===== src/Tiers.antt =====
-- The subscriptions of a user and their effective tier: `assign_tier` and `resolve_effective` of
-- backend/app/services/user_admin.py, over the tables of models/tier.py. Of the tier's columns those
-- are kept that the two functions read.
pub mod Cache
pub mod Config
pub mod Resolve
mod Staleness
mod Seeding
mod CacheTests
mod Tests
use betpulse.Prelude.{
  ℕ, ◌≤◌, ◌≡◌, ◌⊎◌, ◌||◌, ◌∙◌, All, ap, if_cases, not, refl, subst, sym, Bool, true, false, Option,
  none, some, List, [], ◌∷◌, ◌==◌, ◌&&◌, arith, leb, ltb, find, Option-cases, Bool-cases, inl, inr,
  if◌then◌else◌,
}
use betpulse.Promo.Model.{Source, Subscription, is_subscription_of}
use betpulse.Promo.Redeem.{upsert_subscription}

pub record Tier : Type 0 where
  pub id : ℕ
  pub name : ℕ
  pub sort_order : ℕ

-- A row of the join: the tier, and when the subscription to it ends.
abbrev pub Grant : Type 0
Grant = Tier × Option ℕ

-- `expires_at IS NULL OR expires_at > now`
abbrev pub is_current : Option ℕ → ℕ → Bool
is_current none now = true
is_current (some t) now = ltb now t

abbrev pub tier_of : List Tier → ℕ → Option Tier
tier_of tiers id = find (λ t. t.id == id) tiers

abbrev pub join_row : Option Tier → Option ℕ → List Grant → List Grant
join_row none expires_at rest = rest
join_row (some t) expires_at rest = (t, expires_at) ∷ rest

-- The join, with its WHERE.
abbrev pub grants : List Tier → ℕ → ℕ → List Subscription → List Grant
grants tiers user now [] = []
grants tiers user now (s ∷ subs) =
    if s.user_id == user && is_current s.expires_at now
    then join_row (tier_of tiers s.tier_id) s.expires_at (grants tiers user now subs)
    else grants tiers user now subs

abbrev pub higher : Grant → Option Grant → Grant
higher x none = x
higher x (some y) = if leb y.0.sort_order x.0.sort_order then x else y

-- ORDER BY sort_order DESC LIMIT 1; of equals, the first row.
abbrev pub highest : List Grant → Option Grant
highest [] = none
highest (x ∷ xs) = some (higher x (highest xs))

abbrev pub name_and_expiry : ℕ → Option Grant → ℕ × Option ℕ
name_and_expiry base none = (base, none)
name_and_expiry base (some (t, expires_at)) = (t.name, expires_at)

-- `base` is the tier that the user's own row names.
pub resolve_effective : List Tier → List Subscription → ℕ → ℕ → ℕ → ℕ × Option ℕ
resolve_effective tiers subs user base now =
    name_and_expiry base (highest (grants tiers user now subs))

-- The effective tier with its expiry, and the subscriptions.
pub assign_tier :
    List Tier → List Subscription → ℕ → ℕ → Tier → Option ℕ → ℕ → (ℕ × Option ℕ) × List Subscription
unfolding resolve_effective
assign_tier tiers subs user base tier expires_at now =
    let subs' = upsert_subscription user tier.id Source.manual expires_at subs in
    (resolve_effective tiers subs' user base now, subs')

abbrev pub Tops : Tier → Option Grant → Type 0
Tops tier g = (best : Grant) × (g ≡ some best) × tier.sort_order ≤ best.0.sort_order

higher-left : (x : Grant) (o : Option Grant) → x.0.sort_order ≤ (higher x o).0.sort_order
higher-left x none = omega arith
higher-left x (some y) = ground arith

higher-right :
    (tier : Tier) (x : Grant) (o : Option Grant) → Tops tier o → Tops tier (some (higher x o))
higher-right tier x none (y, e, l) = absurd (cc)
higher-right tier x (some z) (y, e, l) = (higher x (some z), refl, ground (arith, e, l))

add-Tops :
    (tier : Tier) (b : Bool) (o : Option Tier) (e : Option ℕ) (rest : List Grant)
    → Tops tier (highest rest)
    → Tops tier (highest (if b then join_row o e rest else rest))
add-Tops tier false o e rest h = h
add-Tops tier true none e rest h = h
add-Tops tier true (some t) e rest h = higher-right tier (t, e) (highest rest) h

upsert-Tops :
    (tiers : List Tier) (subs : List Subscription) (user now : ℕ) (tier : Tier) (src : Source)
    (expires_at : Option ℕ)
    → tier_of tiers tier.id ≡ some tier
    → is_current expires_at now ≡ true
    → Tops tier
        (highest (grants tiers user now (upsert_subscription user tier.id src expires_at subs)))
unfolding upsert_subscription
upsert-Tops tiers [] user now tier src expires_at known current =
    ((tier, expires_at), ground (arith, known, current), omega arith)
upsert-Tops tiers (s ∷ subs) user now tier src expires_at known current =
    let rest = upsert-Tops tiers subs user now tier src expires_at known current in
    elim (Bool-cases (is_subscription_of user tier.id s)) [
      | inl mine ↦ (
        higher (tier, expires_at) (highest (grants tiers user now subs)),
        ground (arith, mine, known, current),
        higher-left (tier, expires_at) (highest (grants tiers user now subs)),
      )
      | inr other ↦
          let kept : s ∷ upsert_subscription user tier.id src expires_at subs
              ≡ upsert_subscription user tier.id src expires_at (s ∷ subs) =
            ground (arith, other) in
          subst (λ l. Tops tier (highest (grants tiers user now l))) kept
            (add-Tops tier (s.user_id == user && is_current s.expires_at now)
              (tier_of tiers s.tier_id) s.expires_at
              (grants tiers user now (upsert_subscription user tier.id src expires_at subs)) rest)
    ]

-- The grant is that of a stored subscription of the user to a stored tier, which has no end or ends
-- later.
abbrev pub IsGranted : List Tier → ℕ → ℕ → Grant → List Subscription → Type 0
IsGranted tiers user now g [] = true ≡ false
IsGranted tiers user now g (s ∷ subs) =
    ((s.user_id ≡ user)
      × (is_current s.expires_at now ≡ true)
      × (tier_of tiers s.tier_id ≡ some g.0)
      × (s.expires_at ≡ g.1))
    ⊎ IsGranted tiers user now g subs

-- A subscription is another user's, over, to an unknown tier, or to one not above `rank`.
abbrev pub is_within : ℕ → Option Tier → Bool
is_within rank none = true
is_within rank (some t) = leb t.sort_order rank

abbrev pub is_not_above : List Tier → ℕ → ℕ → ℕ → Subscription → Bool
is_not_above tiers user now rank s =
    not (s.user_id == user && is_current s.expires_at now)
    || is_within rank (tier_of tiers s.tier_id)

abbrev AtMost : ℕ → Option Grant → Type 0
AtMost rank none = Unit
AtMost rank (some g) = g.0.sort_order ≤ rank

higher_cases : (x : Grant) (o : Option Grant) → (higher x o ≡ x) ⊎ (o ≡ some (higher x o))
higher_cases x none = inl refl
higher_cases x (some y) =
    if_cases (λ (z : Grant). (z ≡ x) ⊎ (some y ≡ some z)) (leb y.0.sort_order x.0.sort_order)
      (λ _. inl refl) (λ _. inr refl)

higher-AtMost :
    (rank : ℕ) (x : Grant) (o : Option Grant)
    → AtMost rank (some (higher x o))
    → (x.0.sort_order ≤ rank) × AtMost rank o
higher-AtMost rank x none h = (h, tt)
higher-AtMost rank x (some y) h = ground (arith, h)

highest-IsGranted :
    (tiers : List Tier) (user now : ℕ) (best : Grant) (subs : List Subscription)
    → highest (grants tiers user now subs) ≡ some best
    → IsGranted tiers user now best subs
highest-IsGranted tiers user now best [] e = absurd (cc)
highest-IsGranted tiers user now best (s ∷ subs) e =
    elim (Bool-cases (s.user_id == user && is_current s.expires_at now)) [
      | inr out ↦ inr (highest-IsGranted tiers user now best subs (ground (arith, e, out)))
      | inl in_ ↦ elim (Option-cases (tier_of tiers s.tier_id)) [
        | inl gone ↦ inr (highest-IsGranted tiers user now best subs (ground (arith, e, in_, gone)))
        | inr (t, known) ↦
            let rest = highest (grants tiers user now subs) in
            let top : higher (t, s.expires_at) rest ≡ best = ground (arith, e, in_, known) in
            elim (higher_cases (t, s.expires_at) rest) [
              | inl first ↦ inl (
                ground (arith, in_),
                ground (arith, in_),
                known ∙ ap (λ (g : Grant). some g.0) (sym first ∙ top),
                ap (λ (g : Grant). g.1) (sym first ∙ top),
              )
              | inr later ↦ inr (highest-IsGranted tiers user now best subs (later ∙ ap some top))
            ]
      ]
    ]

add-AtMost :
    (rank : ℕ) (b : Bool) (o : Option Tier) (e : Option ℕ) (rest : List Grant)
    → AtMost rank (highest (if b then join_row o e rest else rest))
    → ((not b || is_within rank o) ≡ true) × AtMost rank (highest rest)
add-AtMost rank false o e rest h = (refl, h)
add-AtMost rank true none e rest h = (refl, h)
add-AtMost rank true (some t) e rest h =
    let (below, others) = higher-AtMost rank (t, e) (highest rest) h in
    (ground (arith, below), others)

highest-is_not_above :
    (tiers : List Tier) (user now rank : ℕ) (subs : List Subscription)
    → AtMost rank (highest (grants tiers user now subs))
    → All (λ s. is_not_above tiers user now rank s ≡ true) subs
highest-is_not_above tiers user now rank [] h = tt
highest-is_not_above tiers user now rank (s ∷ subs) h =
    let (below, others) =
      add-AtMost rank (s.user_id == user && is_current s.expires_at now) (tier_of tiers s.tier_id)
        s.expires_at (grants tiers user now subs) h in
    (below, highest-is_not_above tiers user now rank subs others)

-- A tier that is assigned until a later time is in force at once: the effective tier, with its end,
-- is that of a stored subscription of the user to a stored tier, which has no end or ends later; and
-- neither the assigned tier nor that of any such subscription is above it in the order of tiers.
pub assign_tier-resolves :
    (tiers : List Tier) (subs : List Subscription) (user base now : ℕ) (tier : Tier)
    (expires_at : Option ℕ)
    → tier_of tiers tier.id ≡ some tier
    → is_current expires_at now ≡ true
    → let (effective, subs') = assign_tier tiers subs user base tier expires_at now in
      (best : Grant) × (effective ≡ (best.0.name, best.1))
      × IsGranted tiers user now best subs'
      × (tier.sort_order ≤ best.0.sort_order)
      × All (λ s. is_not_above tiers user now best.0.sort_order s ≡ true) subs'
unfolding assign_tier resolve_effective
assign_tier-resolves tiers subs user base now tier expires_at known current =
    let subs' = upsert_subscription user tier.id Source.manual expires_at subs in
    let (best, e, l) =
      upsert-Tops tiers subs user now tier Source.manual expires_at known current in
    let at_most : AtMost best.0.sort_order (highest (grants tiers user now subs')) =
      subst (AtMost best.0.sort_order) (sym e) (omega arith) in
    (
      best,
      ground (arith, e),
      highest-IsGranted tiers user now best subs' e,
      l,
      highest-is_not_above tiers user now best.0.sort_order subs' at_most,
    )
