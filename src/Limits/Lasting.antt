-- ===== src/Limits/Lasting.antt =====
-- The expiry of a day's keys in backend/app/services/limits.py, as time passes.
use betpulse.Prelude.{
  ℕ, ◌+◌, ◌*◌, ◌≤◌, ◌<◌, ◌≡◌, refl, max, Option, none, some, List, [], arith, Option-cases, inl,
  inr,
}
use betpulse.Prelude.Int.{ℤ}
use betpulse.Redis.{Counter, Members, amount, aged, aged_set}
use betpulse.Clock.{
  second, day, date_of, seconds_until_utc_midnight, seconds_until_utc_midnight_bounds,
}
use betpulse.Counters.Effect.{after_take, healed, lowered}
use betpulse.Counters.Effect.Distinct.{after_view, seen_after_view}

-- The midnight that ends a day.
abbrev pub midnight_of : ℕ → ℕ
midnight_of date = (date + 1) * day

-- A key with this time to live is there at every instant that lies a second or more before midnight.
abbrev pub Outlives : ℕ → ℕ → Option ℕ → Type 0
Outlives midnight now none = Unit
Outlives midnight now (some ttl) = midnight < now + (ttl + 1) * second

abbrev pub Lasting : ℕ → ℕ → Option Counter → Type 0
Lasting midnight now none = Unit
Lasting midnight now (some c) = Outlives midnight now c.ttl

abbrev pub LastingSet : ℕ → ℕ → Option Members → Type 0
LastingSet midnight now none = Unit
LastingSet midnight now (some m) = Outlives midnight now m.ttl

abbrev pub items_of : Option Members → List ℕ
items_of none = []
items_of (some m) = m.items

-- Until the last second of the day, the passage of time takes nothing away.
pub aged-Lasting :
    (midnight now t : ℕ) (o : Option Counter)
    → now + t * second + second ≤ midnight
    → Lasting midnight now o
    → (amount (aged t o) ≡ amount o) × Lasting midnight (now + t * second) (aged t o)
aged-Lasting midnight now t none soon h = (refl, tt)
aged-Lasting midnight now t (some c) soon h = elim (Option-cases c.ttl) [
  | inl endless ↦ ground (arith, endless)
  | inr (u, ends) ↦ ground (arith, ends, soon, h)
]

pub aged_set-LastingSet :
    (midnight now t : ℕ) (o : Option Members)
    → now + t * second + second ≤ midnight
    → LastingSet midnight now o
    → (items_of (aged_set t o) ≡ items_of o) × LastingSet midnight (now + t * second) (aged_set t o)
aged_set-LastingSet midnight now t none soon h = (refl, tt)
aged_set-LastingSet midnight now t (some m) soon h = elim (Option-cases m.ttl) [
  | inl endless ↦ ground (arith, endless)
  | inr (u, ends) ↦ ground (arith, ends, soon, h)
]

-- The expiry that is set lasts for the day.
pub midnight-Outlives :
    (now : ℕ)
    → midnight_of (date_of now) < now + (max 1 (seconds_until_utc_midnight now) + 1) * second
midnight-Outlives now =
    let (one, most, soon, late) = seconds_until_utc_midnight_bounds now in omega (arith, late)

pub same_date :
    (now t : ℕ)
    → now + t * second + second ≤ midnight_of (date_of now)
    → date_of (now + t * second) ≡ date_of now
same_date now t soon = omega (arith, soon)

pub lowered-Lasting :
    (midnight now : ℕ) (o : Option Counter)
    → Lasting midnight now o
    → Lasting midnight now (lowered o)
lowered-Lasting midnight now none h = h
lowered-Lasting midnight now (some c) h = h

module _ (midnight now t : ℕ) (fresh : midnight < now + (t + 1) * second) where
  pub after_take-Lasting :
      (limit : ℤ) (o : Option Counter)
      → Lasting midnight now o
      → Lasting midnight now (after_take limit t o)
  after_take-Lasting limit none h = ground (arith, fresh)
  after_take-Lasting limit (some c) h = elim (Option-cases c.ttl) [
    | inl endless ↦ ground (arith, endless, fresh)
    | inr (u, ends) ↦ ground (arith, ends, h)
  ]

  healed-Lasting : (o : Option Counter) → Lasting midnight now o → Lasting midnight now (healed t o)
  healed-Lasting none h = h
  healed-Lasting (some c) h = elim (Option-cases c.ttl) [
    | inl endless ↦ ground (arith, endless, fresh)
    | inr (u, ends) ↦ ground (arith, ends, h)
  ]

  pub after_view-Lasting :
      (m : ℕ) (limit : ℤ) (o : Option Counter) (ms : Option Members)
      → Lasting midnight now o
      → Lasting midnight now (after_view m limit t o ms)
  after_view-Lasting m limit o ms h =
      ground (arith, healed-Lasting o h, after_take-Lasting limit o h)

  pub seen_after_view-LastingSet :
      (m : ℕ) (limit : ℤ) (o : Option Counter) (ms : Option Members)
      → LastingSet midnight now ms
      → LastingSet midnight now (seen_after_view m limit t o ms)
  seen_after_view-LastingSet m limit o none h = ground (arith, fresh)
  seen_after_view-LastingSet m limit o (some ms) h = elim (Option-cases ms.ttl) [
    | inl endless ↦ ground (arith, endless, fresh)
    | inr (u, ends) ↦ ground (arith, ends, h)
  ]
