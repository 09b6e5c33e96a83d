-- ===== src/Tiers/CacheTests.antt =====
-- Reads of tiers through a cache in memory.
use mathlib.Core.Logic.{ite, if_pos, if_neg}
use native.Mathlib.Decide.{ℕ_discrete}
use betpulse.Prelude.{ℕ, ◌≡◌, refl, Option, none, some, List, [], ◌∷◌, arith}
use betpulse.Prelude.Int.{pos}
use betpulse.Tiers.Cache.{Held, Cache, config_of, aged}
use betpulse.Tiers.Config.{TierRow, limits_of, matches_per_day, guest_row}
use betpulse.Tiers.Resolve.{
  row_named, resolve_row, get_resolved_tier, seed_default_tiers, invalidate_tier_cache,
}
use betpulse.Tiers.Staleness.{
  Event, ask, fill, invalidate, wait, run_events, run_history, get_resolved_tier-run_events,
}
use betpulse.Tiers.Seeding.{seed_default_tiers-resolve_row}

abbrev stored : (ℕ → Option Held) → ℕ → Option Held → ℕ → Option Held
stored s k h j = ite (ℕ_discrete j k) h (s j)

abbrev memory : Cache
memory = record {
  Store = ℕ → Option Held;
  held = λ s k. s k;
  get = λ s k. config_of (s k);
  set_ex = λ t c s k. stored s k (some (record { config = c; ttl = t }));
  delete = λ s k. stored s k none;
  pass = λ t s k. aged t (s k);
  get_lem = λ s k. refl;
  held-set_ex_self =
      λ t c s k. if_pos (ℕ_discrete k k) refl (some (record { config = c; ttl = t })) (s k);
  held-set_ex_ne =
      λ t c s j k ne. if_neg (ℕ_discrete j k) ne (some (record { config = c; ttl = t })) (s j);
  held-delete_self = λ s k. if_pos (ℕ_discrete k k) refl none (s k);
  held-delete_ne = λ s j k ne. if_neg (ℕ_discrete j k) ne none (s j);
  held-pass = λ t s k. refl;
}

abbrev nothing : memory.Store
nothing = λ _. none

-- An administrator gives the free tier fewer matches.
abbrev fewer : TierRow → TierRow
fewer t = record t { limits = limits_of (pos 5) (pos 0) (pos 3) }

abbrev free : TierRow
free = record guest_row { name = 1; limits = limits_of (pos 10) (pos 0) (pos 3) }

abbrev edited : List TierRow
edited = fewer free ∷ []

-- A caller who asks after the invalidation and before the commit puts the old limits back, and later
-- callers get them although the change is committed.
stale_after_commit :
    let s = (get_resolved_tier memory (free ∷ []) (invalidate_tier_cache memory nothing 1) 1).1 in
    matches_per_day (get_resolved_tier memory edited s 1).0 ≡ pos 10
unfolding get_resolved_tier invalidate_tier_cache resolve_row matches_per_day ℕ_discrete
stale_after_commit = refl

-- The old row is asked for, and stored late, after the invalidation.
abbrev race : List (List TierRow × Event)
race = (free ∷ [], ask 1) ∷ (free ∷ [], invalidate 1) ∷ (free ∷ [], fill 1) ∷ []

get_resolved_tier-run_events_example :
    (get_resolved_tier memory edited
      (run_events memory edited (wait 30 ∷ ask 1 ∷ wait 30 ∷ []) (run_history memory race nothing))
      1).0
    ≡ resolve_row edited 1
get_resolved_tier-run_events_example =
    get_resolved_tier-run_events memory race edited (wait 30 ∷ ask 1 ∷ wait 30 ∷ []) nothing 1 refl
      (omega arith)

seed_default_tiers-resolve_row_example :
    (row_named 1 (seed_default_tiers edited) ≡ some (fewer free))
    × (resolve_row (seed_default_tiers edited) 1 ≡ resolve_row edited 1)
    × (seed_default_tiers (seed_default_tiers edited) ≡ seed_default_tiers edited)
seed_default_tiers-resolve_row_example = seed_default_tiers-resolve_row edited 1
