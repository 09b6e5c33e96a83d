-- ===== src/Tiers/Resolve.antt =====
-- backend/app/services/tiers.py: the rows of tiers, their seeding and their resolution, and the change
-- of a tier in api/admin.py, whose transaction commits after the cache is invalidated.
use betpulse.Prelude.{
  ℕ, Option, none, some, List, [], ◌∷◌, ◌==◌, find, is_some, update_where, if◌then◌else◌,
}
use betpulse.Promo.Model.{Subscription}
use betpulse.Tiers.{Tier, grants, highest, name_and_expiry}
use betpulse.Tiers.Cache.{Config, Cache}
use betpulse.Tiers.Config.{TierRow, ResolvedTier, guest, guest_row, default_tiers}

abbrev pub row_named : ℕ → List TierRow → Option TierRow
row_named name rows = find (λ t. t.name == name) rows

-- INSERT … ON CONFLICT (name) DO NOTHING
abbrev pub insert_missing : TierRow → List TierRow → List TierRow
insert_missing d rows = if is_some (row_named d.name rows) then rows else d ∷ rows

abbrev pub insert_all : List TierRow → List TierRow → List TierRow
insert_all [] rows = rows
insert_all (d ∷ ds) rows = insert_all ds (insert_missing d rows)

unfoldable pub seed_default_tiers : List TierRow → List TierRow
seed_default_tiers rows = insert_all default_tiers rows

abbrev pub row_or_guest : Option TierRow → TierRow
row_or_guest none = guest_row
row_or_guest (some d) = d

abbrev pub resolved : ℕ → TierRow → ResolvedTier
resolved name t = record { name = name; feature_flags = t.feature_flags; limits = t.limits }

unfoldable pub default_resolved : ℕ → ResolvedTier
default_resolved name = resolved name (row_or_guest (row_named name default_tiers))

abbrev pub row_or_default : ℕ → Option TierRow → ResolvedTier
row_or_default name none = default_resolved name
row_or_default name (some t) = resolved name t

-- The read of the row, with the fallback.
unfoldable pub resolve_row : List TierRow → ℕ → ResolvedTier
resolve_row rows name = row_or_default name (row_named name rows)

abbrev pub cache_ttl_seconds : ℕ
cache_ttl_seconds = 60

abbrev pub config : ResolvedTier → Config
config t = record { feature_flags = t.feature_flags; limits = t.limits }

module _ (c : Cache) where
  open c use {Store, get, set_ex, delete}

  -- The SET, which follows the read of the row as a step of its own.
  abbrev pub fill_cache : ResolvedTier → Store → ℕ → Store
  fill_cache t s name = set_ex cache_ttl_seconds (config t) s name

  abbrev pub cached_or : List TierRow → Store → ℕ → Option Config → ResolvedTier × Store
  cached_or rows s name (some found) =
      (record { name = name; feature_flags = found.feature_flags; limits = found.limits }, s)
  cached_or rows s name none = let t = resolve_row rows name in (t, fill_cache t s name)

  unfoldable pub get_resolved_tier : List TierRow → Store → ℕ → ResolvedTier × Store
  get_resolved_tier rows s name = cached_or rows s name (get s name)

  unfoldable pub invalidate_tier_cache : Store → ℕ → Store
  invalidate_tier_cache s name = delete s name

  -- `update_tier` up to the commit: the rows to be committed, and the cache. The name of a tier is no
  -- field of the change.
  unfoldable pub update_tier :
      (TierRow → TierRow) → List TierRow → Store → ℕ → Option (List TierRow × Store)
  update_tier change rows s name =
      if is_some (row_named name rows)
      then some (update_where (λ t. t.name == name) change rows, invalidate_tier_cache s name)
      else none

  -- The user's id and the tier of its row; `none` is an anonymous caller.
  unfoldable pub resolve_effective_tier_name :
      List Tier → List Subscription → ℕ → Option (ℕ × ℕ) → ℕ
  resolve_effective_tier_name tiers subs now none = guest
  resolve_effective_tier_name tiers subs now (some (user, base)) =
      (name_and_expiry base (highest (grants tiers user now subs))).0

  unfoldable pub resolve_tier_context :
      List Tier
      → List Subscription
      → List TierRow
      → ℕ
      → Store
      → Option (ℕ × ℕ)
      → ResolvedTier × Store
  resolve_tier_context tiers subs rows now s user =
      get_resolved_tier rows s (resolve_effective_tier_name tiers subs now user)
