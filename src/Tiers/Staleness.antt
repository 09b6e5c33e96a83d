-- ===== src/Tiers/Staleness.antt =====
-- backend/app/services/tiers.py: the cache of tiers against the rows.
use betpulse.Prelude.{
  ℕ, ◌+◌, ◌-◌, ◌≤◌, ◌≡◌, ◌⊎◌, refl, sym, ◌∙◌, ap, subst, Option, none, some, List, [], ◌∷◌, leb,
  arith, if_cases, inl, inr,
}
use native.Mathlib.Decide.{ℕ_discrete}
use betpulse.Tiers.Cache.{Config, Held, Cache, aged, config_of}
use betpulse.Tiers.Config.{TierRow, ResolvedTier}
use betpulse.Tiers.Resolve.{
  row_named, resolve_row, config, cache_ttl_seconds, get_resolved_tier, cached_or, row_or_default,
  default_resolved, fill_cache, invalidate_tier_cache,
}

-- What an entry holds is what the row of its tier says now, or it expires within `r` seconds.
abbrev pub IsFreshWithin : List TierRow → ℕ → ℕ → Option Held → Type 0
IsFreshWithin rows r name none = Unit
IsFreshWithin rows r name (some h) =
    (h.config ≡ config (resolve_row rows name)) ⊎ (1 ≤ h.ttl × h.ttl ≤ r)

-- What happens to the cache: a caller who asks for a tier, the late SET of a caller who had missed the
-- cache and read the row before, the invalidation of a tier, and the passage of seconds.
pub data Event : Type 0 where
  ask : ℕ → Event
  fill : ℕ → Event
  invalidate : ℕ → Event
  wait : ℕ → Event

abbrev pub waited : List Event → ℕ
waited [] = 0
waited (ask name ∷ events) = waited events
waited (fill name ∷ events) = waited events
waited (invalidate name ∷ events) = waited events
waited (wait t ∷ events) = t + waited events

aged-IsFreshWithin :
    (rows : List TierRow) (r t name : ℕ) (o : Option Held)
    → IsFreshWithin rows r name o
    → IsFreshWithin rows (r - t) name (aged t o)
aged-IsFreshWithin rows r t name none h = h
aged-IsFreshWithin rows r t name (some e) (inl same) =
    if_cases (IsFreshWithin rows (r - t) name) (leb e.ttl t) (λ _. tt) (λ _. inl same)
aged-IsFreshWithin rows r t name (some e) (inr (left_over, within)) =
    if_cases (IsFreshWithin rows (r - t) name) (leb e.ttl t) (λ _. tt)
      (λ kept. inr (ground (arith, kept), omega (arith, within)))

abbrev read_as : ℕ → Config → ResolvedTier
read_as name x = record { name = name; feature_flags = x.feature_flags; limits = x.limits }

row_or_default-name : (name : ℕ) (o : Option TierRow) → (row_or_default name o).name ≡ name
unfolding default_resolved
row_or_default-name name none = refl
row_or_default-name name (some t) = refl

read_as-config :
    (rows : List TierRow) (name : ℕ)
    → read_as name (config (resolve_row rows name)) ≡ resolve_row rows name
unfolding resolve_row
read_as-config rows name =
    ap (λ n. read_as n (config (resolve_row rows name)))
      (sym (row_or_default-name name (row_named name rows)))

-- An entry expires within the minute that it is stored for.
abbrev IsBounded : Option Held → Type 0
IsBounded none = Unit
IsBounded (some h) = 1 ≤ h.ttl × h.ttl ≤ 60

aged-IsBounded : (t : ℕ) (o : Option Held) → IsBounded o → IsBounded (aged t o)
aged-IsBounded t none h = h
aged-IsBounded t (some e) (left_over, within) =
    if_cases IsBounded (leb e.ttl t) (λ _. tt)
      (λ kept. (ground (arith, kept), omega (arith, within)))

IsBounded-IsFreshWithin :
    (rows : List TierRow) (name : ℕ) (o : Option Held) → IsBounded o → IsFreshWithin rows 60 name o
IsBounded-IsFreshWithin rows name none h = tt
IsBounded-IsFreshWithin rows name (some e) h = inr h

module _ (c : Cache) where
  open c use {Store, held}

  -- One event, when the rows of the tiers are `rows`; for a late SET, those that were read.
  abbrev pub step : List TierRow → Event → Store → Store
  step rows (ask name) s = (get_resolved_tier c rows s name).1
  step rows (fill name) s = fill_cache c (resolve_row rows name) s name
  step rows (invalidate name) s = invalidate_tier_cache c s name
  step rows (wait t) s = c.pass t s

  -- Events while the rows change.
  pub run_history : List (List TierRow × Event) → Store → Store
  run_history [] s = s
  run_history ((rows, e) ∷ history) s = run_history history (step rows e s)

  -- A property of the entries that a SET establishes and the lack of an entry has.
  module _ (P : ℕ → Option Held → Type 0) (k : ℕ) where
    set-keeps :
        (x : Config) (s : Store) (name : ℕ)
        → P name (some (record { config = x; ttl = cache_ttl_seconds }))
        → P k (held s k)
        → P k (held (c.set_ex cache_ttl_seconds x s name) k)
    set-keeps x s name new h = elim (ℕ_discrete k name) [
      | yes same ↦
          subst (λ j. P j (held (c.set_ex cache_ttl_seconds x s name) j)) (sym same)
            (subst (P name) (sym (c.held-set_ex_self cache_ttl_seconds x s name)) new)
      | no other ↦ subst (P k) (sym (c.held-set_ex_ne cache_ttl_seconds x s k name other)) h
    ]

    delete-keeps :
        (s : Store) (name : ℕ) → P name none → P k (held s k) → P k (held (c.delete s name) k)
    delete-keeps s name new h = elim (ℕ_discrete k name) [
      | yes same ↦
          subst (λ j. P j (held (c.delete s name) j)) (sym same)
            (subst (P name) (sym (c.held-delete_self s name)) new)
      | no other ↦ subst (P k) (sym (c.held-delete_ne s k name other)) h
    ]

    cached_or-keeps :
        (rows : List TierRow) (s : Store) (name : ℕ) (o : Option Config)
        → P name
            (some (record { config = config (resolve_row rows name); ttl = cache_ttl_seconds }))
        → P k (held s k)
        → P k (held (cached_or c rows s name o).1 k)
    cached_or-keeps rows s name (some found) new h = h
    cached_or-keeps rows s name none new h = set-keeps (config (resolve_row rows name)) s name new h

  step-IsBounded :
      (rows : List TierRow) (e : Event) (s : Store) (k : ℕ)
      → IsBounded (held s k)
      → IsBounded (held (step rows e s) k)
  unfolding get_resolved_tier invalidate_tier_cache
  step-IsBounded rows (ask name) s k h =
      cached_or-keeps (λ _. IsBounded) k rows s name (c.get s name) (omega arith, omega arith) h
  step-IsBounded rows (fill name) s k h =
      set-keeps (λ _. IsBounded) k (config (resolve_row rows name)) s name
        (omega arith, omega arith) h
  step-IsBounded rows (invalidate name) s k h = delete-keeps (λ _. IsBounded) k s name tt h
  step-IsBounded rows (wait t) s k h =
      subst IsBounded (sym (c.held-pass t s k)) (aged-IsBounded t (held s k) h)

  run_history-IsBounded :
      (history : List (List TierRow × Event)) (s : Store) (k : ℕ)
      → IsBounded (held s k)
      → IsBounded (held (run_history history s) k)
  unfolding run_history
  run_history-IsBounded [] s k h = h
  run_history-IsBounded ((rows, e) ∷ history) s k h =
      run_history-IsBounded history (step rows e s) k (step-IsBounded rows e s k h)

  module _ (rows : List TierRow) where
    pub run_events : List Event → Store → Store
    run_events [] s = s
    run_events (e ∷ events) s = run_events events (step rows e s)

    run_events-held :
        (events : List Event) (s : Store) (r k : ℕ)
        → IsFreshWithin rows r k (held s k)
        → IsFreshWithin rows (r - waited events) k (held (run_events events s) k)
    unfolding run_events get_resolved_tier invalidate_tier_cache
    run_events-held [] s r k h = subst (λ n. IsFreshWithin rows n k (held s k)) (omega arith) h
    run_events-held (ask name ∷ events) s r k h =
        run_events-held events (get_resolved_tier c rows s name).1 r k
          (cached_or-keeps (IsFreshWithin rows r) k rows s name (c.get s name) (inl refl) h)
    run_events-held (fill name ∷ events) s r k h =
        run_events-held events (step rows (fill name) s) r k
          (set-keeps (IsFreshWithin rows r) k (config (resolve_row rows name)) s name (inl refl) h)
    run_events-held (invalidate name ∷ events) s r k h =
        run_events-held events (step rows (invalidate name) s) r k
          (delete-keeps (IsFreshWithin rows r) k s name tt h)
    run_events-held (wait t ∷ events) s r k h =
        let later =
          subst (IsFreshWithin rows (r - t) k) (sym (c.held-pass t s k))
            (aged-IsFreshWithin rows r t k (held s k) h) in
        subst (λ n. IsFreshWithin rows n k (held (run_events events (c.pass t s)) k)) (omega arith)
          (run_events-held events (c.pass t s) (r - t) k later)

    -- A read of an entry that holds what the row says.
    fresh_lem :
        (s : Store) (name : ℕ) (o : Option Held)
        → IsFreshWithin rows 0 name o
        → (cached_or c rows s name (config_of o)).0 ≡ resolve_row rows name
    fresh_lem s name none h = refl
    fresh_lem s name (some e) (inl same) = ap (read_as name) same ∙ read_as-config rows name
    fresh_lem s name (some e) (inr (left_over, within)) = absurd (omega (arith, left_over, within))

  -- From an empty cache, whatever rows the tiers had, and whoever asked, filled the cache late with a
  -- row read before, or invalidated it: once the rows of the tiers are committed and the last row read
  -- before that is stored, 60 seconds later, and ever after until the next change, every caller gets
  -- the flags and limits that the row of the tier says, or the defaults without a row, whoever asked
  -- for which tiers in between.
  pub get_resolved_tier-run_events :
      (history : List (List TierRow × Event)) (rows : List TierRow) (events : List Event)
      (s : Store) (name : ℕ)
      → held s name ≡ none
      → 60 ≤ waited events
      → (get_resolved_tier c rows (run_events rows events (run_history history s)) name).0
        ≡ resolve_row rows name
  unfolding get_resolved_tier
  get_resolved_tier-run_events history rows events s name empty over =
      let before = run_history history s in
      let s' = run_events rows events before in
      let bounded : IsBounded (held before name) =
        run_history-IsBounded history s name (subst IsBounded (sym empty) tt) in
      let fresh =
        subst (λ n. IsFreshWithin rows n name (held s' name)) (omega (arith, over))
          (run_events-held rows events before 60 name
            (IsBounded-IsFreshWithin rows name (held before name) bounded)) in
      ap (λ o. (cached_or c rows s' name o).0) (c.get_lem s' name)
      ∙ fresh_lem rows s' name (held s' name) fresh
