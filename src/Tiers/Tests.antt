-- ===== src/Tiers/Tests.antt =====
-- The theorem on tiers at a concrete input: a user with the top tier for ever is given a lower one.
use betpulse.Prelude.{ℕ, ◌+◌, ◌≤◌, ◌≡◌, All, true, refl, some, none, List, [], ◌∷◌}
use betpulse.Promo.Model.{Source, Subscription}
use betpulse.Tiers.{Tier, Grant, IsGranted, is_not_above, assign_tier, assign_tier-resolves}

abbrev tier : ℕ → Tier
tier k = record { id = k; name = 10 + k; sort_order = k }

abbrev held : List Subscription
held = record { user_id = 5; tier_id = 3; source = Source.payment; expires_at = none } ∷ []

assign_tier-resolves_example :
    let (effective, subs) =
      assign_tier (tier 1 ∷ tier 2 ∷ tier 3 ∷ []) held 5 11 (tier 2) (some 900) 100 in
    (best : Grant) × (effective ≡ (best.0.name, best.1))
    × IsGranted (tier 1 ∷ tier 2 ∷ tier 3 ∷ []) 5 100 best subs
    × (2 ≤ best.0.sort_order)
    × All (λ s. is_not_above (tier 1 ∷ tier 2 ∷ tier 3 ∷ []) 5 100 best.0.sort_order s ≡ true) subs
assign_tier-resolves_example =
    assign_tier-resolves (tier 1 ∷ tier 2 ∷ tier 3 ∷ []) held 5 11 100 (tier 2) (some 900) refl refl
