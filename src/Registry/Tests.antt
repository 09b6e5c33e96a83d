-- ===== src/Registry/Tests.antt =====
-- The theorems on the registry at concrete inputs, with natural numbers for floats and Decimals.
use betpulse.Prelude.{
  ℕ, suc, ◌+◌, ◌*◌, ◌-◌, ◌/◌, ◌≡◌, ◌⊎◌, refl, true, false, some, none, [], ◌∷◌, ◌==◌, ltb, arith,
  All,
}
use betpulse.Registry.Numbers.{Numbers}
use betpulse.Registry.Model.{Row, Metrics, Registry, ModelStatus, champion, challenger}
use betpulse.Registry.Selection.{
  Evaluation, apply_champion_selection, rows_for, winner_of, incumbent_of, best_of, beats,
}
use betpulse.Registry.Rule.{IsOrdered, Among, is_defended, winner_rule}
use betpulse.Registry.Champion.{rollback_to_snapshot, RollbackResult, row_to_item}
use betpulse.Registry.Rollback.{OnlyTitle, rollback-OnlyTitle}
use betpulse.Registry.Crown.{Settled, apply_champion_selection-Settled}

abbrev naturals : Numbers
naturals = record {
  F = ℕ;
  lt = ltb;
  eq = λ a b. a == b;
  is_finite = λ _. true;
  add = λ a b. a + b;
  sub = λ a b. a - b;
  mul = λ a b. a * b;
  div = λ a b. a / b;
  abs = λ a. a;
  exp = λ a. suc a;
  round = λ a _. a;
  zero = 0;
  ten = 10;
  hundred = 100;
  tolerance = 0;
  hundredth = 0;
  D = ℕ;
  decimal = λ a. a;
  float = λ a. a;
  zero_decimal = 0;
}

naturals-IsOrdered : IsOrdered naturals
naturals-IsOrdered = record {
  eq_lem = λ a b _ _. ground arith;
  lt_asym = λ a b l. ground arith;
  lt_cotrans = λ a b c _ _ _ l. ground arith;
}

abbrev row : ℕ → ℕ → ModelStatus → Row naturals
row id method status = record {
  id = id;
  method = method;
  version = 1;
  mlflow_run_id = none;
  accuracy_pct = some 50;
  brier = none;
  log_loss = none;
  roi_vs_closing = none;
  sample_count = 100;
  status = status;
  is_enabled = true;
  is_visible = true;
  display_weight = 0;
  min_samples = 300;
  last_trained_at = none;
  last_evaluated_at = none;
  notes = none;
}

abbrev registry : Registry naturals
registry = record {
  rows = row 1 10 champion ∷ row 2 20 challenger ∷ [];
  snapshots = [];
  events = [];
}

abbrev metrics_of : ℕ → Metrics naturals
metrics_of brier = record {
  accuracy_pct = 55;
  brier = brier;
  log_loss = 900;
  roi_vs_closing = 0;
  sample_count = 400;
  version = none;
}

-- The challenger is better by 20.
abbrev evaluation : Evaluation naturals
evaluation = (10, metrics_of 220) ∷ (20, metrics_of 200) ∷ []

apply_champion_selection-Settled_example :
    Settled naturals
      (rows_for naturals registry.rows evaluation)
      registry
      (apply_champion_selection naturals evaluation true 300 5 1000 1 registry)
apply_champion_selection-Settled_example =
    apply_champion_selection-Settled naturals evaluation true 300 5 1000 1 registry

winner_rule_example :
    let winner =
      winner_of naturals 5
        (incumbent_of naturals registry.rows evaluation)
        (best_of naturals (10, metrics_of 220) ((20, metrics_of 200) ∷ [])) in
    let defended =
      is_defended naturals 5
        (incumbent_of naturals registry.rows evaluation)
        (best_of naturals (10, metrics_of 220) ((20, metrics_of 200) ∷ [])) in
    Among naturals (best_of naturals (10, metrics_of 220) ((20, metrics_of 200) ∷ [])) evaluation
    × All
        (λ c.
          beats naturals c (best_of naturals (10, metrics_of 220) ((20, metrics_of 200) ∷ []))
          ≡ false)
        evaluation
    × (((winner ≡ best_of naturals (10, metrics_of 220) ((20, metrics_of 200) ∷ []))
          × (defended ≡ false))
        ⊎ ((incumbent_of naturals registry.rows evaluation ≡ some winner) × (defended ≡ true)))
winner_rule_example =
    winner_rule naturals naturals-IsOrdered 5 registry.rows (10, metrics_of 220)
      ((20, metrics_of 200) ∷ []) ((refl, refl), ((refl, refl), tt))

-- The registry with a snapshot of itself, after a change of champion.
abbrev promoted : Registry naturals
promoted = record {
  rows = row 1 10 challenger ∷ row 2 20 champion ∷ [];
  snapshots =
      record {
        id = 7;
        payload =
            row_to_item naturals (row 1 10 champion)
            ∷ row_to_item naturals (row 2 20 challenger)
            ∷ [];
      }
      ∷ [];
  events = [];
}

abbrev registry_of : RollbackResult naturals → Registry naturals
registry_of (RollbackResult.ok reg) = reg
registry_of (RollbackResult.err _) = promoted

abbrev rolled_back : Registry naturals
rolled_back = registry_of (rollback_to_snapshot naturals 7 promoted)

rollback-OnlyTitle_example : OnlyTitle naturals (some 1) rolled_back.rows
unfolding rollback_to_snapshot row_to_item
rollback-OnlyTitle_example =
    rollback-OnlyTitle naturals 7 promoted rolled_back
      (record {
        id = 7;
        payload =
            row_to_item naturals (row 1 10 champion)
            ∷ row_to_item naturals (row 2 20 challenger)
            ∷ [];
      })
      refl (refl, (refl, tt)) refl
