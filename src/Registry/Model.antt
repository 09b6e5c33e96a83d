-- ===== src/Registry/Model.antt =====
-- The tables model_registry and model_registry_snapshots, as lists of rows, and the audit events.
-- Methods and versions are texts that are only compared, so they are numbers.
use betpulse.Prelude.{ℕ, Bool, true, false, Option, List}
use betpulse.Registry.Numbers.{Numbers}

pub data ModelStatus : Type 0 where
  challenger champion retired : ModelStatus

abbrev pub is_champion_status : ModelStatus → Bool
is_champion_status challenger = false
is_champion_status champion = true
is_champion_status retired = false

module _ (n : Numbers) where
  open n use {F, D}

  pub record Row : Type 0 where
    pub id : ℕ
    pub method : ℕ
    pub version : ℕ
    pub mlflow_run_id : Option ℕ
    pub accuracy_pct : Option D
    pub brier : Option D
    pub log_loss : Option D
    pub roi_vs_closing : Option D
    pub sample_count : ℕ
    pub status : ModelStatus
    pub is_enabled : Bool
    pub is_visible : Bool
    pub display_weight : D
    pub min_samples : ℕ
    pub last_trained_at : Option ℕ
    pub last_evaluated_at : Option ℕ
    pub notes : Option ℕ

  -- MethodMetrics
  pub record Metrics : Type 0 where
    pub accuracy_pct : F
    pub brier : F
    pub log_loss : F
    pub roi_vs_closing : F
    pub sample_count : ℕ
    pub version : Option ℕ

  -- An item of a snapshot's payload; the decimals are floats there.
  pub record Item : Type 0 where
    pub method : ℕ
    pub version : ℕ
    pub mlflow_run_id : Option ℕ
    pub accuracy_pct : Option F
    pub brier : Option F
    pub log_loss : Option F
    pub roi_vs_closing : Option F
    pub sample_count : ℕ
    pub status : ModelStatus
    pub is_enabled : Bool
    pub is_visible : Bool
    pub display_weight : F
    pub min_samples : ℕ
    pub notes : Option ℕ

  pub data Event : Type 0 where
    champion_promoted : ℕ → Event
    champion_demoted : ℕ → Event
    registry_rollback : ℕ → Event

  pub record Snapshot : Type 0 where
    pub id : ℕ
    pub payload : List Item

  pub record Registry : Type 0 where
    pub rows : List Row
    pub snapshots : List Snapshot
    pub events : List Event
