-- ===== src/Registry/Champion.antt =====
-- The title of champion: `snapshot_registry`, `demote_champions`, the promotion that follows it, and
-- `rollback_to_snapshot`. Python's row objects are identified by their primary key.
use betpulse.Prelude.{
  ℕ, Bool, Option, none, some, List, [], ◌∷◌, ◌++◌, ◌==◌, ◌&&◌, not, ltb, length, map, select, find,
  is_some_eq, update_where, if◌then◌else◌,
}
use betpulse.Registry.Numbers.{Numbers}
use betpulse.Registry.Model.{
  ModelStatus, challenger, champion, is_champion_status, Row, Item, Event, champion_demoted,
  champion_promoted, registry_rollback, Snapshot, Registry,
}

-- `Decimal | None` to `float | None`, and back.
abbrev pub map_option : {A B : Type 0} → (A → B) → Option A → Option B
map_option f none = none
map_option f (some a) = some (f a)

module _ (n : Numbers) where
  open n use {F, D, decimal, float}

  -- `_row_to_dict`
  unfoldable pub row_to_item : Row n → Item n
  row_to_item r = record {
    method = r.method;
    version = r.version;
    mlflow_run_id = r.mlflow_run_id;
    accuracy_pct = map_option float r.accuracy_pct;
    brier = map_option float r.brier;
    log_loss = map_option float r.log_loss;
    roi_vs_closing = map_option float r.roi_vs_closing;
    sample_count = r.sample_count;
    status = r.status;
    is_enabled = r.is_enabled;
    is_visible = r.is_visible;
    display_weight = float r.display_weight;
    min_samples = r.min_samples;
    notes = r.notes;
  }

  -- `snapshot_registry`; the identifier is the one that the database gives the new row.
  unfoldable pub snapshot_registry : ℕ → Registry n → Registry n
  snapshot_registry id reg = record reg {
    snapshots = record { id = id; payload = map (row_to_item) reg.rows } ∷ reg.snapshots;
  }

  abbrev pub is_champion : Row n → Bool
  is_champion r = is_champion_status r.status

  -- `r.status == champion and r is not keep`
  abbrev pub is_demoted : Option ℕ → Row n → Bool
  is_demoted keep r = is_champion r && not (is_some_eq keep r.id)

  abbrev pub set_status : ModelStatus → Row n → Row n
  set_status s r = record r { status = s }

  -- `demote_champions`, whose flush leaves these rows in the database.
  unfoldable pub demote_champions : Option ℕ → List (Row n) → List (Row n)
  demote_champions keep rows = update_where (is_demoted keep) (set_status challenger) rows

  -- The rows that it returns.
  unfoldable pub demoted_rows : Option ℕ → List (Row n) → List (Row n)
  demoted_rows keep rows = select (is_demoted keep) rows

  -- `row.status = champion`
  unfoldable pub promote_row : ℕ → List (Row n) → List (Row n)
  promote_row id rows = update_where (λ r. r.id == id) (set_status champion) rows

  abbrev pub demotion : Row n → Event n
  demotion r = champion_demoted r.method

  -- Old champions first, then the new one, with an audit event for each.
  unfoldable pub transfer_title : ℕ → ℕ → Registry n → Registry n
  transfer_title id method reg = record reg {
    rows = promote_row id (demote_champions (some id) reg.rows);
    events =
        reg.events
        ++ (map demotion (demoted_rows (some id) reg.rows) ++ (champion_promoted method ∷ []));
  }

  -- Rollback.
  abbrev pub same_key : Item n → Row n → Bool
  same_key i r = r.method == i.method && r.version == i.version

  -- `by_key.get((item.method, item.version))`
  abbrev pub row_of_item : List (Row n) → Item n → Option (Row n)
  row_of_item rows i = find (same_key i) rows

  abbrev pub champion_ids : List (Row n) → List (Item n) → List ℕ
  champion_ids rows [] = []
  champion_ids rows (i ∷ items) =
      if is_champion_status i.status
      then (elim (row_of_item rows i) [
        | none ↦ champion_ids rows items
        | some r ↦ r.id ∷ champion_ids rows items
      ])
      else champion_ids rows items

  abbrev pub restored : Item n → Row n → Row n
  restored i r = record r {
    status = i.status;
    is_enabled = i.is_enabled;
    is_visible = i.is_visible;
    display_weight = decimal i.display_weight;
    accuracy_pct = map_option decimal i.accuracy_pct;
  }

  unfoldable pub restore_items : List (Item n) → List (Row n) → List (Row n)
  restore_items [] rows = rows
  restore_items (i ∷ items) rows = restore_items items (update_where (same_key i) (restored i) rows)

  pub data RollbackError : Type 0 where
    snapshot_not_found : RollbackError
    snapshot_has_many_champions : RollbackError

  pub data RollbackResult : Type 0 where
    ok : Registry n → RollbackResult
    err : RollbackError → RollbackResult

  abbrev pub head : List ℕ → Option ℕ
  head [] = none
  head (x ∷ xs) = some x

  unfoldable pub rollback_rows : List (Item n) → List (Row n) → List (Row n)
  rollback_rows payload rows =
      restore_items payload (demote_champions (head (champion_ids rows payload)) rows)

  abbrev pub apply_snapshot : Snapshot n → Registry n → RollbackResult
  apply_snapshot s reg =
      if ltb 1 (length (champion_ids reg.rows s.payload))
      then err snapshot_has_many_champions
      else ok (record reg {
        rows = rollback_rows s.payload reg.rows;
        events = reg.events ++ (registry_rollback s.id ∷ []);
      })

  unfoldable pub rollback_to_snapshot : ℕ → Registry n → RollbackResult
  rollback_to_snapshot id reg = elim (find (λ s. s.id == id) reg.snapshots) [
    | none ↦ err snapshot_not_found
    | some s ↦ apply_snapshot s reg
  ]
