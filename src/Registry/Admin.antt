-- ===== src/Registry/Admin.antt =====
-- backend/app/services/model_admin.py: the weighting mode, manual weights, manual promotion and
-- demotion, and the preview of a rollback. Each write takes the registry lock first; `locked` says
-- whether it was granted within the timeout (ml/registry_lock.py), RegistryBusy if not.
use betpulse.Prelude.{
  ℕ, Bool, true, false, Option, none, some, List, [], ◌∷◌, ◌++◌, ◌==◌, ◌&&◌, ◌||◌, not, ltb, map,
  find, is_some, update_where, if◌then◌else◌,
}
use betpulse.Registry.Numbers.{Numbers}
use betpulse.Registry.Model.{
  ModelStatus, challenger, champion, retired, Row, Item, champion_demoted, Registry,
}
use betpulse.Registry.Champion.{
  snapshot_registry, transfer_title, is_champion, set_status, row_of_item,
}
use betpulse.Registry.Selection.{lookup, put, softmax_weights, sum_from, weight_or_zero}

pub data WeightingMode : Type 0 where
  auto manual : WeightingMode

pub data AdminResult (A : Type 0) : Type 0 where
  ok : A → AdminResult A
  registry_busy : AdminResult A
  not_manual_mode : AdminResult A
  weights_invalid : AdminResult A

abbrev pub is_manual : WeightingMode → Bool
is_manual auto = false
is_manual manual = true

-- The singleton row, `none` until it is first needed: `get_weighting` inserts it in auto mode.
abbrev pub get_weighting : Option WeightingMode → WeightingMode
get_weighting none = auto
get_weighting (some m) = m

module _ (n : Numbers) where
  open n use {F, D, decimal, float, lt, sub, abs, round, zero, hundred, tolerance, hundredth}

  pub record Admin : Type 0 where
    pub weighting : Option WeightingMode
    pub registry : Registry n

  -- {r.method: float(r.accuracy_pct) for r in rows if r.is_visible and …}: a later row of a method
  -- replaces an earlier one.
  abbrev pub add_accuracy : ℕ → Option D → List (ℕ × F) → List (ℕ × F)
  add_accuracy method none acc = acc
  add_accuracy method (some a) acc = put method (float a) acc

  unfoldable pub visible_accuracies : List (Row n) → List (ℕ × F) → List (ℕ × F)
  visible_accuracies [] acc = acc
  visible_accuracies (r ∷ rows) acc =
      visible_accuracies rows
        (if r.is_visible then add_accuracy r.method r.accuracy_pct acc else acc)

  abbrev pub set_weight : List (ℕ × F) → Row n → Row n
  set_weight weights r = record r { display_weight = weight_or_zero n (lookup r.method weights) }

  unfoldable pub recompute_auto_weights : List (Row n) → List (Row n)
  recompute_auto_weights rows =
      map (set_weight (softmax_weights n (visible_accuracies rows []))) rows

  abbrev pub with_rows : List (Row n) → Admin → Admin
  with_rows rows a = record a {
    registry = record { rows = rows; snapshots = a.registry.snapshots; events = a.registry.events };
  }

  abbrev pub after_mode : WeightingMode → Admin → Admin
  after_mode auto a = with_rows (recompute_auto_weights a.registry.rows) a
  after_mode manual a = a

  unfoldable pub set_weighting_mode : Bool → WeightingMode → Admin → AdminResult Admin
  set_weighting_mode locked mode a =
      if locked then ok (after_mode mode (record a { weighting = some mode })) else registry_busy

  abbrev pub set_manual : Option F → Row n → Row n
  set_manual none r = r
  set_manual (some w) r = record r { display_weight = decimal (round w 2) }

  abbrev pub manual_weight : List (ℕ × F) → Row n → Row n
  manual_weight weights r = set_manual (lookup r.method weights) r

  unfoldable pub set_manual_weights : Bool → List (ℕ × F) → Admin → AdminResult Admin
  set_manual_weights locked weights a =
      if not locked
      then registry_busy
      else if not (is_manual (get_weighting a.weighting))
      then not_manual_mode
      else if lt tolerance (abs (sub (sum_from n zero weights) hundred))
      then weights_invalid
      else ok (
          with_rows (map (manual_weight weights) a.registry.rows)
            (record a { weighting = some (get_weighting a.weighting) }))

  -- PromoteResult: promoted, with or without the warning `below_min_samples`.
  abbrev pub below_min_samples : Row n → Bool
  below_min_samples r = ltb r.sample_count r.min_samples || not (is_some r.accuracy_pct)

  abbrev pub promote_found : Option (Row n) → ℕ → Registry n → Option Bool × Registry n
  promote_found none snapshot_id reg = (none, reg)
  promote_found (some r) snapshot_id reg = (
    some (below_min_samples r),
    transfer_title n r.id r.method (snapshot_registry n snapshot_id reg),
  )

  -- `None` for an unknown row; else whether the warning is given.
  unfoldable pub promote : Bool → ℕ → ℕ → Registry n → AdminResult (Option Bool × Registry n)
  promote locked row_id snapshot_id reg =
      if locked
      then ok (promote_found (find (λ r. r.id == row_id) reg.rows) snapshot_id reg)
      else registry_busy

  abbrev pub demote_found : Option (Row n) → ℕ → Registry n → Bool × Registry n
  demote_found none snapshot_id reg = (false, reg)
  demote_found (some r) snapshot_id reg =
      if is_champion n r
      then (
        true,
        let reg' = snapshot_registry n snapshot_id reg in
            record reg' {
              rows = update_where (λ x. x.id == r.id) (set_status n challenger) reg'.rows;
              events = reg'.events ++ (champion_demoted r.method ∷ []);
            },
      )
      else (true, reg)

  unfoldable pub demote : Bool → ℕ → ℕ → Registry n → AdminResult (Bool × Registry n)
  demote locked row_id snapshot_id reg =
      if locked
      then ok (demote_found (find (λ r. r.id == row_id) reg.rows) snapshot_id reg)
      else registry_busy

  -- `rollback_diff`: the items that would change their row.
  abbrev pub same_status : ModelStatus → ModelStatus → Bool
  same_status challenger challenger = true
  same_status champion champion = true
  same_status retired retired = true
  same_status _ _ = false

  abbrev pub same_bool : Bool → Bool → Bool
  same_bool true b = b
  same_bool false b = not b

  abbrev pub is_unchanged : Item n → Row n → Bool
  is_unchanged i r =
      same_status r.status i.status
      && (lt (abs (sub (float r.display_weight) i.display_weight)) hundredth
          && (same_bool r.is_enabled i.is_enabled && same_bool r.is_visible i.is_visible))

  abbrev pub change : Item n → Option (Row n) → List (Row n × Item n)
  change i none = []
  change i (some r) = if is_unchanged i r then [] else (r, i) ∷ []

  unfoldable pub changes : List (Item n) → List (Row n) → List (Row n × Item n)
  changes [] rows = []
  changes (i ∷ items) rows = change i (row_of_item n rows i) ++ changes items rows

  unfoldable pub rollback_diff : ℕ → Registry n → Option (List (Row n × Item n))
  rollback_diff id reg = elim (find (λ s. s.id == id) reg.snapshots) [
    | none ↦ none
    | some s ↦ some (changes s.payload reg.rows)
  ]
