-- ===== src/Registry/Selection.antt =====
-- `upsert_run`, `latest_row_per_method`, `_rows_for` and `apply_champion_selection`. A dict is a list
-- of its items in insertion order.
use betpulse.Prelude.{
  ℕ, Bool, true, false, Option, none, some, List, [], ◌∷◌, ◌==◌, ◌&&◌, ◌||◌, ltb, leb, map, select,
  find, is_some, update_where, contains, if◌then◌else◌,
}
use betpulse.Registry.Numbers.{Numbers}
use betpulse.Registry.Model.{challenger, Row, Metrics, Registry}
use betpulse.Registry.Champion.{snapshot_registry, transfer_title, is_champion}

-- `d.get(key)`
abbrev pub lookup : {A : Type 0} → ℕ → List (ℕ × A) → Option A
lookup k [] = none
lookup k ((j, a) ∷ d) = if j == k then some a else lookup k d

-- `d[key] = a`
abbrev pub put : {A : Type 0} → ℕ → A → List (ℕ × A) → List (ℕ × A)
put k a [] = (k, a) ∷ []
put k a ((j, b) ∷ d) = if j == k then (j, a) ∷ d else (j, b) ∷ put k a d

-- `row.last_trained_at or epoch`: no training is before every instant.
abbrev pub trained : Option ℕ → ℕ
trained none = 0
trained (some t) = t

-- `(a.last_trained_at or epoch, a.version) > (b.last_trained_at or epoch, b.version)`
abbrev pub later : ℕ → ℕ → ℕ → ℕ → Bool
later t v t' v' = ltb t' t || (t' == t && ltb v' v)

module _ (n : Numbers) where
  open n use {
    F, D, decimal, is_finite, lt, eq, sub, add, mul, div, exp, round, zero, ten, hundred,
    zero_decimal,
  }

  -- INSERT … ON CONFLICT (method, version) DO UPDATE; `id` is the new row's.
  unfoldable pub upsert_run : ℕ → ℕ → ℕ → Option ℕ → ℕ → ℕ → ℕ → List (Row n) → List (Row n)
  upsert_run id method version run sample_count min_samples now [] =
      record {
        id = id;
        method = method;
        version = version;
        mlflow_run_id = run;
        accuracy_pct = none;
        brier = none;
        log_loss = none;
        roi_vs_closing = none;
        sample_count = sample_count;
        status = challenger;
        is_enabled = true;
        is_visible = true;
        display_weight = zero_decimal;
        min_samples = min_samples;
        last_trained_at = some now;
        last_evaluated_at = none;
        notes = none;
      }
      ∷ []
  upsert_run id method version run sample_count min_samples now (r ∷ rows) =
      if r.method == method && r.version == version
      then record r { mlflow_run_id = run; sample_count = sample_count; last_trained_at = some now }
        ∷ rows
      else r ∷ upsert_run id method version run sample_count min_samples now rows

  abbrev pub is_newer : Row n → Row n → Bool
  is_newer a b = later (trained a.last_trained_at) a.version (trained b.last_trained_at) b.version

  -- One round of the loop: `current is None or row is newer`.
  abbrev pub keep_newer : Row n → Option (Row n) → List (ℕ × Row n) → List (ℕ × Row n)
  keep_newer row none out = put row.method row out
  keep_newer row (some current) out = if is_newer row current then put row.method row out else out

  unfoldable pub latest_from : List (Row n) → List (ℕ × Row n) → List (ℕ × Row n)
  latest_from [] out = out
  latest_from (row ∷ rows) out = latest_from rows (keep_newer row (lookup row.method out) out)

  unfoldable pub latest_row_per_method : List (Row n) → List (ℕ × Row n)
  unfolding latest_from
  latest_row_per_method rows = latest_from rows []

  abbrev pub Evaluation : Type 0
  Evaluation = List (ℕ × Metrics n)

  abbrev pub is_version_of : ℕ → ℕ → Row n → Bool
  is_version_of method version r = r.method == method && r.version == version

  abbrev pub row_for : List (Row n) → List (ℕ × Row n) → ℕ → Option ℕ → Option (Row n)
  row_for all_rows latest method none = lookup method latest
  row_for all_rows latest method (some version) = find (is_version_of method version) all_rows

  abbrev pub cons_found : ℕ → Option (Row n) → List (ℕ × ℕ) → List (ℕ × ℕ)
  cons_found method none rest = rest
  cons_found method (some r) rest = (method, r.id) ∷ rest

  abbrev pub rows_for_from : List (Row n) → List (ℕ × Row n) → Evaluation → List (ℕ × ℕ)
  rows_for_from all_rows latest [] = []
  rows_for_from all_rows latest ((method, m) ∷ ms) =
      cons_found method (row_for all_rows latest method m.version)
        (rows_for_from all_rows latest ms)

  -- `_rows_for`: each method's row, by its identifier.
  unfoldable pub rows_for : List (Row n) → Evaluation → List (ℕ × ℕ)
  rows_for all_rows metrics = rows_for_from all_rows (latest_row_per_method all_rows) metrics

  -- `_decimal`
  abbrev pub to_decimal : F → ℕ → Option D
  to_decimal value digits = if is_finite value then some (decimal (round value digits)) else none

  abbrev pub evaluated : Metrics n → ℕ → Row n → Row n
  evaluated m now r = record r {
    accuracy_pct = to_decimal m.accuracy_pct 2;
    brier = to_decimal m.brier 6;
    log_loss = to_decimal m.log_loss 6;
    roi_vs_closing = to_decimal m.roi_vs_closing 4;
    sample_count = m.sample_count;
    last_evaluated_at = some now;
  }

  abbrev pub store_one : Option ℕ → Metrics n → ℕ → List (Row n) → List (Row n)
  store_one none m now rows = rows
  store_one (some id) m now rows = update_where (λ r. r.id == id) (evaluated m now) rows

  unfoldable pub store_metrics : List (ℕ × ℕ) → Evaluation → ℕ → List (Row n) → List (Row n)
  store_metrics of_method [] now rows = rows
  store_metrics of_method ((method, m) ∷ ms) now rows =
      store_metrics of_method ms now (store_one (lookup method of_method) m now rows)

  -- `_finite`
  abbrev pub all_finite : Metrics n → Bool
  all_finite m =
      is_finite m.brier
      && (is_finite m.log_loss && (is_finite m.accuracy_pct && is_finite m.roi_vs_closing))

  abbrev pub enabled_row : Option (Row n) → Bool
  enabled_row none = false
  enabled_row (some r) = r.is_enabled

  -- `rows.get(method)`, read from the table.
  abbrev pub row_by : List (ℕ × ℕ) → List (Row n) → ℕ → Option (Row n)
  row_by of_method rows method = elim (lookup method of_method) [
    | none ↦ none
    | some id ↦ find (λ r. r.id == id) rows
  ]

  abbrev pub is_eligible : List (ℕ × ℕ) → List (Row n) → ℕ → ℕ × Metrics n → Bool
  is_eligible of_method rows min_samples (method, m) =
      enabled_row (row_by of_method rows method) && (all_finite m && leb min_samples m.sample_count)

  -- The key of `min`: (brier, log_loss, name), compared in that order.
  unfoldable pub beats : ℕ × Metrics n → ℕ × Metrics n → Bool
  beats (j, a) (k, b) =
      if eq a.brier b.brier
      then (if eq a.log_loss b.log_loss then ltb j k else lt a.log_loss b.log_loss)
      else lt a.brier b.brier

  -- `min(eligible, key=…)`: the first of the least.
  unfoldable pub best_of : ℕ × Metrics n → Evaluation → ℕ × Metrics n
  best_of best [] = best
  best_of best (c ∷ cs) = best_of (if beats c best then c else best) cs

  -- `next((r.method for r in champion_rows if r.method in eligible), None)`, with its metrics.
  unfoldable pub incumbent_of : List (Row n) → Evaluation → Option (ℕ × Metrics n)
  incumbent_of [] eligible = none
  incumbent_of (r ∷ champions) eligible = elim (lookup r.method eligible) [
    | none ↦ incumbent_of champions eligible
    | some m ↦ some (r.method, m)
  ]

  abbrev pub defend : F → ℕ × Metrics n → ℕ × Metrics n → ℕ × Metrics n
  defend margin (i, im) (b, bm) =
      if i == b then (b, bm) else if lt (sub im.brier bm.brier) margin then (i, im) else (b, bm)

  -- The winner: the best, unless the incumbent is not clearly beaten.
  unfoldable pub winner_of : F → Option (ℕ × Metrics n) → ℕ × Metrics n → ℕ × Metrics n
  winner_of margin none best = best
  winner_of margin (some incumbent) best = defend margin incumbent best

  abbrev pub max_from : F → List (ℕ × F) → F
  max_from best [] = best
  max_from best ((m, a) ∷ as_) = max_from (if lt best a then a else best) as_

  abbrev pub sum_from : F → List (ℕ × F) → F
  sum_from acc [] = acc
  sum_from acc ((m, a) ∷ as_) = sum_from (add acc a) as_

  abbrev pub on_values : (F → F) → List (ℕ × F) → List (ℕ × F)
  on_values f [] = []
  on_values f ((m, a) ∷ as_) = (m, f a) ∷ on_values f as_

  -- `_softmax_weights`
  unfoldable pub softmax_weights : List (ℕ × F) → List (ℕ × F)
  softmax_weights [] = []
  softmax_weights ((m, a) ∷ rest) =
      let mx = max_from a rest in
      let exps = on_values (λ x. exp (div (sub x mx) ten)) ((m, a) ∷ rest) in
      let total = sum_from zero exps in on_values (λ e. round (div (mul hundred e) total) 2) exps

  abbrev pub accuracies_of : Evaluation → List (ℕ × F)
  accuracies_of [] = []
  accuracies_of ((method, m) ∷ ms) = (method, m.accuracy_pct) ∷ accuracies_of ms

  abbrev pub ids_of : List (ℕ × ℕ) → List ℕ
  ids_of [] = []
  ids_of ((m, id) ∷ d) = id ∷ ids_of d

  abbrev pub weight_or_zero : Option F → D
  weight_or_zero none = decimal zero
  weight_or_zero (some w) = decimal w

  -- The weights of auto mode: older versions of an evaluated method carry none.
  abbrev pub weigh : List (ℕ × ℕ) → List (ℕ × F) → Row n → Row n
  weigh of_method weights r =
      if contains (ids_of of_method) r.id
      then record r { display_weight = weight_or_zero (lookup r.method weights) }
      else if is_some (lookup r.method of_method)
      then record r { display_weight = zero_decimal }
      else r

  unfoldable pub apply_weights : Bool → List (ℕ × ℕ) → List (ℕ × F) → List (Row n) → List (Row n)
  apply_weights auto of_method weights rows =
      if auto then map (weigh of_method weights) rows else rows

  abbrev pub ids : List (Row n) → List ℕ
  ids [] = []
  ids (r ∷ rows) = r.id ∷ ids rows

  -- `champion_rows == [rows[winner]]`
  abbrev pub is_exactly : ℕ → List ℕ → Bool
  is_exactly id [] = false
  is_exactly id (x ∷ []) = x == id
  is_exactly id (x ∷ y ∷ xs) = false

  abbrev pub retitle : ℕ → ℕ → ℕ → Registry n → Registry n
  retitle snapshot_id id method reg =
      if is_exactly id (ids (select (is_champion n) reg.rows))
      then reg
      else transfer_title n id method (snapshot_registry n snapshot_id reg)

  -- The part after the winner is known; every winner has a row.
  abbrev pub crown : Bool → ℕ → List (ℕ × ℕ) → List (ℕ × F) → Option ℕ → ℕ → Registry n → Registry n
  crown auto snapshot_id of_method weights none winner reg = reg
  crown auto snapshot_id of_method weights (some id) winner reg =
      let reg' = retitle snapshot_id id winner reg in
      record reg' { rows = apply_weights auto of_method weights reg'.rows }

  abbrev pub select_champion :
      Bool → F → ℕ → List (ℕ × ℕ) → Evaluation → Registry n → Option ℕ × Registry n
  select_champion auto margin snapshot_id of_method [] reg = (none, reg)
  select_champion auto margin snapshot_id of_method (e ∷ es) reg =
      let (winner, m) =
        winner_of margin (incumbent_of (select (is_champion n) reg.rows) (e ∷ es)) (best_of e es) in
      (
        some winner,
        crown auto snapshot_id of_method (softmax_weights (accuracies_of (e ∷ es)))
            (lookup winner of_method) winner reg,
      )

  -- `now` is the time of the evaluation, `snapshot_id` the identifier of a snapshot that is taken.
  unfoldable pub apply_champion_selection :
      Evaluation → Bool → ℕ → F → ℕ → ℕ → Registry n → Option ℕ × Registry n
  apply_champion_selection metrics auto min_samples margin now snapshot_id reg =
      let of_method = rows_for reg.rows metrics in
      let reg' = record reg { rows = store_metrics of_method metrics now reg.rows } in
      select_champion auto margin snapshot_id of_method
        (select (is_eligible of_method reg'.rows min_samples) metrics) reg'
