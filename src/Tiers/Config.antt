-- ===== src/Tiers/Config.antt =====
-- backend/app/services/tiers.py, with the change of a tier in api/admin.py: what a tier allows, its
-- defaults, and its cache in Redis. Names are numbers, guest to expert the first four; the keys of the
-- JSON objects are numbers too, and so are their texts, of which 0 is the empty one. Numbers in the
-- objects are whole.
use betpulse.Prelude.{
  ℕ, Bool, true, false, Option, none, some, List, [], ◌∷◌, ◌==◌, ◌||◌, not, if◌then◌else◌,
}
use betpulse.Prelude.Int.{ℤ, pos, negsuc, eqb_ℤ}
use betpulse.Tiers.Cache.{Json, text, number, boolean}

abbrev pub guest : ℕ
guest = 0

-- The keys of the flags and of the limits.
abbrev pub methods : ℕ
methods = 0

abbrev pub per_half_totals : ℕ
per_half_totals = 1

abbrev pub live_recompute : ℕ
live_recompute = 2

abbrev pub llm : ℕ
llm = 3

abbrev pub backtester_save : ℕ
backtester_save = 4

abbrev pub backtester_export : ℕ
backtester_export = 5

abbrev pub matches_per_day_key : ℕ
matches_per_day_key = 0

abbrev pub pushes_per_day_key : ℕ
pushes_per_day_key = 1

abbrev pub backtester_runs_per_day_key : ℕ
backtester_runs_per_day_key = 2

-- The texts blurred_consensus, consensus, all, all_weights, and none, match_of_day, top5, any.
abbrev pub Values : Type 0
Values = List (ℕ × Json)

abbrev pub value_at : Values → ℕ → Option Json
value_at [] key = none
value_at (v ∷ vs) key = if v.0 == key then some v.1 else value_at vs key

-- `int(value) if isinstance(value, (int, float)) else 0`; a Boolean is an int.
abbrev pub int_or_zero : Option Json → ℤ
int_or_zero none = pos 0
int_or_zero (some (number n)) = n
int_or_zero (some (boolean b)) = if b then pos 1 else pos 0
int_or_zero (some (text t)) = pos 0

abbrev pub truthy : Option Json → Bool
truthy none = false
truthy (some (number n)) = not (eqb_ℤ n (pos 0))
truthy (some (boolean b)) = b
truthy (some (text t)) = not (t == 0)

-- `str(value)`, which is an argument for what is no text.
abbrev pub text_or : (Json → ℕ) → ℕ → Option Json → ℕ
text_or str default none = default
text_or str default (some (text t)) = t
text_or str default (some value) = str value

pub record ResolvedTier : Type 0 where
  pub name : ℕ
  pub feature_flags : Values
  pub limits : Values

unfoldable pub matches_per_day : ResolvedTier → ℤ
matches_per_day t = int_or_zero (value_at t.limits matches_per_day_key)

unfoldable pub pushes_per_day : ResolvedTier → ℤ
pushes_per_day t = int_or_zero (value_at t.limits pushes_per_day_key)

unfoldable pub can_receive_push : ResolvedTier → Bool
unfolding pushes_per_day
can_receive_push t = not (eqb_ℤ (pushes_per_day t) (pos 0))

unfoldable pub methods_visibility : (Json → ℕ) → ResolvedTier → ℕ
methods_visibility str t = text_or str 1 (value_at t.feature_flags methods)

unfoldable pub shows_method_bars : (Json → ℕ) → ResolvedTier → Bool
shows_method_bars str t =
    let visibility = methods_visibility str t in (visibility == 3) || (visibility == 4)

unfoldable pub shows_weights : (Json → ℕ) → ResolvedTier → Bool
shows_weights str t = methods_visibility str t == 4

unfoldable pub backtester_runs_per_day : ResolvedTier → ℤ
backtester_runs_per_day t = int_or_zero (value_at t.limits backtester_runs_per_day_key)

unfoldable pub can_save_strategies : ResolvedTier → Bool
can_save_strategies t = truthy (value_at t.feature_flags backtester_save)

unfoldable pub can_export : ResolvedTier → Bool
can_export t = truthy (value_at t.feature_flags backtester_export)

unfoldable pub llm_access : (Json → ℕ) → ResolvedTier → ℕ
llm_access str t = text_or str 5 (value_at t.feature_flags llm)

-- A row of tiers; prices are in hundredths.
pub record TierRow : Type 0 where
  pub name : ℕ
  pub price : ℕ
  pub period : Option ℕ
  pub feature_flags : Values
  pub limits : Values
  pub is_public : Bool
  pub sort_order : ℕ

abbrev pub flags_of : ℕ → Bool → Bool → Values → ℕ → Values
flags_of visibility halves live backtester access =
    (methods, text visibility)
    ∷ (per_half_totals, boolean halves)
    ∷ (live_recompute, boolean live)
    ∷ (llm, text access)
    ∷ backtester

abbrev pub backtester_flags : Bool → Bool → Values
backtester_flags save export =
    (backtester_save, boolean save) ∷ (backtester_export, boolean export) ∷ []

abbrev pub limits_of : ℤ → ℤ → ℤ → Values
limits_of matches pushes runs =
    (matches_per_day_key, number matches)
    ∷ (pushes_per_day_key, number pushes)
    ∷ (backtester_runs_per_day_key, number runs)
    ∷ []

abbrev pub guest_row : TierRow
guest_row = record {
  name = guest;
  price = 0;
  period = none;
  feature_flags = flags_of 1 false false [] 5;
  limits = limits_of (pos 3) (pos 0) (pos 0);
  is_public = false;
  sort_order = 0;
}

-- DEFAULT_TIERS
abbrev pub default_tiers : List TierRow
default_tiers =
    guest_row
    ∷ record {
      name = 1;
      price = 0;
      period = none;
      feature_flags = flags_of 2 false false (backtester_flags false false) 6;
      limits = limits_of (pos 10) (pos 0) (pos 3);
      is_public = true;
      sort_order = 1;
    }
    ∷ record {
      name = 2;
      price = 999;
      period = some 1;
      feature_flags = flags_of 3 true true (backtester_flags false false) 7;
      limits = limits_of (negsuc 0) (pos 10) (pos 50);
      is_public = true;
      sort_order = 2;
    }
    ∷ record {
      name = 3;
      price = 1_999;
      period = some 1;
      feature_flags = flags_of 4 true true (backtester_flags true true) 8;
      limits = limits_of (negsuc 0) (negsuc 0) (negsuc 0);
      is_public = true;
      sort_order = 3;
    }
    ∷ []
