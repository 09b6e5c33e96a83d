-- ===== src/Promo/Tests.antt =====
-- The theorems on promo codes at concrete inputs: tables with one batch of trials and one of its
-- codes, which has two activations.
use betpulse.Prelude.{◌+◌, ◌≤◌, ◌≡◌, refl, false, some, none, List, [], ◌∷◌, arith}
use betpulse.Promo.Model.{
  Batch, Code, Db, CodeStatus, BatchStatus, Source, err, code_disabled, trial,
}
use betpulse.Promo.Batch.{kill_batch}
use betpulse.Promo.Redeem.{redeem_code, check_redeemable, claim_and_apply, commit_or_rollback}
use betpulse.Promo.Slots.{Event, attempt, kill, run_events, slots_left, run_events-slots}
use betpulse.Promo.Kill.{redeem-kill}
use betpulse.Promo.Outcome.{IsRedeemable, is_ok}
use betpulse.Promo.Once.{redeem_once}

abbrev trials : Batch
trials = record {
  id = 3;
  name = 0;
  code_type = trial;
  value = some 700;
  tier_id = some 2;
  bound_user_id = none;
  max_activations = 2;
  size = 500;
  stackable = false;
  expires_at = none;
  status = BatchStatus.active;
  created_by = none;
}

abbrev code : Code
code = record {
  id = 10;
  batch_id = 3;
  code_hash = 77;
  activations_used = 0;
  max_activations = 2;
  status = CodeStatus.active;
  bound_user_id = none;
}

abbrev tables : Db
tables = record {
  batches = trials ∷ [];
  codes = code ∷ [];
  redemptions = [];
  subscriptions =
      record { user_id = 5; tier_id = 2; source = Source.manual; expires_at = none } ∷ [];
  tiers = 1 ∷ 2 ∷ [];
}

-- Three users who have all read the code before, and a kill.
abbrev rush : List Event
rush =
    attempt trials code 77 5 100
    ∷ attempt trials code 77 6 101
    ∷ attempt trials code 77 7 102
    ∷ kill 3
    ∷ []

run_events-slots_example :
    (run_events 10 tables rush).0 + slots_left 10 (run_events 10 tables rush).1.codes
    ≤ slots_left 10 tables.codes
run_events-slots_example = run_events-slots 10 tables rush

code-IsRedeemable : IsRedeemable tables 77 5 100 code trials
unfolding check_redeemable
code-IsRedeemable = record {
  row_found = refl;
  batch_found = refl;
  allowed = refl;
  is_active = refl;
  has_slot = omega arith;
  first_time = refl;
}

redeem_once_example :
    let db' =
      (run_events 1
        (redeem_code tables 77 5 100).1
        (attempt trials code 77 6 150 ∷ kill 3 ∷ [])).1 in
    (is_ok (redeem_code db' 77 5 200).0 ≡ false)
    × ((redeem_code db' 77 5 200).1 ≡ db')
    × (is_ok (commit_or_rollback db' (claim_and_apply db' trials code 77 5 200)).0 ≡ false)
unfolding redeem_code
redeem_once_example =
    redeem_once tables 77 5 100 200 1 (attempt trials code 77 6 150 ∷ kill 3 ∷ []) trials code refl

redeem-kill_example :
    let killed = (kill_batch tables 3).1 in
    redeem_code killed 77 5 100 ≡ (err code_disabled, killed)
redeem-kill_example = redeem-kill tables 3 77 5 100 trials code refl refl refl
