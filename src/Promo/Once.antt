-- ===== src/Promo/Once.antt =====
-- A redemption that is recorded: what it means for every later attempt of its user at its code.
use betpulse.Prelude.{ℕ, ◌≡◌, Bool, true, false, List, [], ◌∷◌, arith, find, is_some}
use betpulse.Promo.Model.{Batch, Code, Db, is_redemption_of}
use betpulse.Promo.Batch.{kill_batch}
use betpulse.Promo.Redeem.{redeem_code, claim_and_apply, commit_or_rollback}
use betpulse.Promo.Slots.{Event, attempt, kill, run_events}
use betpulse.Promo.Outcome.{is_ok}

-- Whether a redemption of the code by the user is stored.
abbrev is_redeemed : Db → ℕ → ℕ → Bool
is_redeemed db hash user = is_some (find (is_redemption_of user hash) db.redemptions)

redeemed_before :
    (db : Db) (hash user now : ℕ)
    → is_redeemed db hash user ≡ true
    → (is_ok (redeem_code db hash user now).0 ≡ false) × ((redeem_code db hash user now).1 ≡ db)
unfolding redeem_code
redeemed_before db hash user now h = ground arith

attempted_before :
    (db : Db) (batch : Batch) (row : Code) (hash user now : ℕ)
    → is_redeemed db hash user ≡ true
    → is_ok (commit_or_rollback db (claim_and_apply db batch row hash user now)).0 ≡ false
unfolding claim_and_apply
attempted_before db batch row hash user now h = ground arith

redeem-records :
    (db : Db) (hash user now : ℕ)
    → is_ok (redeem_code db hash user now).0 ≡ true
    → is_redeemed (redeem_code db hash user now).1 hash user ≡ true
unfolding redeem_code
redeem-records db hash user now h = ground arith

attempt-redeemed :
    (db : Db) (batch : Batch) (row : Code) (hash user h u now : ℕ)
    → is_redeemed db hash user ≡ true
    → is_redeemed (commit_or_rollback db (claim_and_apply db batch row h u now)).1 hash user ≡ true
unfolding claim_and_apply
attempt-redeemed db batch row hash user h u now e = ground (arith, e)

-- No redemption is lost.
run_events-redeemed :
    (id : ℕ) (db : Db) (es : List Event) (hash user : ℕ)
    → is_redeemed db hash user ≡ true
    → is_redeemed (run_events id db es).1 hash user ≡ true
unfolding run_events kill_batch
run_events-redeemed id db [] hash user e = e
run_events-redeemed id db (attempt batch row h u now ∷ es) hash user e =
    run_events-redeemed id (commit_or_rollback db (claim_and_apply db batch row h u now)).1 es hash
      user (attempt-redeemed db batch row hash user h u now e)
run_events-redeemed id db (kill b ∷ es) hash user e =
    run_events-redeemed id (kill_batch db b).1 es hash user (ground (arith, e))

-- Once a user has redeemed a code, and whatever attempts of anybody at any code, on reads however
-- old, and whatever kills came since, no later attempt of theirs at that code succeeds: a new one
-- changes nothing, and one that had read and checked the code and its batch before is refused too.
pub redeem_once :
    (db : Db) (hash user now later id : ℕ) (es : List Event) (batch : Batch) (row : Code)
    → is_ok (redeem_code db hash user now).0 ≡ true
    → let db' = (run_events id (redeem_code db hash user now).1 es).1 in
      (is_ok (redeem_code db' hash user later).0 ≡ false)
      × ((redeem_code db' hash user later).1 ≡ db')
      × (is_ok (commit_or_rollback db' (claim_and_apply db' batch row hash user later)).0 ≡ false)
redeem_once db hash user now later id es batch row h =
    let db' = (run_events id (redeem_code db hash user now).1 es).1 in
    let kept =
      run_events-redeemed id (redeem_code db hash user now).1 es hash user
        (redeem-records db hash user now h) in
    let (refused, same) = redeemed_before db' hash user later kept in
    (refused, same, attempted_before db' batch row hash user later kept)
