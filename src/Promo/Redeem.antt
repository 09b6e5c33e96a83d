-- ===== src/Promo/Redeem.antt =====
-- `redeem` and `_apply_effect`. A redemption reads the code and its batch, and only later claims a
-- slot with one guarded UPDATE on the row as it then is: `claim_and_apply` takes what was read, so
-- that other transactions may come between.
use betpulse.Prelude.{
  ℕ, suc, ◌+◌, ◌*◌, ◌/◌, Bool, true, false, Option, none, some, List, [], ◌∷◌, ◌==◌, ◌&&◌, ◌||◌,
  not, leb, ltb, find, contains, is_some, update_where, if◌then◌else◌,
}
use betpulse.Clock.{day}
use betpulse.Promo.Model.{
  CodeType, percent, fixed, trial, upgrade, CodeStatus, RedemptionStatus, applied, pending, Source,
  Batch, Code, Redemption, Subscription, Db, is_code_active, is_code_disabled, is_batch_disabled,
  PromoError, invalid_code, code_expired, code_disabled, code_exhausted, already_redeemed,
  not_your_code, Result, ok, err, batch_of, code_of, is_redemption_of, is_subscription_of,
}

pub record RedemptionEffect : Type 0 where
  pub code_type : CodeType
  pub value : Option ℕ
  pub status : RedemptionStatus

-- `x is not None and x != user.id`
abbrev pub bound_to_other : Option ℕ → ℕ → Bool
bound_to_other none user = false
bound_to_other (some owner) user = not (owner == user)

-- `expires_at is not None and expires_at <= now`
abbrev pub has_expired : Option ℕ → ℕ → Bool
has_expired none now = false
has_expired (some t) now = leb t now

-- The guards between the reads and the claim.
unfoldable pub check_redeemable : Batch → Code → ℕ → ℕ → Option PromoError
check_redeemable batch row user now =
    if is_batch_disabled batch.status || is_code_disabled row.status
    then some code_disabled
    else if has_expired batch.expires_at now
    then some code_expired
    else if bound_to_other batch.bound_user_id user
    then some not_your_code
    else if bound_to_other row.bound_user_id user
    then some not_your_code
    else none

-- The WHERE of the claiming UPDATE.
abbrev pub is_claimable : ℕ → Code → Bool
is_claimable id c =
    c.id == id && (is_code_active c.status && ltb c.activations_used c.max_activations)

-- Its SET, and `row.status = redeemed` once the last slot is taken, which the flush writes.
abbrev pub claimed : Code → Code
claimed c = record c {
  activations_used = suc c.activations_used;
  status = if leb c.max_activations (suc c.activations_used) then CodeStatus.redeemed else c.status;
}

unfoldable pub claim_slot : ℕ → List Code → Option (List Code)
claim_slot id codes =
    if is_some (find (is_claimable id) codes)
    then some (update_where (is_claimable id) claimed codes)
    else none

-- The expiry that a trial or an upgrade gives. A trial without a value never expires.
abbrev pub expiry_by_type : CodeType → Option ℕ → Option ℕ → ℕ → Option ℕ
expiry_by_type trial none batch_expiry now = none
expiry_by_type trial (some value) batch_expiry now = some (now + value / 100 * day)
expiry_by_type upgrade value batch_expiry now = batch_expiry
expiry_by_type percent value batch_expiry now = none
expiry_by_type fixed value batch_expiry now = none

abbrev pub granted_until : Batch → ℕ → Option ℕ
granted_until batch now = expiry_by_type batch.code_type batch.value batch.expires_at now

abbrev pub grants_tier : CodeType → Bool
grants_tier trial = true
grants_tier upgrade = true
grants_tier percent = false
grants_tier fixed = false

-- INSERT … ON CONFLICT (user, tier) DO UPDATE SET source, expires_at
unfoldable pub upsert_subscription :
    ℕ → ℕ → Source → Option ℕ → List Subscription → List Subscription
upsert_subscription user tier source expires_at [] =
    record { user_id = user; tier_id = tier; source = source; expires_at = expires_at } ∷ []
upsert_subscription user tier source expires_at (s ∷ subs) =
    if is_subscription_of user tier s
    then record s { source = source; expires_at = expires_at } ∷ subs
    else s ∷ upsert_subscription user tier source expires_at subs

-- `if batch.tier_id is not None: tier = …; if tier is not None: …`
abbrev pub grant_tier : Option ℕ → ℕ → Option ℕ → Db → Db
grant_tier none user until db = db
grant_tier (some tier) user until db =
    if contains db.tiers tier
    then record db {
      subscriptions = upsert_subscription user tier Source.promo until db.subscriptions;
    }
    else db

abbrev pub status_of : CodeType → RedemptionStatus
status_of t = if grants_tier t then applied else pending

-- `_apply_effect`: the effect, the tables, and the redemption row that waits for the flush.
unfoldable pub apply_effect : Db → ℕ → Batch → ℕ → ℕ → RedemptionEffect × Db × Redemption
unfolding upsert_subscription
apply_effect db user batch code_hash now = (
  record { code_type = batch.code_type; value = batch.value; status = status_of batch.code_type },
  if grants_tier batch.code_type
      then grant_tier batch.tier_id user (granted_until batch now) db
      else db,
  record {
    user_id = user;
    batch_id = batch.id;
    code_hash = code_hash;
    code_type = batch.code_type;
    value = batch.value;
    status = status_of batch.code_type;
  },
)

-- The flush: the redemption's unique constraint, whose violation is AlreadyRedeemed.
abbrev pub flush_redemption : RedemptionEffect → Db → Redemption → Result RedemptionEffect × Db
flush_redemption effect db row =
    if is_some (find (is_redemption_of row.user_id row.code_hash) db.redemptions)
    then (err already_redeemed, db)
    else (ok effect, record db { redemptions = row ∷ db.redemptions })

-- From the claim to the flush.
abbrev pub apply_claim : Option (List Code) → Db → Batch → ℕ → ℕ → ℕ → Result RedemptionEffect × Db
apply_claim none db batch code_hash user now = (err code_exhausted, db)
apply_claim (some codes) db batch code_hash user now =
    let (effect, db', row) = apply_effect (record db { codes = codes }) user batch code_hash now in
    flush_redemption effect db' row

unfoldable pub claim_and_apply : Db → Batch → Code → ℕ → ℕ → ℕ → Result RedemptionEffect × Db
unfolding claim_slot apply_effect
claim_and_apply db batch row code_hash user now =
    apply_claim (claim_slot row.id db.codes) db batch code_hash user now

-- The reads and the guards.
abbrev pub find_batch : Db → Option Code → Result (Batch × Code)
find_batch db none = err invalid_code
find_batch db (some row) = elim (batch_of db row.batch_id) [
  | none ↦ err invalid_code
  | some batch ↦ ok (batch, row)
]

abbrev pub guarded : Option PromoError → Batch × Code → Result (Batch × Code)
guarded none found = ok found
guarded (some e) found = err e

abbrev pub guard_found : Result (Batch × Code) → ℕ → ℕ → Result (Batch × Code)
guard_found (err e) user now = err e
guard_found (ok (batch, row)) user now = guarded (check_redeemable batch row user now) (batch, row)

unfoldable pub read_and_check : Db → ℕ → ℕ → ℕ → Result (Batch × Code)
unfolding check_redeemable
read_and_check db code_hash user now = guard_found (find_batch db (code_of db code_hash)) user now

abbrev pub after_check : Result (Batch × Code) → Db → ℕ → ℕ → ℕ → Result RedemptionEffect × Db
after_check (err e) db code_hash user now = (err e, db)
after_check (ok (batch, row)) db code_hash user now =
    claim_and_apply db batch row code_hash user now

unfoldable pub redeem : Db → ℕ → ℕ → ℕ → Result RedemptionEffect × Db
unfolding read_and_check claim_and_apply
redeem db code_hash user now =
    after_check (read_and_check db code_hash user now) db code_hash user now

-- The request: committed if it succeeds, rolled back if it raises.
abbrev pub commit_or_rollback : Db → Result RedemptionEffect × Db → Result RedemptionEffect × Db
commit_or_rollback before (ok effect, after) = (ok effect, after)
commit_or_rollback before (err e, after) = (err e, before)

unfoldable pub redeem_code : Db → ℕ → ℕ → ℕ → Result RedemptionEffect × Db
unfolding redeem
redeem_code db code_hash user now = commit_or_rollback db (redeem db code_hash user now)
