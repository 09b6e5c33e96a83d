-- ===== src/Promo/Model.antt =====
-- The tables of backend/app/models/promo.py and the subscription table of models/tier.py, as lists of
-- rows. Identifiers are numbers, instants are microseconds, and `value`, Numeric(10, 2), is in
-- hundredths.
use betpulse.Prelude.{ℕ, Bool, true, false, Option, List, ◌==◌, ◌&&◌, find}

pub data CodeType : Type 0 where
  percent fixed trial upgrade : CodeType

pub data BatchStatus : Type 0 where
  active disabled : BatchStatus

pub data CodeStatus : Type 0 where
  active redeemed disabled : CodeStatus

pub data RedemptionStatus : Type 0 where
  applied pending expired : RedemptionStatus

pub data Source : Type 0 where
  manual promo payment : Source

pub record Batch : Type 0 where
  pub id : ℕ
  pub name : ℕ
  pub code_type : CodeType
  pub value : Option ℕ
  pub tier_id : Option ℕ
  pub bound_user_id : Option ℕ
  pub max_activations : ℕ
  pub size : ℕ
  pub stackable : Bool
  pub expires_at : Option ℕ
  pub status : BatchStatus
  pub created_by : Option ℕ

pub record Code : Type 0 where
  pub id : ℕ
  pub batch_id : ℕ
  pub code_hash : ℕ
  pub activations_used : ℕ
  pub max_activations : ℕ
  pub status : CodeStatus
  pub bound_user_id : Option ℕ

pub record Redemption : Type 0 where
  pub user_id : ℕ
  pub batch_id : ℕ
  pub code_hash : ℕ
  pub code_type : CodeType
  pub value : Option ℕ
  pub status : RedemptionStatus

pub record Subscription : Type 0 where
  pub user_id : ℕ
  pub tier_id : ℕ
  pub source : Source
  pub expires_at : Option ℕ

pub record Db : Type 0 where
  pub batches : List Batch
  pub codes : List Code
  pub redemptions : List Redemption
  pub subscriptions : List Subscription
  pub tiers : List ℕ

abbrev pub is_code_active : CodeStatus → Bool
is_code_active CodeStatus.active = true
is_code_active CodeStatus.redeemed = false
is_code_active CodeStatus.disabled = false

abbrev pub is_code_disabled : CodeStatus → Bool
is_code_disabled CodeStatus.active = false
is_code_disabled CodeStatus.redeemed = false
is_code_disabled CodeStatus.disabled = true

abbrev pub is_batch_disabled : BatchStatus → Bool
is_batch_disabled BatchStatus.active = false
is_batch_disabled BatchStatus.disabled = true

-- The exceptions, with the HTTP status that each maps to. `integrity_error` is none of them: it is
-- the database's, raised by a flush and not caught.
pub data PromoError : Type 0 where
  batch_size_invalid invalid_code code_expired code_disabled code_exhausted : PromoError
  already_redeemed not_your_code integrity_error : PromoError

http_status : PromoError → ℕ
http_status batch_size_invalid = 422
http_status invalid_code = 404
http_status code_expired = 410
http_status code_disabled = 410
http_status code_exhausted = 409
http_status already_redeemed = 409
http_status not_your_code = 403
http_status integrity_error = 500

pub data Result (A : Type 0) : Type 0 where
  ok : A → Result A
  err : PromoError → Result A

-- `session.get`, and the SELECT of a code by its hash.
abbrev pub batch_of : Db → ℕ → Option Batch
batch_of db id = find (λ b. b.id == id) db.batches

abbrev pub code_of : Db → ℕ → Option Code
code_of db hash = find (λ c. c.code_hash == hash) db.codes

-- The unique constraints of a redemption (uq_redemption_user_code) and of a subscription
-- (uq_subscription_user_tier).
abbrev pub is_redemption_of : ℕ → ℕ → Redemption → Bool
is_redemption_of user hash r = r.user_id == user && r.code_hash == hash

abbrev pub is_subscription_of : ℕ → ℕ → Subscription → Bool
is_subscription_of user tier s = s.user_id == user && s.tier_id == tier
