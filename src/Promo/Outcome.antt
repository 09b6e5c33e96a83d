-- ===== src/Promo/Outcome.antt =====
-- When a redemption succeeds, and what it leaves.
use betpulse.Prelude.{
  ℕ, ◌<◌, ◌≡◌, Bool, true, false, Option, none, some, List, [], ◌∷◌, arith, ◌==◌, ◌&&◌, find,
  is_some, contains, update_where,
}
use betpulse.Promo.Model.{
  Batch, Code, Db, Subscription, Source, Result, ok, err, batch_of, code_of, is_redemption_of,
  is_subscription_of, is_code_active,
}
use betpulse.Promo.Redeem.{
  is_claimable, claimed, redeem_code, read_and_check, claim_and_apply, claimed, check_redeemable,
  apply_effect, grants_tier, granted_until, upsert_subscription,
}

abbrev pub is_ok : {A : Type 0} → Result A → Bool
is_ok (ok _) = true
is_ok (err _) = false

-- The conditions of a redemption, from the code and the batch that the tables hold.
pub record IsRedeemable (db : Db) (hash user now : ℕ) (row : Code) (batch : Batch) : Type 0 where
  pub row_found : code_of db hash ≡ some row
  pub batch_found : batch_of db row.batch_id ≡ some batch
  pub allowed : check_redeemable batch row user now ≡ none
  pub is_active : is_code_active row.status ≡ true
  pub has_slot : row.activations_used < row.max_activations
  pub first_time : find (is_redemption_of user hash) db.redemptions ≡ none

find_claimable :
    (hash : ℕ) (row : Code) (cs : List Code)
    → find (λ x. x.code_hash == hash) cs ≡ some row
    → is_code_active row.status ≡ true
    → row.activations_used < row.max_activations
    → is_some (find (is_claimable row.id) cs) ≡ true
find_claimable hash row [] h a l = cc
find_claimable hash row (c ∷ cs) h a l = ground (arith, find_claimable hash row cs)

read_and_check-ok :
    (db : Db) (hash user now : ℕ) (row : Code) (batch : Batch)
    → IsRedeemable db hash user now row batch
    → read_and_check db hash user now ≡ ok (batch, row)
unfolding read_and_check
read_and_check-ok db hash user now row batch h =
    ground (arith, h.row_found, h.batch_found, h.allowed)

-- What the tables hold after a successful redemption.
abbrev pub redeemed_codes : Db → Code → List Code
redeemed_codes db row = update_where (is_claimable row.id) claimed db.codes

claim_and_apply-ok :
    (db : Db) (hash user now : ℕ) (row : Code) (batch : Batch)
    → IsRedeemable db hash user now row batch
    → let (effect, db', redemption) =
        apply_effect (record db { codes = redeemed_codes db row }) user batch hash now in
      claim_and_apply db batch row hash user now
      ≡ (ok effect, record db' { redemptions = redemption ∷ db'.redemptions })
unfolding claim_and_apply
claim_and_apply-ok db hash user now row batch h =
    ground
      (arith, h.first_time, find_claimable hash row db.codes h.row_found h.is_active h.has_slot)

-- A redemption whose conditions hold succeeds: it reports the batch's effect, takes a slot, applies
-- the effect, and records the redemption.
pub redeem-succeeds :
    (db : Db) (hash user now : ℕ) (row : Code) (batch : Batch)
    → IsRedeemable db hash user now row batch
    → let (effect, db', redemption) =
        apply_effect (record db { codes = redeemed_codes db row }) user batch hash now in
      redeem_code db hash user now
      ≡ (ok effect, record db' { redemptions = redemption ∷ db'.redemptions })
unfolding redeem_code
redeem-succeeds db hash user now row batch h = ground (
  arith,
  read_and_check-ok db hash user now row batch h,
  claim_and_apply-ok db hash user now row batch h,
)

upsert_self :
    (user tier : ℕ) (src : Source) (until : Option ℕ) (subs : List Subscription)
    → find (is_subscription_of user tier) (upsert_subscription user tier src until subs)
      ≡ some (record { user_id = user; tier_id = tier; source = src; expires_at = until })
unfolding upsert_subscription
upsert_self user tier src until [] = ground arith
upsert_self user tier src until (s ∷ subs) = ground (arith, upsert_self user tier src until subs)

upsert-ne :
    (user tier u t : ℕ) (src : Source) (until : Option ℕ) (subs : List Subscription)
    → (u == user && t == tier) ≡ false
    → find (is_subscription_of u t) (upsert_subscription user tier src until subs)
      ≡ find (is_subscription_of u t) subs
unfolding upsert_subscription
upsert-ne user tier u t src until [] h = ground arith
upsert-ne user tier u t src until (s ∷ subs) h =
    ground (arith, upsert-ne user tier u t src until subs h)

-- If a trial or an upgrade is redeemable and its tier exists, its redeemer holds the tier by promo
-- until the time the batch says, and the subscription of any other user or tier is as it was.
pub redeem-grants :
    (db : Db) (hash user now tier u t : ℕ) (row : Code) (batch : Batch)
    → IsRedeemable db hash user now row batch
    → grants_tier batch.code_type ≡ true
    → batch.tier_id ≡ some tier
    → contains db.tiers tier ≡ true
    → (u == user && t == tier) ≡ false
    → let db' = (redeem_code db hash user now).1 in
      (find (is_subscription_of user tier) db'.subscriptions
        ≡ some (record {
          user_id = user;
          tier_id = tier;
          source = Source.promo;
          expires_at = granted_until batch now;
        }))
      × (find (is_subscription_of u t) db'.subscriptions
          ≡ find (is_subscription_of u t) db.subscriptions)
unfolding apply_effect
redeem-grants db hash user now tier u t row batch h g e k ne =
    let until = granted_until batch now in
    (
      ground (
        arith,
        redeem-succeeds db hash user now row batch h,
        upsert_self user tier Source.promo until db.subscriptions,
      ),
      ground (
        arith,
        redeem-succeeds db hash user now row batch h,
        upsert-ne user tier u t Source.promo until db.subscriptions ne,
      ),
    )
