-- ===== src/Promo/Kill.antt =====
-- Redemption after the kill switch.
use betpulse.Prelude.{ℕ, ◌≡◌, some, List, [], ◌∷◌, arith, ◌==◌, find, update_where, if◌then◌else◌}
use betpulse.Promo.Model.{Batch, Code, Db, code_disabled, err, batch_of, code_of}
use betpulse.Promo.Batch.{kill_batch, in_batch, disable_code, disable_batch}
use betpulse.Promo.Redeem.{redeem_code}

find_code-kill :
    (b hash : ℕ) (c : Code) (cs : List Code)
    → find (λ x. x.code_hash == hash) cs ≡ some c
    → find (λ x. x.code_hash == hash) (update_where (in_batch b) disable_code cs)
      ≡ some (if in_batch b c then disable_code c else c)
find_code-kill b hash c [] h = cc
find_code-kill b hash c (x ∷ cs) h = ground (arith, find_code-kill b hash c cs)

find_batch-kill :
    (id : ℕ) (b : Batch) (bs : List Batch)
    → find (λ x. x.id == id) bs ≡ some b
    → find (λ x. x.id == id) (update_where (λ x. x.id == id) disable_batch bs)
      ≡ some (disable_batch b)
find_batch-kill id b [] h = cc
find_batch-kill id b (x ∷ bs) h = ground (arith, find_batch-kill id b bs)

-- After the kill of a batch that exists, redeeming any of its codes is refused as disabled, for
-- every user and at every time, and changes nothing.
pub redeem-kill :
    (db : Db) (id hash user now : ℕ) (b : Batch) (c : Code)
    → batch_of db id ≡ some b
    → code_of db hash ≡ some c
    → c.batch_id ≡ id
    → let killed = (kill_batch db id).1 in
      redeem_code killed hash user now ≡ (err code_disabled, killed)
unfolding kill_batch redeem_code
redeem-kill db id hash user now b c hb hc hid =
    ground (arith, find_code-kill id hash c db.codes hc, find_batch-kill id b db.batches hb)
