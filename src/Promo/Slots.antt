-- ===== src/Promo/Slots.antt =====
-- Activation slots, over interleavings of redemptions and kills.
use betpulse.Prelude.{
  ℕ, ◌+◌, ◌-◌, ◌≤◌, ◌<◌, ◌≡◌, refl, true, List, [], ◌∷◌, arith, ◌==◌, find, is_some, update_where,
  if◌then◌else◌,
}
use betpulse.Promo.Model.{Batch, Code, Db, Result, ok, err}
use betpulse.Promo.Batch.{kill_batch, in_batch, disable_code}
use betpulse.Promo.Redeem.{is_claimable, claimed, claim_and_apply, commit_or_rollback}

-- The slots that the code `id` has left.
abbrev pub slots_left : ℕ → List Code → ℕ
slots_left id [] = 0
slots_left id (c ∷ cs) =
    (if c.id == id then c.max_activations - c.activations_used else 0) + slots_left id cs

update_claimed-le :
    (id j : ℕ) (cs : List Code)
    → slots_left id (update_where (is_claimable j) claimed cs) ≤ slots_left id cs
update_claimed-le id j [] = omega arith
update_claimed-le id j (c ∷ cs) = ground (arith, update_claimed-le id j cs)

update_claimed-lt :
    (id : ℕ) (cs : List Code)
    → is_some (find (is_claimable id) cs) ≡ true
    → slots_left id (update_where (is_claimable id) claimed cs) < slots_left id cs
update_claimed-lt id [] h = cc
update_claimed-lt id (c ∷ cs) h =
    ground (arith, update_claimed-lt id cs, update_claimed-le id id cs)

slots_left-kill :
    (id b : ℕ) (cs : List Code)
    → slots_left id (update_where (in_batch b) disable_code cs) ≡ slots_left id cs
slots_left-kill id b [] = refl
slots_left-kill id b (c ∷ cs) = ground (arith, slots_left-kill id b cs)

-- One committed step of the database, as other requests see it.
pub data Event : Type 0 where
  -- A redemption that has read and checked a batch and a code, perhaps long ago.
  attempt : Batch → Code → ℕ → ℕ → ℕ → Event
  kill : ℕ → Event

abbrev pub won : {A : Type 0} → Result A → ℕ
won (ok _) = 1
won (err _) = 0

-- How often the code `id` is activated by the events, and the tables after them.
unfoldable pub run_events : ℕ → Db → List Event → ℕ × Db
run_events id db [] = (0, db)
run_events id db (attempt batch row hash user now ∷ es) =
    let (res, db') = commit_or_rollback db (claim_and_apply db batch row hash user now) in
    let (wins, db'') = run_events id db' es in ((if row.id == id then won res else 0) + wins, db'')
run_events id db (kill b ∷ es) = run_events id (kill_batch db b).1 es

attempt-slots :
    (id : ℕ) (db : Db) (batch : Batch) (row : Code) (hash user now : ℕ)
    → let (res, db') = commit_or_rollback db (claim_and_apply db batch row hash user now) in
      (if row.id == id then won res else 0) + slots_left id db'.codes ≤ slots_left id db.codes
unfolding claim_and_apply
attempt-slots id db batch row hash user now =
    ground (arith, update_claimed-le id row.id db.codes, update_claimed-lt id db.codes)

kill-slots : (id b : ℕ) (db : Db) → slots_left id (kill_batch db b).1.codes ≡ slots_left id db.codes
unfolding kill_batch
kill-slots id b db = ground (arith, slots_left-kill id b db.codes)

-- Whatever was read before, and however attempts on this and other codes and kills interleave, a
-- code is activated at most as often as it had slots left, and each activation takes one.
pub run_events-slots :
    (id : ℕ) (db : Db) (es : List Event)
    → let (wins, db') = run_events id db es in
      wins + slots_left id db'.codes ≤ slots_left id db.codes
unfolding run_events
run_events-slots id db [] = omega arith
run_events-slots id db (attempt batch row hash user now ∷ es) = omega (
  arith,
  attempt-slots id db batch row hash user now,
  run_events-slots id (commit_or_rollback db (claim_and_apply db batch row hash user now)).1 es,
)
run_events-slots id db (kill b ∷ es) =
    omega (arith, kill-slots id b db, run_events-slots id (kill_batch db b).1 es)
