-- ===== src/Counters/Effect/Distinct.antt =====
-- The effect of incr_distinct_within_limit, which charges each member once.
use betpulse.Prelude.{ℕ, ◌≤◌, ◌≡◌, Option, some, max, if◌then◌else◌, arith}
use betpulse.Prelude.Int.{ℤ, pos, leb_ℤ}
use betpulse.Redis.{Redis, CounterKey, SetKey, Counter, Members, amount, is_member, added}
use betpulse.Counters.{
  incr_distinct_within_limit_script, incr_distinct_within_limit, heal, heal_set,
}
use betpulse.Counters.Effect.{
  healed, healed_set, charged, taken, after_take, amount_lem, heal_self, members-heal,
  heal_set_self, counter-heal_set, one-le-max,
}

abbrev pub view_reply : ℕ → ℤ → Option Counter → Option Members → Option ℕ
view_reply member limit o ms = if is_member member ms then some (amount o) else taken limit o

abbrev pub after_view : ℕ → ℤ → ℕ → Option Counter → Option Members → Option Counter
after_view member limit t o ms = if is_member member ms then healed t o else after_take limit t o

abbrev pub seen_after_view : ℕ → ℤ → ℕ → Option Counter → Option Members → Option Members
seen_after_view member limit t o ms =
    if is_member member ms
    then healed_set t ms
    else if leb_ℤ limit (pos (amount o))
    then healed_set t ms
    else healed_set t (some (added member ms))

module _ (r : Redis) where
  open r use {Store, counter, members, incr, sadd}

  counter-charge :
      (t : ℕ) (s : Store) (k : CounterKey) (seen : SetKey) (m : ℕ)
      → 1 ≤ t
      → counter (heal r t (sadd (incr s k).1 seen m) k) k ≡ some (charged t (counter s k))
  counter-charge t s k seen m h = ground (
    arith,
    heal_self r t (sadd (incr s k).1 seen m) k h,
    r.counter-sadd (incr s k).1 k seen m,
    r.counter-incr_self s k,
  )

  members-charge :
      (t : ℕ) (s : Store) (k : CounterKey) (seen : SetKey) (m : ℕ)
      → members (heal r t (sadd (incr s k).1 seen m) k) seen ≡ some (added m (members s seen))
  members-charge t s k seen m = ground (
    arith,
    members-heal r t (sadd (incr s k).1 seen m) seen k,
    r.members-sadd_self (incr s k).1 seen m,
    r.members-incr s seen k,
  )

  module _ (s : Store) (k : CounterKey) (seen : SetKey) (member : ℕ) (limit : ℤ) (t : ℕ) where
    pub incr_distinct-reply :
        (incr_distinct_within_limit r s k seen member limit t).0
        ≡ view_reply member limit (counter s k) (members s seen)
    unfolding incr_distinct_within_limit_script incr_distinct_within_limit
    incr_distinct-reply = ground (
      arith,
      one-le-max t,
      r.sismember_lem s seen member,
      amount_lem r s k,
      amount_lem r (heal_set r (max 1 t) (heal r (max 1 t) s k) seen) k,
      counter-heal_set r (max 1 t) (heal r (max 1 t) s k) k seen,
      heal_self r (max 1 t) s k,
      r.incr-reply s k,
    )

    pub incr_distinct-counter :
        counter (incr_distinct_within_limit r s k seen member limit t).1 k
        ≡ after_view member limit (max 1 t) (counter s k) (members s seen)
    unfolding incr_distinct_within_limit_script incr_distinct_within_limit
    incr_distinct-counter = ground (
      arith,
      one-le-max t,
      r.sismember_lem s seen member,
      amount_lem r s k,
      counter-heal_set r (max 1 t) (heal r (max 1 t) s k) k seen,
      heal_self r (max 1 t) s k,
      counter-heal_set r (max 1 t) (heal r (max 1 t) (sadd (incr s k).1 seen member) k) k seen,
      counter-charge (max 1 t) s k seen member,
    )

    pub incr_distinct-members :
        members (incr_distinct_within_limit r s k seen member limit t).1 seen
        ≡ seen_after_view member limit (max 1 t) (counter s k) (members s seen)
    unfolding incr_distinct_within_limit_script incr_distinct_within_limit
    incr_distinct-members = ground (
      arith,
      one-le-max t,
      r.sismember_lem s seen member,
      amount_lem r s k,
      heal_set_self r (max 1 t) (heal r (max 1 t) s k) seen,
      members-heal r (max 1 t) s seen k,
      heal_set_self r (max 1 t) (heal r (max 1 t) (sadd (incr s k).1 seen member) k) seen,
      members-charge (max 1 t) s k seen member,
    )
