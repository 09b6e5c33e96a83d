-- ===== src/Counters/Effect.antt =====
-- What each script leaves under the keys it names, as a function of what was there.
pub mod Distinct
use betpulse.Prelude.{
  ℕ, suc, ◌≤◌, ◌-◌, ◌≡◌, ◌≢◌, refl, sym, Bool, true, false, Option, none, some, max, leb,
  if◌then◌else◌, arith, Option-cases, Bool-cases, inl, inr,
}
use betpulse.Prelude.Int.{ℤ, pos, negsuc, leb_ℤ, ltb_ℤ, eqb_ℤ}
use betpulse.Redis.{
  Redis, CounterKey, SetKey, Counter, Members, value_of, amount, ttl_of, ttl_reply, incremented,
  expiring,
}
use betpulse.Counters.{
  or_zero, unless_negative, expire_if_none, heal, heal_set, incr_with_ttl_script,
  incr_within_limit_script, decr_floor_zero_script, incr_with_ttl, incr_within_limit,
  incr_distinct_within_limit, decr_floor_zero,
}

-- The expiry that is kept if there is one, and set to `t` otherwise.
abbrev pub kept_ttl : ℕ → Option ℕ → ℕ
kept_ttl t none = t
kept_ttl t (some u) = u

abbrev pub healed : ℕ → Option Counter → Option Counter
healed t none = none
healed t (some c) = some (record c { ttl = some (kept_ttl t c.ttl) })

-- One more, with an expiry.
abbrev pub charged : ℕ → Option Counter → Counter
charged t none = record { value = 1; ttl = some t }
charged t (some c) = record { value = suc c.value; ttl = some (kept_ttl t c.ttl) }

abbrev pub healed_set : ℕ → Option Members → Option Members
healed_set t none = none
healed_set t (some m) = some (record m { ttl = some (kept_ttl t m.ttl) })

-- A budget of `limit`: the answer, and what is left under the key.
abbrev pub taken : ℤ → Option Counter → Option ℕ
taken limit o = if leb_ℤ limit (pos (amount o)) then none else some (suc (amount o))

abbrev pub after_take : ℤ → ℕ → Option Counter → Option Counter
after_take limit t o = if leb_ℤ limit (pos (amount o)) then healed t o else some (charged t o)

-- One less, down to 0; the expiry is kept.
abbrev pub lowered : Option Counter → Option Counter
lowered none = none
lowered (some c) = some (record c { value = c.value - 1 })

one-le-max : (t : ℕ) → 1 ≤ max 1 t
one-le-max t = omega arith

module _ (r : Redis) where
  open r use {Store, counter, members, get, ttl, incr, decr, expire, expire_set, sadd}

  pub amount_lem : (s : Store) (k : CounterKey) → or_zero (get s k) ≡ amount (counter s k)
  amount_lem s k = ground (arith, r.get_lem s k)

  heal_self :
      (t : ℕ) (s : Store) (k : CounterKey)
      → 1 ≤ t
      → counter (heal r t s k) k ≡ healed t (counter s k)
  unfolding heal
  heal_self t s k h = ground (arith, r.ttl_lem s k, r.counter-expire_self t s k)

  heal-ne : (t : ℕ) (s : Store) (j k : CounterKey) → j ≢ k → counter (heal r t s k) j ≡ counter s j
  unfolding heal
  heal-ne t s j k ne = ground (arith, r.counter-expire_ne t s j k ne)

  members-heal :
      (t : ℕ) (s : Store) (j : SetKey) (k : CounterKey) → members (heal r t s k) j ≡ members s j
  unfolding heal
  members-heal t s j k = ground (arith, r.members-expire t s j k)

  heal_set_self :
      (t : ℕ) (s : Store) (k : SetKey)
      → 1 ≤ t
      → members (heal_set r t s k) k ≡ healed_set t (members s k)
  unfolding heal_set
  heal_set_self t s k h = ground (arith, r.ttl_set_lem s k, r.members-expire_set_self t s k)

  counter-heal_set :
      (t : ℕ) (s : Store) (j : CounterKey) (k : SetKey) → counter (heal_set r t s k) j ≡ counter s j
  unfolding heal_set
  counter-heal_set t s j k = ground (arith, r.counter-expire_set t s j k)

  expire_if_none_self :
      (t : ℕ) (s : Store) (k : CounterKey)
      → 1 ≤ t
      → counter (expire_if_none r t (incr s k).1 k) k ≡ some (charged t (counter s k))
  unfolding expire_if_none
  expire_if_none_self t s k h = ground (
    arith,
    r.ttl_lem (incr s k).1 k,
    r.counter-incr_self s k,
    r.counter-expire_self t (incr s k).1 k,
  )

  expire_if_none-ne :
      (t : ℕ) (s : Store) (j k : CounterKey)
      → j ≢ k
      → counter (expire_if_none r t (incr s k).1 k) j ≡ counter s j
  unfolding expire_if_none
  expire_if_none-ne t s j k ne =
      ground (arith, r.counter-incr_ne s j k ne, r.counter-expire_ne t (incr s k).1 j k ne)

  members-expire_if_none :
      (t : ℕ) (s : Store) (j : SetKey) (k : CounterKey)
      → members (expire_if_none r t (incr s k).1 k) j ≡ members s j
  unfolding expire_if_none
  members-expire_if_none t s j k =
      ground (arith, r.members-incr s j k, r.members-expire t (incr s k).1 j k)

  -- incr_with_ttl: the new count, one more under the key, and always an expiry.
  pub incr_with_ttl-reply :
      (s : Store) (k : CounterKey) (t : ℕ) → (incr_with_ttl r s k t).0 ≡ suc (amount (counter s k))
  unfolding incr_with_ttl
  incr_with_ttl-reply s k t = r.incr-reply s k

  pub incr_with_ttl_self :
      (s : Store) (k : CounterKey) (t : ℕ)
      → counter (incr_with_ttl r s k t).1 k ≡ some (charged (max 1 t) (counter s k))
  unfolding incr_with_ttl_script incr_with_ttl
  incr_with_ttl_self s k t = expire_if_none_self (max 1 t) s k (one-le-max t)

  pub incr_with_ttl-ne :
      (s : Store) (j k : CounterKey) (t : ℕ)
      → j ≢ k
      → counter (incr_with_ttl r s k t).1 j ≡ counter s j
  unfolding incr_with_ttl_script incr_with_ttl
  incr_with_ttl-ne s j k t = expire_if_none-ne (max 1 t) s j k

  -- incr_within_limit: one more if the budget allows it; otherwise only a missing expiry is set.
  pub incr_within_limit-reply :
      (s : Store) (k : CounterKey) (limit : ℤ) (t : ℕ)
      → (incr_within_limit r s k limit t).0 ≡ taken limit (counter s k)
  unfolding incr_within_limit_script incr_within_limit
  incr_within_limit-reply s k limit t = ground (arith, amount_lem s k, r.incr-reply s k)

  pub incr_within_limit_self :
      (s : Store) (k : CounterKey) (limit : ℤ) (t : ℕ)
      → counter (incr_within_limit r s k limit t).1 k ≡ after_take limit (max 1 t) (counter s k)
  unfolding incr_within_limit_script incr_within_limit
  incr_within_limit_self s k limit t = ground (
    arith,
    amount_lem s k,
    one-le-max t,
    heal_self (max 1 t) s k,
    expire_if_none_self (max 1 t) s k,
  )

  pub incr_within_limit-ne :
      (s : Store) (j k : CounterKey) (limit : ℤ) (t : ℕ)
      → j ≢ k
      → counter (incr_within_limit r s k limit t).1 j ≡ counter s j
  unfolding incr_within_limit_script incr_within_limit
  incr_within_limit-ne s j k limit t ne =
      ground (arith, heal-ne (max 1 t) s j k ne, expire_if_none-ne (max 1 t) s j k ne)

  -- decr_floor_zero
  pub decr_floor_zero-amount :
      (s : Store) (k : CounterKey)
      → amount (counter (decr_floor_zero r s k).1 k) ≡ amount (counter s k) - 1
  unfolding decr_floor_zero_script decr_floor_zero
  decr_floor_zero-amount s k = decr_cases (counter s k) refl
    where
      decr_cases :
          (o : Option Counter)
          → counter s k ≡ o
          → amount (counter (decr_floor_zero r s k).1 k) ≡ amount (counter s k) - 1
      decr_cases none e = ground (arith, amount_lem s k)
      decr_cases (some c) e =
          ground (arith, amount_lem s k, r.counter-decr_self s k c (c.value - 1) e)

  pub decr_floor_zero_self :
      (s : Store) (k : CounterKey) → counter (decr_floor_zero r s k).1 k ≡ lowered (counter s k)
  unfolding decr_floor_zero_script decr_floor_zero
  decr_floor_zero_self s k = decr_cases (counter s k) refl
    where
      decr_cases :
          (o : Option Counter)
          → counter s k ≡ o
          → counter (decr_floor_zero r s k).1 k ≡ lowered (counter s k)
      decr_cases none e = ground (arith, e, amount_lem s k)
      decr_cases (some c) e =
          ground (arith, e, amount_lem s k, r.counter-decr_self s k c (c.value - 1) e)

  pub decr_floor_zero-ne :
      (s : Store) (j k : CounterKey) → j ≢ k → counter (decr_floor_zero r s k).1 j ≡ counter s j
  unfolding decr_floor_zero_script decr_floor_zero
  decr_floor_zero-ne s j k ne = ground (arith, r.counter-decr_ne s j k ne)
