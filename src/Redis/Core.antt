-- ===== src/Redis/Core.antt =====
-- The commands of a Redis server that the scripts of services/counters.py call. The laws are the
-- documented effect of each command on the one key it names; every other key is left alone. `pass`
-- is the passage of time.
use betpulse.Redis.Keys.{CounterKey, SetKey}
use betpulse.Redis.Values.{
  Counter, Members, value_of, amount, ttl_of, ttl_of_set, incremented, expiring, expiring_set,
  is_member, added, aged, aged_set,
}
use betpulse.Prelude.{ℕ, suc, ◌≤◌, ◌≡◌, ◌≢◌, Bool, Option, some}
use betpulse.Prelude.Int.{ℤ}

pub record Redis : Type 1 where
  pub Store : Type 0
  -- What the server holds under a key.
  pub counter : Store → CounterKey → Option Counter
  pub members : Store → SetKey → Option Members
  pub pass : ℕ → Store → Store
  -- The commands.
  pub get : Store → CounterKey → Option ℕ
  pub ttl : Store → CounterKey → ℤ
  pub incr : Store → CounterKey → ℕ × Store
  pub decr : Store → CounterKey → ℕ × Store
  pub expire : ℕ → Store → CounterKey → Store
  pub sismember : Store → SetKey → ℕ → Bool
  pub sadd : Store → SetKey → ℕ → Store
  pub ttl_set : Store → SetKey → ℤ
  pub expire_set : ℕ → Store → SetKey → Store
  -- Reads.
  pub get_lem : (s : Store) (k : CounterKey) → get s k ≡ value_of (counter s k)
  pub ttl_lem : (s : Store) (k : CounterKey) → ttl s k ≡ ttl_of (counter s k)
  pub sismember_lem : (s : Store) (k : SetKey) (m : ℕ) → sismember s k m ≡ is_member m (members s k)
  pub ttl_set_lem : (s : Store) (k : SetKey) → ttl_set s k ≡ ttl_of_set (members s k)
  -- INCR creates a missing key at 0, without an expiry, and keeps an expiry that is there.
  pub incr-reply : (s : Store) (k : CounterKey) → (incr s k).0 ≡ suc (amount (counter s k))
  pub counter-incr_self :
      (s : Store) (k : CounterKey) → counter (incr s k).1 k ≡ some (incremented (counter s k))
  pub counter-incr_ne :
      (s : Store) (j k : CounterKey) → j ≢ k → counter (incr s k).1 j ≡ counter s j
  pub members-incr :
      (s : Store) (j : SetKey) (k : CounterKey) → members (incr s k).1 j ≡ members s j
  -- DECR of a positive count.
  pub decr-reply :
      (s : Store) (k : CounterKey) (c : Counter) (n : ℕ)
      → counter s k ≡ some c
      → c.value ≡ suc n
      → (decr s k).0 ≡ n
  pub counter-decr_self :
      (s : Store) (k : CounterKey) (c : Counter) (n : ℕ)
      → counter s k ≡ some c
      → c.value ≡ suc n
      → counter (decr s k).1 k ≡ some (record c { value = n })
  pub counter-decr_ne :
      (s : Store) (j k : CounterKey) → j ≢ k → counter (decr s k).1 j ≡ counter s j
  pub members-decr :
      (s : Store) (j : SetKey) (k : CounterKey) → members (decr s k).1 j ≡ members s j
  -- EXPIRE with a positive number of seconds; a missing key stays missing.
  pub counter-expire_self :
      (t : ℕ) (s : Store) (k : CounterKey)
      → 1 ≤ t
      → counter (expire t s k) k ≡ expiring t (counter s k)
  pub counter-expire_ne :
      (t : ℕ) (s : Store) (j k : CounterKey) → j ≢ k → counter (expire t s k) j ≡ counter s j
  pub members-expire :
      (t : ℕ) (s : Store) (j : SetKey) (k : CounterKey) → members (expire t s k) j ≡ members s j
  pub members-expire_set_self :
      (t : ℕ) (s : Store) (k : SetKey)
      → 1 ≤ t
      → members (expire_set t s k) k ≡ expiring_set t (members s k)
  pub members-expire_set_ne :
      (t : ℕ) (s : Store) (j k : SetKey) → j ≢ k → members (expire_set t s k) j ≡ members s j
  pub counter-expire_set :
      (t : ℕ) (s : Store) (j : CounterKey) (k : SetKey) → counter (expire_set t s k) j ≡ counter s j
  -- SADD creates a missing set, without an expiry.
  pub members-sadd_self :
      (s : Store) (k : SetKey) (m : ℕ) → members (sadd s k m) k ≡ some (added m (members s k))
  pub members-sadd_ne :
      (s : Store) (j k : SetKey) (m : ℕ) → j ≢ k → members (sadd s k m) j ≡ members s j
  pub counter-sadd :
      (s : Store) (j : CounterKey) (k : SetKey) (m : ℕ) → counter (sadd s k m) j ≡ counter s j
  -- A key is gone once its time to live has passed.
  pub counter-pass :
      (t : ℕ) (s : Store) (k : CounterKey) → counter (pass t s) k ≡ aged t (counter s k)
  pub members-pass :
      (t : ℕ) (s : Store) (k : SetKey) → members (pass t s) k ≡ aged_set t (members s k)
