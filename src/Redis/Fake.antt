-- ===== src/Redis/Fake.antt =====
-- A Redis server in memory, on which the tests run.
use mathlib.Core.Logic.{ite, if_pos, if_neg}
use betpulse.Prelude.{ℕ, suc, ◌≡◌, refl, ◌≢◌, ◌∙◌, Option, none, some, arith, ◌-◌}
use betpulse.Redis.Core.{Redis}
use betpulse.Redis.Keys.{CounterKey, SetKey, CounterKey-discrete, SetKey-discrete}
use betpulse.Redis.Values.{
  Counter, Members, Hash, value_of, amount, ttl_of, ttl_of_set, incremented, expiring, expiring_set,
  is_member, added, aged, aged_set,
}

pub record FakeStore : Type 0 where
  pub counters : CounterKey → Option Counter
  pub sets : SetKey → Option Members
  pub hashes : ℕ → Option Hash

-- DECR of a count that is there.
abbrev pub decremented : Option Counter → Option Counter
decremented none = none
decremented (some c) = some (record c { value = c.value - 1 })

unfoldable pub put : FakeStore → CounterKey → Option Counter → FakeStore
put s k c = record s { counters = λ j. ite (CounterKey-discrete j k) c (s.counters j) }

unfoldable pub put_set : FakeStore → SetKey → Option Members → FakeStore
put_set s k m = record s { sets = λ j. ite (SetKey-discrete j k) m (s.sets j) }

pub put_self : (s : FakeStore) (k : CounterKey) (c : Option Counter) → (put s k c).counters k ≡ c
unfolding put
put_self s k c = if_pos (CounterKey-discrete k k) refl c (s.counters k)

pub put_ne :
    (s : FakeStore) (j k : CounterKey) (c : Option Counter)
    → j ≢ k
    → (put s k c).counters j ≡ s.counters j
unfolding put
put_ne s j k c ne = if_neg (CounterKey-discrete j k) ne c (s.counters j)

pub put_set_self : (s : FakeStore) (k : SetKey) (m : Option Members) → (put_set s k m).sets k ≡ m
unfolding put_set
put_set_self s k m = if_pos (SetKey-discrete k k) refl m (s.sets k)

pub put_set_ne :
    (s : FakeStore) (j k : SetKey) (m : Option Members) → j ≢ k → (put_set s k m).sets j ≡ s.sets j
unfolding put_set
put_set_ne s j k m ne = if_neg (SetKey-discrete j k) ne m (s.sets j)

pub decremented_lem :
    (o : Option Counter) (c : Counter) (n : ℕ)
    → o ≡ some c
    → c.value ≡ suc n
    → decremented o ≡ some (record c { value = n })
decremented_lem o c n h e = ground arith

pub decr_reply_lem :
    (o : Option Counter) (c : Counter) (n : ℕ) → o ≡ some c → c.value ≡ suc n → amount o - 1 ≡ n
decr_reply_lem o c n h e = ground arith

unfoldable pub fake : Redis
unfolding put put_set
fake = record {
  Store = FakeStore;
  counter = λ s k. s.counters k;
  members = λ s k. s.sets k;
  pass =
      λ t s. record s { counters = λ k. aged t (s.counters k); sets = λ k. aged_set t (s.sets k) };
  get = λ s k. value_of (s.counters k);
  ttl = λ s k. ttl_of (s.counters k);
  incr = λ s k. (suc (amount (s.counters k)), put s k (some (incremented (s.counters k))));
  decr = λ s k. (amount (s.counters k) - 1, put s k (decremented (s.counters k)));
  expire = λ t s k. put s k (expiring t (s.counters k));
  sismember = λ s k m. is_member m (s.sets k);
  sadd = λ s k m. put_set s k (some (added m (s.sets k)));
  ttl_set = λ s k. ttl_of_set (s.sets k);
  expire_set = λ t s k. put_set s k (expiring_set t (s.sets k));
  get_lem = λ s k. refl;
  ttl_lem = λ s k. refl;
  sismember_lem = λ s k m. refl;
  ttl_set_lem = λ s k. refl;
  incr-reply = λ s k. refl;
  counter-incr_self = λ s k. put_self s k (some (incremented (s.counters k)));
  counter-incr_ne = λ s j k. put_ne s j k (some (incremented (s.counters k)));
  members-incr = λ s j k. refl;
  decr-reply = λ s k c n h e. decr_reply_lem (s.counters k) c n h e;
  counter-decr_self = λ s k c n h e.
      put_self s k (decremented (s.counters k)) ∙ decremented_lem (s.counters k) c n h e;
  counter-decr_ne = λ s j k. put_ne s j k (decremented (s.counters k));
  members-decr = λ s j k. refl;
  counter-expire_self = λ t s k h. put_self s k (expiring t (s.counters k));
  counter-expire_ne = λ t s j k. put_ne s j k (expiring t (s.counters k));
  members-expire = λ t s j k. refl;
  members-expire_set_self = λ t s k h. put_set_self s k (expiring_set t (s.sets k));
  members-expire_set_ne = λ t s j k. put_set_ne s j k (expiring_set t (s.sets k));
  counter-expire_set = λ t s j k. refl;
  members-sadd_self = λ s k m. put_set_self s k (some (added m (s.sets k)));
  members-sadd_ne = λ s j k m. put_set_ne s j k (some (added m (s.sets k)));
  counter-sadd = λ s j k m. refl;
  counter-pass = λ t s k. refl;
  members-pass = λ t s k. refl;
}

unfoldable pub empty_store : fake.Store
unfolding fake
empty_store = record { counters = λ _. none; sets = λ _. none; hashes = λ _. none }
