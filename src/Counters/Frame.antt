-- ===== src/Counters/Frame.antt =====
-- A counter's script leaves the hashes of the server alone.
use betpulse.Prelude.{ℕ, ◌≡◌, max, arith}
use betpulse.Prelude.Int.{ℤ}
use betpulse.Redis.{Redis, HashCommands, CounterKey}
use betpulse.Counters.{heal, expire_if_none, incr_within_limit, incr_within_limit_script}

module _ (r : Redis) (hs : HashCommands r) where
  open r use {Store}
  open hs use {hash}

  heal-hash : (t : ℕ) (s : Store) (k : ℕ) (j : CounterKey) → hash (heal r t s j) k ≡ hash s k
  unfolding heal
  heal-hash t s k j = ground (arith, hs.hash-expire t s k j)

  expire_if_none-hash :
      (t : ℕ) (s : Store) (k : ℕ) (j : CounterKey) → hash (expire_if_none r t s j) k ≡ hash s k
  unfolding expire_if_none
  expire_if_none-hash t s k j = ground (arith, hs.hash-expire t s k j)

  pub incr_within_limit-hash :
      (s : Store) (k : ℕ) (j : CounterKey) (limit : ℤ) (t : ℕ)
      → hash (incr_within_limit r s j limit t).1 k ≡ hash s k
  unfolding incr_within_limit incr_within_limit_script
  incr_within_limit-hash s k j limit t = ground (
    arith,
    heal-hash (max 1 t) s k j,
    expire_if_none-hash (max 1 t) (r.incr s j).1 k j,
    hs.hash-incr s k j,
  )
