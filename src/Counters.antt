-- ===== src/Counters.antt =====
-- backend/app/services/counters.py: the Lua scripts, each one step of the server, and the functions
-- that call them.
pub mod Effect
pub mod Frame
use betpulse.Prelude.{ℕ, ◌≡◌, Bool, Option, none, some, max, leb, if◌then◌else◌}
use betpulse.Prelude.Int.{ℤ, pos, negsuc, leb_ℤ, ltb_ℤ, eqb_ℤ}
use betpulse.Redis.{Redis, CounterKey, SetKey}

-- `tonumber(redis.call('GET', key) or '0')`
abbrev pub or_zero : Option ℕ → ℕ
or_zero none = 0
or_zero (some n) = n

-- `None if count < 0 else count`
abbrev pub unless_negative : ℤ → Option ℕ
unless_negative (pos n) = some n
unless_negative (negsuc n) = none

module _ (r : Redis) where
  open r use {Store, get, ttl, incr, decr, expire, sismember, sadd, ttl_set, expire_set}

  -- `if TTL < 0 then EXPIRE`
  expire_if_none : ℕ → Store → CounterKey → Store
  expire_if_none t s k = if ltb_ℤ (ttl s k) (pos 0) then expire t s k else s

  -- `if TTL == -1 then EXPIRE`
  heal : ℕ → Store → CounterKey → Store
  heal t s k = if eqb_ℤ (ttl s k) (negsuc 0) then expire t s k else s

  heal_set : ℕ → Store → SetKey → Store
  heal_set t s k = if eqb_ℤ (ttl_set s k) (negsuc 0) then expire_set t s k else s

  -- _INCR_WITH_TTL
  incr_with_ttl_script : ℕ → Store → CounterKey → ℕ × Store
  unfolding expire_if_none
  incr_with_ttl_script t s k = let (count, s') = incr s k in (count, expire_if_none t s' k)

  -- _INCR_WITHIN_LIMIT
  incr_within_limit_script : ℤ → ℕ → Store → CounterKey → ℤ × Store
  unfolding expire_if_none heal
  incr_within_limit_script limit t s k =
      let current = or_zero (get s k) in
      if leb_ℤ limit (pos current)
      then (negsuc 0, heal t s k)
      else (let (count, s') = incr s k in (pos count, expire_if_none t s' k))

  -- _INCR_DISTINCT_WITHIN_LIMIT
  incr_distinct_within_limit_script : ℕ → ℤ → ℕ → Store → CounterKey → SetKey → ℤ × Store
  unfolding heal heal_set
  incr_distinct_within_limit_script member limit t s k seen =
      if sismember s seen member
      then (let s' = heal_set t (heal t s k) seen in (pos (or_zero (get s' k)), s'))
      else let current = or_zero (get s k) in
        if leb_ℤ limit (pos current)
        then (negsuc 0, heal_set t (heal t s k) seen)
        else let (count, s') = incr s k in
          let s'' = sadd s' seen member in (pos count, heal_set t (heal t s'' k) seen)

  -- _DECR_FLOOR_ZERO
  decr_floor_zero_script : Store → CounterKey → ℕ × Store
  decr_floor_zero_script s k =
      let current = or_zero (get s k) in if leb current 0 then (0, s) else decr s k

  pub incr_with_ttl : Store → CounterKey → ℕ → ℕ × Store
  unfolding incr_with_ttl_script
  incr_with_ttl s key ttl_seconds = incr_with_ttl_script (max 1 ttl_seconds) s key

  pub incr_within_limit : Store → CounterKey → ℤ → ℕ → Option ℕ × Store
  unfolding incr_within_limit_script
  incr_within_limit s key limit ttl_seconds =
      let (count, s') = incr_within_limit_script limit (max 1 ttl_seconds) s key in
      (unless_negative count, s')

  pub incr_distinct_within_limit : Store → CounterKey → SetKey → ℕ → ℤ → ℕ → Option ℕ × Store
  unfolding incr_distinct_within_limit_script
  incr_distinct_within_limit s key seen_key member limit ttl_seconds =
      let (count, s') =
        incr_distinct_within_limit_script member limit (max 1 ttl_seconds) s key seen_key in
      (unless_negative count, s')

  pub decr_floor_zero : Store → CounterKey → ℕ × Store
  unfolding decr_floor_zero_script
  decr_floor_zero s key = decr_floor_zero_script s key
