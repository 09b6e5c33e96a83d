-- ===== src/RateLimit/Window.antt =====
-- What a fixed window lets through.
use betpulse.Prelude.{
  ℕ, zero, suc, ◌+◌, ◌-◌, ◌≤◌, ◌≡◌, min, max, Option, none, some, arith, ltb, if◌then◌else◌,
}
use betpulse.Redis.{Redis, CounterKey, Counter, amount}
use betpulse.Counters.Effect.{kept_ttl, charged, incr_with_ttl-reply, incr_with_ttl_self}
use betpulse.RateLimit.{Verdict, pass_through, exceeded, enforce_fixed_window}

abbrev pub passes : Verdict → ℕ
passes pass_through = 1
passes (exceeded _) = 0

-- The expiry under a key, or the window that a new one gets.
abbrev pub window_left : ℕ → Option Counter → ℕ
window_left w none = w
window_left w (some c) = kept_ttl w c.ttl

module _ (r : Redis) where
  open r use {Store, counter, pass}

  enforce_fixed_window-passes :
      (s : Store) (k : CounterKey) (limit w : ℕ)
      → passes (enforce_fixed_window r s k limit w).0
        ≡ (if ltb limit (suc (amount (counter s k))) then 0 else 1)
  unfolding enforce_fixed_window
  enforce_fixed_window-passes s k limit w = ground (arith, incr_with_ttl-reply r s k w)

  enforce_fixed_window_self :
      (s : Store) (k : CounterKey) (limit w : ℕ)
      → counter (enforce_fixed_window r s k limit w).1 k ≡ some (charged (max 1 w) (counter s k))
  unfolding enforce_fixed_window
  enforce_fixed_window_self s k limit w = incr_with_ttl_self r s k w

  -- `n` calls in one window: how many go through, and the store after them.
  pub calls : ℕ → Store → CounterKey → ℕ → ℕ → ℕ × Store
  calls zero s k limit w = (0, s)
  calls (suc n) s k limit w =
      let (v, s') = enforce_fixed_window r s k limit w in
      let (m, s'') = calls n s' k limit w in (passes v + m, s'')

  -- Of any number of calls in one window, exactly those go through that the limit has room for.
  pub calls-passes :
      (n : ℕ) (s : Store) (k : CounterKey) (limit w : ℕ)
      → (calls n s k limit w).0 ≡ min n (limit - amount (counter s k))
  unfolding calls
  calls-passes zero s k limit w = omega arith
  calls-passes (suc n) s k limit w = ground (
    arith,
    calls-passes n (enforce_fixed_window r s k limit w).1 k limit w,
    enforce_fixed_window-passes s k limit w,
    enforce_fixed_window_self s k limit w,
  )

  -- Whatever is under the key, even a count that lost its expiry: a caller who waits out the window
  -- after a call goes through, if the limit lets anyone through.
  pub no_lockout :
      (s : Store) (k : CounterKey) (limit w t : ℕ)
      → 1 ≤ limit
      → window_left (max 1 w) (counter s k) ≤ t
      → (enforce_fixed_window r (pass t (enforce_fixed_window r s k limit w).1) k limit w).0
        ≡ pass_through
  unfolding enforce_fixed_window
  no_lockout s k limit w t one wait = ground (
    arith,
    incr_with_ttl_self r s k w,
    r.counter-pass t (enforce_fixed_window r s k limit w).1 k,
    incr_with_ttl-reply r (pass t (enforce_fixed_window r s k limit w).1) k w,
  )
