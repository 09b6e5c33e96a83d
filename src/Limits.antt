-- ===== src/Limits.antt =====
-- backend/app/services/limits.py: the daily budgets and the hourly promo limit, over the scripts of
-- Counters. A budget of -1 is unlimited. `now` is passed in, as the source allows.
pub mod Lasting
pub mod Views
pub mod Pushes
mod Tests
use betpulse.Prelude.{
  ℕ, ◌-◌, ◌≡◌, Bool, true, false, Option, none, some, max, ltb, leb, is_some, if◌then◌else◌,
}
use betpulse.Prelude.Int.{ℤ, pos, negsuc, pos_part, ◌-ℤ◌, eqb_ℤ}
use betpulse.Redis.{
  Redis, CounterKey, SetKey, limits, limits_seen, limits_backtester, limits_push, rate_limit_promo,
}
use betpulse.Counters.{
  incr_with_ttl, incr_within_limit, incr_distinct_within_limit, decr_floor_zero, or_zero,
}
use betpulse.Clock.{date_of, hour_of, seconds_until_next_hour, seconds_until_utc_midnight}

-- UNLIMITED
abbrev pub unlimited : ℤ
unlimited = negsuc 0

-- A result, or one of the two exceptions of the module.
pub data Outcome (A : Type 0) : Type 0 where
  ok : A → Outcome A
  limit_exceeded : Outcome A
  rate_limited : ℕ → Outcome A

abbrev pub limit_key : ℕ → ℕ → CounterKey
limit_key identity now = limits identity (date_of now)

abbrev pub seen_key : ℕ → ℕ → SetKey
seen_key identity now = limits_seen identity (date_of now)

abbrev pub push_key : ℕ → ℕ → CounterKey
push_key user_id now = limits_push user_id (date_of now)

-- `if count is None: raise LimitExceeded`, else `return limit - count`
abbrev pub remaining_or_raise : ℤ → Option ℕ → Outcome ℤ
remaining_or_raise limit none = limit_exceeded
remaining_or_raise limit (some count) = ok (limit -ℤ pos count)

abbrev pub raise_if_none : Option ℕ → Outcome (Unit {0})
raise_if_none none = limit_exceeded
raise_if_none (some _) = ok tt

module _ (r : Redis) where
  open r use {Store, get}

  pub enforce_promo_redeem_limit : Store → ℕ → ℕ → ℕ → Outcome (Unit {0}) × Store
  enforce_promo_redeem_limit s user_id limit now =
      let key = rate_limit_promo user_id (hour_of now) in
      let (count, s') = incr_with_ttl r s key (seconds_until_next_hour now) in
      (if ltb limit count then rate_limited (seconds_until_next_hour now) else ok tt, s')

  pub consume_match_view : Store → ℕ → ℕ → ℤ → ℕ → Outcome ℤ × Store
  consume_match_view s identity fixture_id limit now =
      if eqb_ℤ limit unlimited
      then (ok unlimited, s)
      else let (count, s') =
          incr_distinct_within_limit r s (limit_key identity now) (seen_key identity now) fixture_id
            limit (seconds_until_utc_midnight now) in
        (remaining_or_raise limit count, s')

  pub consume_backtester_run : Store → ℕ → ℤ → ℕ → Outcome (Unit {0}) × Store
  consume_backtester_run s user_id limit now =
      if eqb_ℤ limit unlimited
      then (ok tt, s)
      else let (count, s') =
          incr_within_limit r s (limits_backtester user_id (date_of now)) limit
            (seconds_until_utc_midnight now) in
        (raise_if_none count, s')

  -- `max(0, limit - used)` is the positive part of the difference.
  pub match_views_remaining : Store → ℕ → ℤ → ℕ → Option ℕ
  match_views_remaining s identity limit now =
      if eqb_ℤ limit unlimited
      then none
      else some (pos_part (limit -ℤ pos (or_zero (get s (limit_key identity now)))))

  pub record_push_delivered : Store → ℕ → ℕ → Store
  record_push_delivered s user_id now =
      (incr_with_ttl r s (push_key user_id now) (seconds_until_utc_midnight now)).1

  pub reserve_push : Store → ℕ → ℤ → ℕ → Bool × Store
  unfolding record_push_delivered
  reserve_push s user_id limit now =
      if eqb_ℤ limit unlimited
      then (true, record_push_delivered s user_id now)
      else let (count, s') =
          incr_within_limit r s (push_key user_id now) limit (seconds_until_utc_midnight now) in
        (is_some count, s')

  pub release_push : Store → ℕ → ℕ → Store
  release_push s user_id now = (decr_floor_zero r s (push_key user_id now)).1
