-- ===== src/Clock.antt =====
-- Python's `datetime` in UTC, as microseconds since the epoch, and the calendar arithmetic of
-- backend/app/services/limits.py.
use betpulse.Prelude.{ℕ, ◌+◌, ◌-◌, ◌*◌, ◌/◌, ◌≤◌, ◌<◌, max, arith}

abbrev pub second : ℕ
second = 1_000_000

abbrev pub hour : ℕ
hour = 3_600_000_000

abbrev pub day : ℕ
day = 86_400_000_000

-- `:%Y-%m-%d` and `:%Y-%m-%d-%H` of an instant, as the number of the day and of the hour.
abbrev pub date_of : ℕ → ℕ
date_of now = now / day

abbrev pub hour_of : ℕ → ℕ
hour_of now = now / hour

pub seconds_until_next_hour : ℕ → ℕ
seconds_until_next_hour now = let nxt = (now + hour) / hour * hour in max 1 ((nxt - now) / second)

pub seconds_until_utc_midnight : ℕ → ℕ
seconds_until_utc_midnight now =
    let next_midnight = (now + day) / day * day in max 1 ((next_midnight - now) / second)

-- The time to live of a daily key lies between a second and a day; the key is gone at the latest
-- one second after the next midnight, and at the earliest less than one second before it.
pub seconds_until_utc_midnight_bounds :
    (now : ℕ)
    → let left = seconds_until_utc_midnight now in
      (1 ≤ left)
      × (left ≤ 86_400)
      × (now + left * second < (date_of now + 1) * day + second)
      × ((date_of now + 1) * day < now + (left + 1) * second)
unfolding seconds_until_utc_midnight
seconds_until_utc_midnight_bounds now = omega arith

-- The same for an hourly key.
pub seconds_until_next_hour_bounds :
    (now : ℕ)
    → let left = seconds_until_next_hour now in
      (1 ≤ left)
      × (left ≤ 3600)
      × (now + left * second < (hour_of now + 1) * hour + second)
      × ((hour_of now + 1) * hour < now + (left + 1) * second)
unfolding seconds_until_next_hour
seconds_until_next_hour_bounds now = omega arith
