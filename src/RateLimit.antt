-- ===== src/RateLimit.antt =====
-- backend/app/services/rate_limit.py: fixed windows over incr_with_ttl, and the limits built on
-- them. `rate_limit_bucket` (core/client_ip.py) maps an address to its bucket; it is an argument.
pub mod Window
mod Tests
use betpulse.Prelude.{ℕ, Option, none, some, ltb, if◌then◌else◌}
use betpulse.Prelude.Int.{ℤ, pos, negsuc}
use betpulse.Redis.{
  Redis, CounterKey, rl_login_ip, rl_llm_analysis, rl_match_detail, rl_match_list, rl_refresh_ip,
  rl_user, rl_admin_mutation_ip,
}
use betpulse.Counters.{incr_with_ttl}

-- A call goes through, or raises RateLimitExceeded(retry_after).
pub data Verdict : Type 0 where
  pass_through : Verdict
  exceeded : ℕ → Verdict

-- `ttl if ttl and ttl > 0 else window_seconds`
abbrev pub retry_after_of : ℤ → ℕ → ℕ
retry_after_of (pos ttl) window = if ltb 0 ttl then ttl else window
retry_after_of (negsuc _) window = window

-- How a Redis call ends: answered, or lost to an error or a timeout, with the store it left.
pub data Answer (S : Type 0) : Type 0 where
  answered : Answer S
  lost : S → Answer S

module _ (r : Redis) where
  open r use {Store, ttl}

  pub enforce_fixed_window : Store → CounterKey → ℕ → ℕ → Verdict × Store
  enforce_fixed_window s key limit window_seconds =
      let (count, s') = incr_with_ttl r s key window_seconds in
      (
        if ltb limit count
            then exceeded (retry_after_of (ttl s' key) window_seconds)
            else pass_through,
        s',
      )

  module _ (rate_limit_bucket : ℕ → ℕ) where
    enforce_login_ip_limit : Store → ℕ → ℕ → Verdict × Store
    unfolding enforce_fixed_window
    enforce_login_ip_limit s ip limit =
        enforce_fixed_window s (rl_login_ip (rate_limit_bucket ip)) limit 60

    enforce_refresh_ip_limit : Answer Store → Store → ℕ → ℕ → Verdict × Store
    unfolding enforce_fixed_window
    enforce_refresh_ip_limit answered s ip limit =
        enforce_fixed_window s (rl_refresh_ip (rate_limit_bucket ip)) limit 60
    enforce_refresh_ip_limit (lost s') s ip limit = (pass_through, s')

    enforce_admin_mutation_ip_limit : Store → ℕ → ℕ → Verdict × Store
    unfolding enforce_fixed_window
    enforce_admin_mutation_ip_limit s ip limit =
        enforce_fixed_window s (rl_admin_mutation_ip (rate_limit_bucket ip)) limit 60

  enforce_llm_analysis_limit : Store → ℕ → ℕ → Verdict × Store
  unfolding enforce_fixed_window
  enforce_llm_analysis_limit s identity limit =
      enforce_fixed_window s (rl_llm_analysis identity) limit 60

  enforce_match_detail_limit : Store → ℕ → ℕ → ℕ → Verdict × Store
  unfolding enforce_fixed_window
  enforce_match_detail_limit s identity limit window_seconds =
      enforce_fixed_window s (rl_match_detail identity) limit window_seconds

  enforce_match_list_limit : Store → ℕ → ℕ → ℕ → Verdict × Store
  unfolding enforce_fixed_window
  enforce_match_list_limit s identity limit window_seconds =
      enforce_fixed_window s (rl_match_list identity) limit window_seconds

  enforce_user_limit : Store → ℕ → ℕ → ℕ → ℕ → Verdict × Store
  unfolding enforce_fixed_window
  enforce_user_limit s scope user_id limit window_seconds =
      enforce_fixed_window s (rl_user scope user_id) limit window_seconds
