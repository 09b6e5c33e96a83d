-- ===== src/Redis/Keys.antt =====
-- The keys that the services format, by the function that formats them: services/limits.py,
-- services/rate_limit.py and services/refresh_replay.py. Identities, dates and hours are only
-- compared, so they are numbers.
use betpulse.Prelude.{ℕ}
use native.Mathlib.Decide.{ℕ_discrete}

pub data CounterKey : Type 0 where
  limits : ℕ → ℕ → CounterKey
  limits_backtester : ℕ → ℕ → CounterKey
  limits_push : ℕ → ℕ → CounterKey
  rate_limit_promo : ℕ → ℕ → CounterKey
  rl_login_ip : ℕ → CounterKey
  rl_llm_analysis : ℕ → CounterKey
  rl_match_detail : ℕ → CounterKey
  rl_match_list : ℕ → CounterKey
  rl_refresh_ip : ℕ → CounterKey
  rl_user : ℕ → ℕ → CounterKey
  rl_admin_mutation_ip : ℕ → CounterKey
  rl_refresh_replay_ip : ℕ → CounterKey

pub data SetKey : Type 0 where
  limits_seen : ℕ → ℕ → SetKey

pub CounterKey-discrete : Discrete CounterKey
CounterKey-discrete = hlevel ℕ_discrete

pub SetKey-discrete : Discrete SetKey
SetKey-discrete = hlevel ℕ_discrete
