-- ===== src/RateLimit/Tests.antt =====
-- The theorems on fixed windows at concrete inputs, on the server in memory.
use betpulse.Prelude.{◌≡◌, arith}
use betpulse.Redis.{rl_login_ip, CounterKey}
use betpulse.Redis.Fake.{fake, empty_store}
use betpulse.RateLimit.{pass_through, enforce_fixed_window}
use betpulse.RateLimit.Window.{no_lockout}

abbrev key : CounterKey
key = rl_login_ip 5

no_lockout_example :
    (enforce_fixed_window fake
      (fake.pass 60 (enforce_fixed_window fake empty_store key 1 60).1)
      key
      1
      60).0
    ≡ pass_through
unfolding fake empty_store
no_lockout_example = no_lockout fake empty_store key 1 60 60 (omega arith) (omega arith)
