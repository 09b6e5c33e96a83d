-- ===== src/Tiers/Cache.antt =====
-- The cache of tiers in Redis: the keys tier:{name}, named by the tier, each with a JSON text that is
-- kept as the object it denotes. The laws are the documented effect of each command on its key.
use betpulse.Prelude.{ℕ, ◌≡◌, ◌≢◌, ◌-◌, Bool, Option, none, some, List, leb, if◌then◌else◌}
use betpulse.Prelude.Int.{ℤ}

pub data Json : Type 0 where
  text : ℕ → Json
  number : ℤ → Json
  boolean : Bool → Json

pub record Config : Type 0 where
  pub feature_flags : List (ℕ × Json)
  pub limits : List (ℕ × Json)

-- An object with its time to live in seconds.
pub record Held : Type 0 where
  pub config : Config
  pub ttl : ℕ

abbrev pub config_of : Option Held → Option Config
config_of none = none
config_of (some h) = some h.config

abbrev pub aged : ℕ → Option Held → Option Held
aged t none = none
aged t (some h) = if leb h.ttl t then none else some (record h { ttl = h.ttl - t })

pub record Cache : Type 1 where
  pub Store : Type 0
  pub held : Store → ℕ → Option Held
  pub get : Store → ℕ → Option Config
  -- SET … EX
  pub set_ex : ℕ → Config → Store → ℕ → Store
  pub delete : Store → ℕ → Store
  -- The passage of seconds.
  pub pass : ℕ → Store → Store
  pub get_lem : (s : Store) (k : ℕ) → get s k ≡ config_of (held s k)
  pub held-set_ex_self :
      (t : ℕ) (c : Config) (s : Store) (k : ℕ)
      → held (set_ex t c s k) k ≡ some (record { config = c; ttl = t })
  pub held-set_ex_ne :
      (t : ℕ) (c : Config) (s : Store) (j k : ℕ) → j ≢ k → held (set_ex t c s k) j ≡ held s j
  pub held-delete_self : (s : Store) (k : ℕ) → held (delete s k) k ≡ none
  pub held-delete_ne : (s : Store) (j k : ℕ) → j ≢ k → held (delete s k) j ≡ held s j
  pub held-pass : (t : ℕ) (s : Store) (k : ℕ) → held (pass t s) k ≡ aged t (held s k)
