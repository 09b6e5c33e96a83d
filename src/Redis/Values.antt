-- ===== src/Redis/Values.antt =====
-- What a Redis key holds, with its time to live in seconds (`none`: it never expires).
use betpulse.Prelude.{
  ℕ, suc, ◌-◌, Bool, false, Option, none, some, List, [], ◌∷◌, leb, contains, if◌then◌else◌,
}
use betpulse.Prelude.Int.{ℤ, pos, negsuc}

pub record Counter : Type 0 where
  pub value : ℕ
  pub ttl : Option ℕ

pub record Members : Type 0 where
  pub items : List ℕ
  pub ttl : Option ℕ

-- A hash with the fields `data` (the blob) and `uses`.
pub record Hash : Type 0 where
  pub blob : ℕ
  pub uses : ℕ
  pub ttl : Option ℕ

abbrev pub data_of : Option Hash → Option ℕ
data_of none = none
data_of (some h) = some h.blob

abbrev pub uses_of : Option Hash → Option ℕ
uses_of none = none
uses_of (some h) = some h.uses

abbrev pub expiring_hash : ℕ → Option Hash → Option Hash
expiring_hash t none = none
expiring_hash t (some h) = some (record h { ttl = some t })

-- GET
abbrev pub value_of : Option Counter → Option ℕ
value_of none = none
value_of (some c) = some c.value

-- `tonumber(GET or '0')`
abbrev pub amount : Option Counter → ℕ
amount none = 0
amount (some c) = c.value

abbrev pub ttl_reply : Option ℕ → ℤ
ttl_reply none = negsuc 0
ttl_reply (some t) = pos t

-- TTL: -2 for a missing key, -1 for one that never expires.
abbrev pub ttl_of : Option Counter → ℤ
ttl_of none = negsuc 1
ttl_of (some c) = ttl_reply c.ttl

abbrev pub ttl_of_set : Option Members → ℤ
ttl_of_set none = negsuc 1
ttl_of_set (some m) = ttl_reply m.ttl

abbrev pub incremented : Option Counter → Counter
incremented none = record { value = 1; ttl = none }
incremented (some c) = record c { value = suc c.value }

abbrev pub expiring : ℕ → Option Counter → Option Counter
expiring t none = none
expiring t (some c) = some (record c { ttl = some t })

abbrev pub expiring_set : ℕ → Option Members → Option Members
expiring_set t none = none
expiring_set t (some m) = some (record m { ttl = some t })

abbrev pub is_member : ℕ → Option Members → Bool
is_member a none = false
is_member a (some m) = contains m.items a

abbrev pub added : ℕ → Option Members → Members
added a none = record { items = a ∷ []; ttl = none }
added a (some m) = record m { items = if contains m.items a then m.items else a ∷ m.items }

abbrev pub aged_by : ℕ → Counter → Option ℕ → Option Counter
aged_by t c none = some c
aged_by t c (some u) = if leb u t then none else some (record c { ttl = some (u - t) })

abbrev pub aged : ℕ → Option Counter → Option Counter
aged t none = none
aged t (some c) = aged_by t c c.ttl

abbrev pub aged_set_by : ℕ → Members → Option ℕ → Option Members
aged_set_by t m none = some m
aged_set_by t m (some u) = if leb u t then none else some (record m { ttl = some (u - t) })

abbrev pub aged_set : ℕ → Option Members → Option Members
aged_set t none = none
aged_set t (some m) = aged_set_by t m m.ttl
