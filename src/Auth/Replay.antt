-- ===== src/Auth/Replay.antt =====
-- backend/app/services/refresh_replay.py: the entries that a rotation leaves for a replay. A script is
-- one step on the server; each call may be lost to an error or a timeout, and then an argument holds
-- the store that it left. Encryption, the fingerprint of a user agent (which is none when missing or
-- empty) and the functions of core/client_ip.py on addresses are parameters.
use betpulse.Prelude.{ℕ, zero, Bool, Option, none, some, leb, ltb, not, if◌then◌else◌}
use betpulse.Prelude.Int.{ℤ, pos, negsuc}
use betpulse.Redis.{Redis, HashCommands, rl_refresh_replay_ip}
use betpulse.RateLimit.{Answer, answered, lost}
use betpulse.Counters.{incr_within_limit, or_zero}
use betpulse.Auth.Rotate.{
  ReplayEntry, OrRefusal, got, refused, no_entry, store_unavailable, entry_invalid, cap_reached,
  ip_limited,
}

-- The settings refresh_replay_window_seconds, refresh_replay_max_uses and
-- rate_limit_refresh_replay_per_minute.
pub record ReplaySettings : Type 0 where
  pub window_seconds : ℕ
  pub max_uses : ℕ
  pub per_minute : ℕ

-- What a rotation hands over: T2 with its row's id, and the request.
pub record Rotation : Type 0 where
  pub presented_hash : ℕ
  pub token : ℕ
  pub token_id : ℕ
  pub user_agent : Option ℕ
  pub ip : Option ℕ
  pub credentials_changed_at : Option ℕ

unfoldable pub enabled : ReplaySettings → Bool
enabled settings = ltb 0 settings.window_seconds

-- `user_agent_fingerprint`, with the keyed hash.
abbrev pub fingerprint_of : (ℕ → ℕ) → Option ℕ → Option ℕ
fingerprint_of fingerprint none = none
fingerprint_of fingerprint (some user_agent) = some (fingerprint user_agent)

-- `replay_subnet(ip) if ip else None`
abbrev pub subnet_of : (ℕ → Option ℕ) → Option ℕ → Option ℕ
subnet_of replay_subnet none = none
subnet_of replay_subnet (some ip) = replay_subnet ip

abbrev pub entry_of : Rotation → ℕ → ℕ → ReplayEntry
entry_of t ua subnet = record {
  token = t.token;
  token_id = t.token_id;
  ua = ua;
  subnet = subnet;
  cca = t.credentials_changed_at;
}

module _ (r : Redis) (hs : HashCommands r) where
  open r use {Store}
  open hs use {exists, del, hset, expire_hash, hget_data, hget_uses, hincr_uses, hdecr_uses}

  -- _REMEMBER
  abbrev pub remember_script : ℕ → ℕ → Store → ℕ → Store
  remember_script blob window s k = expire_hash window (hset blob 0 (del s k) k) k

  -- _CLAIM
  abbrev pub claim_script : ℕ → Store → ℕ → ℤ × Store
  claim_script max_uses s k =
      if not (exists s k)
      then (negsuc 0, s)
      else let (uses, s') = hincr_uses s k in
        if ltb max_uses uses then (negsuc 1, (hdecr_uses s' k).1) else (pos uses, s')

  -- _RELEASE
  abbrev pub release_script : Store → ℕ → ℕ × Store
  release_script s k =
      if not (exists s k)
      then (0, s)
      else if leb (or_zero (hget_uses s k)) 0
      then (0, s)
      else hdecr_uses s k

  module _ (encrypt : ReplayEntry → ℕ) (fingerprint : ℕ → ℕ) (replay_subnet : ℕ → Option ℕ) where
    abbrev pub store_entry : Answer Store → Store → ℕ → ℕ → ReplayEntry → Store
    store_entry answered s window k entry = remember_script (encrypt entry) window s k
    store_entry (lost s') s window k entry = s'

    -- Nothing is stored without a window, a user agent and an address.
    abbrev pub remember_for :
        ReplaySettings → Answer Store → Store → Rotation → Option ℕ → Option ℕ → Store
    remember_for settings call s t (some ua) (some subnet) =
        if not (enabled settings)
        then s
        else store_entry call s settings.window_seconds t.presented_hash (entry_of t ua subnet)
    remember_for settings call s t _ _ = s

    unfoldable pub remember : ReplaySettings → Answer Store → Store → Rotation → Store
    unfolding enabled
    remember settings call s t =
        remember_for settings call s t (fingerprint_of fingerprint t.user_agent)
          (subnet_of replay_subnet t.ip)

  module _ (decrypt : ℕ → Option ReplayEntry) where
    abbrev pub or_invalid : Option ReplayEntry → OrRefusal ReplayEntry
    or_invalid none = refused entry_invalid
    or_invalid (some entry) = got entry

    abbrev pub read_entry : Option ℕ → OrRefusal ReplayEntry
    read_entry none = refused no_entry
    read_entry (some blob) = or_invalid (decrypt blob)

    unfoldable pub load : Answer Store → Store → ℕ → OrRefusal ReplayEntry
    load answered s presented_hash = read_entry (hget_data s presented_hash)
    load (lost s') s presented_hash = refused store_unavailable

  -- How the three calls of a claim end.
  pub record Calls : Type 0 where
    pub claiming : Answer Store
    pub limiting : Answer Store
    pub releasing : Answer Store

  module _ (rate_limit_bucket : ℕ → ℕ) where
    abbrev pub released : Answer Store → Store → ℕ → OrRefusal ℕ × Store
    released answered s k = (refused ip_limited, (release_script s k).1)
    released (lost s') s k = (refused store_unavailable, s')

    abbrev pub limited : Calls → ℕ → ℕ → Option ℕ × Store → OrRefusal ℕ × Store
    limited calls k uses (none, s) = released calls.releasing s k
    limited calls k uses (some within, s) = (got uses, s)

    -- The client's budget, after a use is taken.
    abbrev pub within_ip :
        ReplaySettings → Calls → Answer Store → ℕ → ℕ → ℤ × Store → OrRefusal ℕ × Store
    within_ip settings calls _ k ip (negsuc zero, s) = (refused no_entry, s)
    within_ip settings calls _ k ip (negsuc _, s) = (refused cap_reached, s)
    within_ip settings calls answered k ip (pos uses, s) = limited calls k uses (
        incr_within_limit r s (rl_refresh_replay_ip (rate_limit_bucket ip))
          (pos settings.per_minute) 60)
    within_ip settings calls (lost s') k ip (pos uses, s) = (refused store_unavailable, s')

    abbrev pub claim_by :
        ReplaySettings → Calls → Answer Store → Store → ℕ → ℕ → OrRefusal ℕ × Store
    claim_by settings calls answered s k ip =
        within_ip settings calls calls.limiting k ip (claim_script settings.max_uses s k)
    claim_by settings calls (lost s') s k ip = (refused store_unavailable, s')

    unfoldable pub claim : ReplaySettings → Calls → Store → ℕ → ℕ → OrRefusal ℕ × Store
    claim settings calls s presented_hash ip =
        claim_by settings calls calls.claiming s presented_hash ip
