-- ===== src/Auth/ReplayLimits.antt =====
-- backend/app/services/refresh_replay.py: what a claim counts, and what is loaded after a rotation.
use betpulse.Prelude.{
  ℕ, zero, suc, ◌≡◌, refl, Bool, false, Option, none, some, leb, ltb, ◌&&◌, arith, if◌then◌else◌,
}
use betpulse.Prelude.Int.{ℤ, pos, negsuc}
use betpulse.Redis.{Redis, HashCommands, Hash, CounterKey, amount, uses_of, rl_refresh_replay_ip}
use betpulse.RateLimit.{answered}
use betpulse.Counters.{incr_within_limit}
use betpulse.Counters.Frame.{incr_within_limit-hash}
use betpulse.Limits.Pushes.{after_take-amount}
use betpulse.Counters.Effect.{taken, incr_within_limit-reply, incr_within_limit_self}
use betpulse.Auth.Rotate.{OrRefusal, got, refused, cap_reached, ip_limited}
use betpulse.Auth.Replay.{
  ReplaySettings, Calls, claim, claim_script, release_script, limited, within_ip,
}

-- The uses of an entry; none for a missing entry.
abbrev pub replays : (r : Redis) → HashCommands r → r.Store → ℕ → Option ℕ
replays r hs s k = uses_of (hs.hash s k)

module _ (r : Redis) (hs : HashCommands r) where
  open r use {Store, counter}
  open hs use {hash}

  -- All three calls are answered.
  abbrev pub all_answered : Calls r hs
  all_answered = record { claiming = answered; limiting = answered; releasing = answered }

  -- _CLAIM on an entry that is there.
  claim_script_lem :
      (max_uses : ℕ) (s : Store) (k : ℕ) (h : Hash)
      → hash s k ≡ some h
      → let (reply, s') = claim_script r hs max_uses s k in
        (reply ≡ (if leb max_uses h.uses then negsuc 1 else pos (suc h.uses)))
        × (hash s' k
            ≡ (if leb max_uses h.uses then some h else some (record h { uses = suc h.uses })))
        × ((j : CounterKey) → counter s' j ≡ counter s j)
  claim_script_lem max_uses s k h e =
      let more = record h { uses = suc h.uses } in
      let s' = (hs.hincr_uses s k).1 in
      let counted = hs.hash-hincr_uses_self s k h e in
      (
        ground (arith, e, hs.exists_lem s k, hs.hincr_uses-reply s k h e),
        ground (
          arith,
          e,
          hs.exists_lem s k,
          hs.hincr_uses-reply s k h e,
          counted,
          hs.hash-hdecr_uses_self s' k more h.uses counted refl,
        ),
        λ j. ground (
          arith,
          e,
          hs.exists_lem s k,
          hs.hincr_uses-reply s k h e,
          hs.counter-hincr_uses s j k,
          hs.counter-hdecr_uses s' j k,
        ),
      )

  -- _RELEASE of a use that was taken.
  release_script_lem :
      (s : Store) (k : ℕ) (h : Hash) (n : ℕ)
      → hash s k ≡ some h
      → h.uses ≡ suc n
      → (hash (release_script r hs s k).1 k ≡ some (record h { uses = n }))
        × ((j : CounterKey) → counter (release_script r hs s k).1 j ≡ counter s j)
  release_script_lem s k h n e u = (
    ground
        (arith, e, u, hs.exists_lem s k, hs.hget_uses_lem s k, hs.hash-hdecr_uses_self s k h n e u),
    λ j. ground (arith, e, u, hs.exists_lem s k, hs.hget_uses_lem s k, hs.counter-hdecr_uses s j k),
  )

  module _ (rate_limit_bucket : ℕ → ℕ) where
    -- What a client's bucket has counted.
    abbrev pub replays_of : Store → ℕ → ℕ
    replays_of s ip = amount (counter s (rl_refresh_replay_ip (rate_limit_bucket ip)))

    -- A claim is granted while the entry and the client's bucket have room.
    abbrev pub has_room : ReplaySettings → Hash → ℕ → Bool
    has_room settings h used = ltb h.uses settings.max_uses && ltb used settings.per_minute

    -- The answer, the entry and the bucket after a claim on `h` from the store `s`.
    abbrev pub Counted : ReplaySettings → Store → ℕ → ℕ → Hash → OrRefusal ℕ × Store → Type 0
    Counted settings s k ip h (answer, s') =
        let used = replays_of s ip in
        let room = has_room settings h used in
        (answer ≡ (
          if room
          then got (suc h.uses)
          else if leb settings.max_uses h.uses
          then refused cap_reached
          else refused ip_limited))
        × (hash s' k ≡ some (record h { uses = if room then suc h.uses else h.uses }))
        × (replays_of s' ip ≡ (if room then suc used else used))

    limited-Counted :
        (settings : ReplaySettings) (s : Store) (k ip uses : ℕ) (h : Hash) (p : Option ℕ × Store)
        → let j = rl_refresh_replay_ip (rate_limit_bucket ip) in
          p.0 ≡ taken (pos settings.per_minute) (counter s j)
          → hash p.1 k ≡ some (record h { uses = suc h.uses })
          → amount (counter p.1 j) ≡ (
              if leb settings.per_minute (replays_of s ip)
              then replays_of s ip
              else suc (replays_of s ip))
          → leb settings.max_uses h.uses ≡ false
          → uses ≡ suc h.uses
          → Counted settings s k ip h (limited r hs rate_limit_bucket all_answered k uses p)
    limited-Counted settings s k ip uses h (none, s') e kept counted open_ u =
        let more = record h { uses = suc h.uses } in
        let (entry, others) = release_script_lem s' k more h.uses kept refl in
        let at = others (rl_refresh_replay_ip (rate_limit_bucket ip)) in
        (
          ground (arith, e, open_),
          ground (arith, e, open_, entry),
          ground (arith, e, open_, at, counted),
        )
    limited-Counted settings s k ip uses h (some within, s') e kept counted open_ u = (
      ground (arith, e, open_, u),
      ground (arith, e, open_, kept),
      ground (arith, e, open_, counted),
    )

    within_ip-Counted :
        (settings : ReplaySettings) (s : Store) (k ip : ℕ) (h : Hash) (p : ℤ × Store)
        → p.0 ≡ (if leb settings.max_uses h.uses then negsuc 1 else pos (suc h.uses))
        → hash p.1 k
          ≡ (if leb settings.max_uses h.uses then some h else some (record h { uses = suc h.uses }))
        → ((j : CounterKey) → counter p.1 j ≡ counter s j)
        → Counted settings s k ip h
            (within_ip r hs rate_limit_bucket settings all_answered answered k ip p)
    within_ip-Counted settings s k ip h (negsuc zero, s') e kept others = absurd (ground (arith, e))
    within_ip-Counted settings s k ip h (negsuc (suc n), s') e kept others =
        let at = others (rl_refresh_replay_ip (rate_limit_bucket ip)) in
        (ground (arith, e), ground (arith, e, kept), ground (arith, e, at))
    within_ip-Counted settings s k ip h (pos uses, s') e kept others =
        let j = rl_refresh_replay_ip (rate_limit_bucket ip) in
        let limit = pos settings.per_minute in
        limited-Counted settings s k ip uses h (incr_within_limit r s' j limit 60)
          (ground (arith, incr_within_limit-reply r s' j limit 60, others j))
          (ground (arith, e, kept, incr_within_limit-hash r hs s' k j limit 60))
          (ground (
            arith,
            incr_within_limit_self r s' j limit 60,
            others j,
            after_take-amount settings.per_minute 60 (counter s j),
          ))
          (ground (arith, e)) (ground (arith, e))

    -- A claim whose Redis calls are answered, on an entry that is there: it is granted exactly while
    -- the entry has uses left and the client's bucket has room, and then counts one in both; a refusal
    -- says which of the two is full, and counts nothing.
    pub claim-Counted :
        (settings : ReplaySettings) (s : Store) (k ip : ℕ) (h : Hash)
        → hash s k ≡ some h
        → Counted settings s k ip h (claim r hs rate_limit_bucket settings all_answered s k ip)
    unfolding claim
    claim-Counted settings s k ip h e =
        let (reply, kept, others) = claim_script_lem settings.max_uses s k h e in
        within_ip-Counted settings s k ip h (claim_script r hs settings.max_uses s k) reply kept
          others
