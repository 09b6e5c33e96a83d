-- ===== src/Auth/ReplayBudget.antt =====
-- backend/app/services/refresh_replay.py: an entry from its rotation on, over any number of claims.
use betpulse.Prelude.{ℕ, ◌+◌, ◌≤◌, ◌≡◌, true, Option, some, List, [], ◌∷◌, arith}
use betpulse.Redis.{Redis, HashCommands, Hash}
use betpulse.RateLimit.{answered}
use betpulse.Auth.Rotate.{ReplayEntry, OrRefusal, got, refused}
use betpulse.Auth.Replay.{ReplaySettings, Rotation, claim, enabled, entry_of, remember, load}
use betpulse.Auth.ReplayLimits.{all_answered, claim-Counted}

abbrev pub one_if_got : OrRefusal ℕ → ℕ
one_if_got (got _) = 1
one_if_got (refused _) = 0

module _ (r : Redis) (hs : HashCommands r) (rate_limit_bucket : ℕ → ℕ) where
  open r use {Store}
  open hs use {hash}

  -- Claims by clients one after the other: how many are granted, and the store.
  abbrev pub claim_all : ReplaySettings → Store → ℕ → List ℕ → ℕ × Store
  claim_all settings s k [] = (0, s)
  claim_all settings s k (ip ∷ ips) =
      let (answer, s') = claim r hs rate_limit_bucket settings (all_answered r hs) s k ip in
      let (granted, s'') = claim_all settings s' k ips in (one_if_got answer + granted, s'')

  claim_one :
      (settings : ReplaySettings) (s : Store) (k ip : ℕ) (h : Hash)
      → hash s k ≡ some h
      → h.uses ≤ settings.max_uses
      → let (answer, s') = claim r hs rate_limit_bucket settings (all_answered r hs) s k ip in
        (hash s' k ≡ some (record h { uses = one_if_got answer + h.uses }))
        × one_if_got answer + h.uses ≤ settings.max_uses
  claim_one settings s k ip h e below =
      let (answer, kept, counted) = claim-Counted r hs rate_limit_bucket settings s k ip h e in
      (ground (arith, answer, kept), ground (arith, answer, below))

  claim_all-uses :
      (settings : ReplaySettings) (s : Store) (k : ℕ) (ips : List ℕ) (h : Hash)
      → hash s k ≡ some h
      → h.uses ≤ settings.max_uses
      → let (granted, s') = claim_all settings s k ips in
        (hash s' k ≡ some (record h { uses = granted + h.uses }))
        × granted + h.uses ≤ settings.max_uses
  claim_all-uses settings s k [] h e below = (ground (arith, e), omega (arith, below))
  claim_all-uses settings s k (ip ∷ ips) h e below =
      let (answer, s') = claim r hs rate_limit_bucket settings (all_answered r hs) s k ip in
      let (kept, within) = claim_one settings s k ip h e below in
      let (last, bound) =
        claim_all-uses settings s' k ips (record h { uses = one_if_got answer + h.uses }) kept
          within in
      (ground (arith, last), omega (arith, bound))

  module _ (encrypt : ReplayEntry → ℕ) (fingerprint : ℕ → ℕ) (replay_subnet : ℕ → Option ℕ) where
    remember-hash :
        (settings : ReplaySettings) (s : Store) (t : Rotation) (user_agent ip subnet : ℕ)
        → enabled settings ≡ true
        → t.user_agent ≡ some user_agent
        → t.ip ≡ some ip
        → replay_subnet ip ≡ some subnet
        → hash
            (remember r hs encrypt fingerprint replay_subnet settings answered s t)
            t.presented_hash
          ≡ some (record {
            blob = encrypt (entry_of t (fingerprint user_agent) subnet);
            uses = 0;
            ttl = some settings.window_seconds;
          })
    unfolding remember
    remember-hash settings s t user_agent ip subnet on ua at known =
        let k = t.presented_hash in
        let entry = entry_of t (fingerprint user_agent) subnet in
        let emptied = hs.hash-del_self s k in
        let written = hs.hash-hset_self (encrypt entry) 0 (hs.del s k) k emptied in
        let expiring =
          hs.hash-expire_hash_self settings.window_seconds
            (hs.hset (encrypt entry) 0 (hs.del s k) k) k in
        ground (arith, on, ua, at, known, written, expiring)

    -- What a rotation remembers is loaded back as it was, with the new token, the fingerprint of its
    -- user agent and the client's subnet, and whatever clients then claim it, in whatever order, at
    -- most `max_uses` claims are granted; the entry is still there afterwards. This is for a replay
    -- window that is open, a request with a user agent and a known address, Redis calls that are
    -- answered within the window, and a decryption that undoes the encryption of the entry.
    pub remember-claim_all :
        (decrypt : ℕ → Option ReplayEntry) (settings : ReplaySettings) (s : Store) (t : Rotation)
        (user_agent ip subnet : ℕ) (ips : List ℕ)
        → enabled settings ≡ true
        → t.user_agent ≡ some user_agent
        → t.ip ≡ some ip
        → replay_subnet ip ≡ some subnet
        → let entry = entry_of t (fingerprint user_agent) subnet in
          decrypt (encrypt entry) ≡ some entry
          → let k = t.presented_hash in
            let s' = remember r hs encrypt fingerprint replay_subnet settings answered s t in
            let (granted, s'') = claim_all settings s' k ips in
            (load r hs decrypt answered s' k ≡ got entry)
            × granted ≤ settings.max_uses
            × (load r hs decrypt answered s'' k ≡ got entry)
    unfolding load
    remember-claim_all decrypt settings s t user_agent ip subnet ips on ua at known undone =
        let k = t.presented_hash in
        let s' = remember r hs encrypt fingerprint replay_subnet settings answered s t in
        let stored = remember-hash settings s t user_agent ip subnet on ua at known in
        let entry = entry_of t (fingerprint user_agent) subnet in
        let fresh : Hash = record {
          blob = encrypt entry;
          uses = 0;
          ttl = some settings.window_seconds;
        } in
        let (last, bound) = claim_all-uses settings s' k ips fresh stored (omega arith) in
        let s'' = (claim_all settings s' k ips).1 in
        (
          ground (arith, hs.hget_data_lem s' k, stored, undone),
          omega (arith, bound),
          ground (arith, hs.hget_data_lem s'' k, last, undone),
        )
