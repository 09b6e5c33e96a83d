-- ===== src/Redis/Hashes.antt =====
-- The commands on hashes that the scripts of services/refresh_replay.py call, on the server of the
-- counters. The hashes are those of the keys auth:refresh_replay:{hash of the presented token}, named
-- by that hash. The laws are the documented effect of each command on the one key it names.
use betpulse.Prelude.{ℕ, suc, ◌≤◌, ◌≡◌, Bool, Option, none, some, is_some}
use betpulse.Redis.Core.{Redis}
use betpulse.Redis.Keys.{CounterKey}
use betpulse.Redis.Values.{Hash, data_of, uses_of, expiring_hash}

pub record HashCommands (r : Redis) : Type 1 where
  -- What the server holds under a key.
  pub hash : r.Store → ℕ → Option Hash
  -- The commands; HSET writes both fields, HINCRBY adds 1 or -1 to `uses`.
  pub exists : r.Store → ℕ → Bool
  pub del : r.Store → ℕ → r.Store
  pub hset : ℕ → ℕ → r.Store → ℕ → r.Store
  pub expire_hash : ℕ → r.Store → ℕ → r.Store
  pub hget_data : r.Store → ℕ → Option ℕ
  pub hget_uses : r.Store → ℕ → Option ℕ
  pub hincr_uses : r.Store → ℕ → ℕ × r.Store
  pub hdecr_uses : r.Store → ℕ → ℕ × r.Store
  -- Reads.
  pub exists_lem : (s : r.Store) (k : ℕ) → exists s k ≡ is_some (hash s k)
  pub hget_data_lem : (s : r.Store) (k : ℕ) → hget_data s k ≡ data_of (hash s k)
  pub hget_uses_lem : (s : r.Store) (k : ℕ) → hget_uses s k ≡ uses_of (hash s k)
  pub hash-del_self : (s : r.Store) (k : ℕ) → hash (del s k) k ≡ none
  -- HSET on a missing key makes a hash without an expiry.
  pub hash-hset_self :
      (blob uses : ℕ) (s : r.Store) (k : ℕ)
      → hash s k ≡ none
      → hash (hset blob uses s k) k ≡ some (record { blob = blob; uses = uses; ttl = none })
  -- EXPIRE with a positive number of seconds.
  pub hash-expire_hash_self :
      (t : ℕ) (s : r.Store) (k : ℕ)
      → 1 ≤ t
      → hash (expire_hash t s k) k ≡ expiring_hash t (hash s k)
  -- HINCRBY on a hash that is there.
  pub hincr_uses-reply :
      (s : r.Store) (k : ℕ) (h : Hash) → hash s k ≡ some h → (hincr_uses s k).0 ≡ suc h.uses
  pub hash-hincr_uses_self :
      (s : r.Store) (k : ℕ) (h : Hash)
      → hash s k ≡ some h
      → hash (hincr_uses s k).1 k ≡ some (record h { uses = suc h.uses })
  pub hash-hdecr_uses_self :
      (s : r.Store) (k : ℕ) (h : Hash) (n : ℕ)
      → hash s k ≡ some h
      → h.uses ≡ suc n
      → hash (hdecr_uses s k).1 k ≡ some (record h { uses = n })
  -- Every other key is left alone.
  pub counter-hincr_uses :
      (s : r.Store) (j : CounterKey) (k : ℕ) → r.counter (hincr_uses s k).1 j ≡ r.counter s j
  pub counter-hdecr_uses :
      (s : r.Store) (j : CounterKey) (k : ℕ) → r.counter (hdecr_uses s k).1 j ≡ r.counter s j
  pub hash-incr : (s : r.Store) (j : ℕ) (k : CounterKey) → hash (r.incr s k).1 j ≡ hash s j
  pub hash-expire :
      (t : ℕ) (s : r.Store) (j : ℕ) (k : CounterKey) → hash (r.expire t s k) j ≡ hash s j
