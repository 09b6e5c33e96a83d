-- ===== src/Redis/FakeHashes.antt =====
-- The hashes of the Redis server in memory.
use mathlib.Core.Logic.{ite, if_pos}
use native.Mathlib.Decide.{ℕ_discrete}
use betpulse.Prelude.{ℕ, suc, ◌-◌, ◌≡◌, refl, ◌∙◌, ap, Option, none, some, is_some, arith}
use betpulse.Redis.Hashes.{HashCommands}
use betpulse.Redis.Values.{Hash, data_of, uses_of, expiring_hash}
use betpulse.Redis.Fake.{FakeStore, fake}

unfoldable pub put_hash : FakeStore → ℕ → Option Hash → FakeStore
put_hash s k h = record s { hashes = λ j. ite (ℕ_discrete j k) h (s.hashes j) }

pub put_hash_self : (s : FakeStore) (k : ℕ) (h : Option Hash) → (put_hash s k h).hashes k ≡ h
unfolding put_hash
put_hash_self s k h = if_pos (ℕ_discrete k k) refl h (s.hashes k)

-- HINCRBY creates a missing hash and field at 0.
abbrev pub uses_in : Option Hash → ℕ
uses_in none = 0
uses_in (some h) = h.uses

abbrev pub with_uses : ℕ → Option Hash → Option Hash
with_uses n none = some (record { blob = 0; uses = n; ttl = none })
with_uses n (some h) = some (record h { uses = n })

abbrev pub with_fields : ℕ → ℕ → Option Hash → Option Hash
with_fields blob uses none = some (record { blob = blob; uses = uses; ttl = none })
with_fields blob uses (some h) = some (record h { blob = blob; uses = uses })

pub more_uses :
    (o : Option Hash) (h : Hash)
    → o ≡ some h
    → with_uses (suc (uses_in o)) o ≡ some (record h { uses = suc h.uses })
more_uses o h e = ap (λ x. with_uses (suc (uses_in x)) x) e

pub fewer_uses :
    (o : Option Hash) (h : Hash) (n : ℕ)
    → o ≡ some h
    → h.uses ≡ suc n
    → with_uses (uses_in o - 1) o ≡ some (record h { uses = n })
fewer_uses o h n e f =
    ap (λ x. with_uses (uses_in x - 1) x) e
    ∙ ap (λ m. some (record h { uses = m })) (omega (arith, f))

unfoldable pub fake_hashes : HashCommands fake
unfolding fake put_hash
fake_hashes = record {
  hash = λ s k. s.hashes k;
  exists = λ s k. is_some (s.hashes k);
  del = λ s k. put_hash s k none;
  hset = λ blob uses s k. put_hash s k (with_fields blob uses (s.hashes k));
  expire_hash = λ t s k. put_hash s k (expiring_hash t (s.hashes k));
  hget_data = λ s k. data_of (s.hashes k);
  hget_uses = λ s k. uses_of (s.hashes k);
  hincr_uses = λ s k. (
    suc (uses_in (s.hashes k)),
    put_hash s k (with_uses (suc (uses_in (s.hashes k))) (s.hashes k)),
  );
  hdecr_uses = λ s k.
      (uses_in (s.hashes k) - 1, put_hash s k (with_uses (uses_in (s.hashes k) - 1) (s.hashes k)));
  exists_lem = λ s k. refl;
  hget_data_lem = λ s k. refl;
  hget_uses_lem = λ s k. refl;
  hash-del_self = λ s k. put_hash_self s k none;
  hash-hset_self = λ blob uses s k e.
      put_hash_self s k (with_fields blob uses (s.hashes k)) ∙ ap (with_fields blob uses) e;
  hash-expire_hash_self = λ t s k p. put_hash_self s k (expiring_hash t (s.hashes k));
  hincr_uses-reply = λ s k h e. ap (λ x. suc (uses_in x)) e;
  hash-hincr_uses_self = λ s k h e.
      put_hash_self s k (with_uses (suc (uses_in (s.hashes k))) (s.hashes k))
      ∙ more_uses (s.hashes k) h e;
  hash-hdecr_uses_self = λ s k h n e f.
      put_hash_self s k (with_uses (uses_in (s.hashes k) - 1) (s.hashes k))
      ∙ fewer_uses (s.hashes k) h n e f;
  counter-hincr_uses = λ s j k. refl;
  counter-hdecr_uses = λ s j k. refl;
  hash-incr = λ s j k. refl;
  hash-expire = λ t s j k. refl;
}
