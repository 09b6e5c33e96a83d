-- ===== src/Auth/ReplayTests.antt =====
-- Claims of one entry on the server in memory.
use betpulse.Prelude.{◌≤◌, ◌≡◌, refl, some, none, [], ◌∷◌}
use betpulse.Redis.Fake.{fake, empty_store}
use betpulse.Redis.FakeHashes.{fake_hashes}
use betpulse.RateLimit.{answered}
use betpulse.Auth.Rotate.{ReplayEntry, got}
use betpulse.Auth.Replay.{ReplaySettings, Rotation, entry_of, remember, load, enabled}
use betpulse.Auth.ReplayBudget.{claim_all, remember-claim_all}

abbrev settings : ReplaySettings
settings = record { window_seconds = 30; max_uses = 2; per_minute = 5 }

abbrev rotation : Rotation
rotation = record {
  presented_hash = 77;
  token = 8;
  token_id = 9;
  user_agent = some 3;
  ip = some 4;
  credentials_changed_at = none;
}

abbrev entry : ReplayEntry
entry = entry_of rotation 3 4

remember-claim_all_example :
    let s' =
      remember fake fake_hashes (λ _. 5) (λ x. x) some settings answered empty_store rotation in
    let (granted, s'') = claim_all fake fake_hashes (λ ip. ip) settings s' 77 (4 ∷ 4 ∷ 6 ∷ []) in
    (load fake fake_hashes (λ _. some entry) answered s' 77 ≡ got entry)
    × granted ≤ 2
    × (load fake fake_hashes (λ _. some entry) answered s'' 77 ≡ got entry)
unfolding enabled
remember-claim_all_example =
    remember-claim_all fake fake_hashes (λ ip. ip) (λ _. 5) (λ x. x) some (λ _. some entry) settings
      empty_store rotation 3 4 4 (4 ∷ 4 ∷ 6 ∷ []) refl refl refl refl refl
