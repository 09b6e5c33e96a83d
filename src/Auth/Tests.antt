-- ===== src/Auth/Tests.antt =====
-- The theorems on accounts and tokens at concrete inputs: the hash of a text is the text, and a
-- password matches the hash that equals it.
use betpulse.Prelude.{
  ℕ, ◌+◌, ◌*◌, ◌-◌, ◌/◌, ◌≤◌, ◌≡◌, ◌≢◌, refl, max, Bool, true, false, Option, some, none, List, [],
  ◌∷◌, ◌==◌, arith, find,
}
use betpulse.Clock.{second}
use betpulse.Auth.Model.{AuditAction, User, RefreshToken, Db, Settings}
use betpulse.Auth.Login.{
  Crypto, account_locked, invalid_credentials, lockout_seconds, authenticate, check_user, logged,
  succeed,
}
use betpulse.Auth.Tokens.{NewToken}
use betpulse.Auth.Rotate.{
  Request, rotated, reuse_detected, refused, no_entry, rotate_refresh_token, is_benign_duplicate,
}
use betpulse.Auth.Account.{new_user, change_password, create_email_verification_token, verify_email}
use betpulse.Auth.Lockout.{may_login, authenticate_sound, authenticate-locks}
use betpulse.Auth.Once.{Presentation, present_all, rotate-once}
use betpulse.Auth.Family.{live, rotate-live, reuse-kills}

abbrev settings : Settings
settings = record {
  login_max_failures = 5;
  lockout_base_seconds = 30;
  lockout_max_seconds = 900;
  jwt_refresh_ttl_days = 30;
  refresh_reuse_grace_seconds = 10;
  refresh_replay_window_seconds = 60;
}

abbrev crypto : Crypto
crypto = record {
  verify_password = λ hash password. hash == password;
  hash_password = λ password. password;
  needs_rehash = λ hash. false;
  decrypt_secret = λ _. 0;
  verify_totp = λ secret code. secret == code;
}

abbrev same : ℕ → ℕ
same n = n

-- A user one failure before the lockout.
abbrev user : User
user = record {
  id = 1;
  email = 100;
  password_hash = 42;
  is_active = true;
  is_verified = false;
  must_change_password = false;
  totp_secret_encrypted = none;
  totp_enabled = false;
  failed_login_count = 4;
  locked_until = none;
  credentials_changed_at = none;
}

abbrev token : ℕ → ℕ → Bool → Option ℕ → RefreshToken
token id hash revoked replaced_by = record {
  id = id;
  user_id = 1;
  family_id = 7;
  token_hash = hash;
  expires_at = 1_000_000_000;
  revoked = revoked;
  replaced_by = replaced_by;
  created_at = 0;
}

abbrev tables : Db
tables = record {
  users = user ∷ [];
  tokens = token 12 502 false none ∷ token 11 501 true (some 12) ∷ [];
  email_tokens = [];
  events = [];
}

abbrev present : ℕ → ℕ → Request
present text now = record {
  token = text;
  ua = none;
  subnet = none;
  replay_enabled = false;
  load = refused no_entry;
  claim = refused no_entry;
  now = now;
  db_now = now;
}

abbrev next : ℕ → NewToken
next id = record { plain = 500 + id; id = id; created_at = 60_000_000 }

abbrev after : Db
after = (rotate_refresh_token same settings (present 502 60_000_000) (next 13) tables).1

rotates :
    rotate_refresh_token same settings (present 502 60_000_000) (next 13) tables
    ≡ (rotated 513 1, after)
unfolding rotate_refresh_token
rotates = refl

rotate-live_example :
    live 7 (rotate_refresh_token same settings (present 502 60_000_000) (next 13) tables).1.tokens
    ≤ live 7 tables.tokens
rotate-live_example = rotate-live same settings (present 502 60_000_000) (next 13) tables 7

-- The child of the rotated token, and then the child's child.
abbrev between : List Presentation
between =
    record { request = present 513 61_000_000; new = next 14 }
    ∷ record { request = present 514 62_000_000; new = next 15 }
    ∷ []

rotate-once_example :
    rotate_refresh_token same settings
      (present 502 63_000_000)
      (next 16)
      (present_all same settings between after)
    ≢ (rotated 516 1, tables)
rotate-once_example =
    rotate-once same settings (present 502 60_000_000) (present 502 63_000_000) (next 13) (next 16)
      between tables after tables 513 1 516 1 rotates refl (omega arith) (omega arith)

reuse-kills_example :
    (rotate_refresh_token same settings (present 501 60_000_000) (next 13) tables).0
      ≡ reuse_detected
    × live 7 (rotate_refresh_token same settings (present 501 60_000_000) (next 13) tables).1.tokens
      ≡ 0
unfolding is_benign_duplicate
reuse-kills_example =
    reuse-kills same settings (present 501 60_000_000) (next 13) tables
      (token 11 501 true (some 12)) refl refl refl refl

authenticate-locks_example :
    let failed = (authenticate settings crypto 100 41 none 1_000 tables).1 in
    (authenticate settings crypto 100 41 none 1_000 tables).0 ≡ invalid_credentials
    × (authenticate settings crypto 100 42 none 2_000 failed).0
      ≡ account_locked (max 1 ((1_000 + lockout_seconds settings 5 * second - 2_000) / second))
    × (authenticate settings crypto 100 42 none 2_000 failed).1.users ≡ failed.users
unfolding lockout_seconds
authenticate-locks_example =
    authenticate-locks settings crypto 100 41 none 1_000 user tables 42 none 2_000 refl refl refl
      refl (omega arith) (omega arith)

authenticate_sound_example :
    (u : User) × (find (λ v. v.email == 100) tables.users ≡ some u)
    × may_login crypto 42 none 1_000 u ≡ true
    × find (λ v. v.email == 100) (succeed crypto 42 user tables).1.users
      ≡ some (logged crypto 42 user)
    × (logged crypto 42 user).failed_login_count ≡ 0
unfolding authenticate check_user
authenticate_sound_example =
    authenticate_sound settings crypto 100 42 none 1_000 (logged crypto 42 user) tables
      (succeed crypto 42 user tables).1 refl

abbrev changed : Option Db
changed = change_password crypto user 42 43 5_000 tables

abbrev db_of : Option Db → Db
db_of none = tables
db_of (some db) = db

abbrev pending : Db
pending = create_email_verification_token same 9 user 1_000 tables

abbrev db_after : Option (User × Db) → Db
db_after none = pending
db_after (some (u, db)) = db

abbrev verified : Db
verified = db_after (verify_email same 9 2_000 pending)

abbrev joined : Db
joined = record tables {
  users = new_user crypto 2 200 43 ∷ tables.users;
  events = (AuditAction.register, some 2) ∷ [];
}
