-- ===== src/Auth/Login.antt =====
-- `authenticate`, with `_lockout_seconds` and `_register_failed_attempt`. Password hashing, TOTP and
-- encryption (core/security.py, core/crypto.py) are calls of libraries: a parameter.
use betpulse.Prelude.{
  ℕ, suc, ◌+◌, ◌-◌, ◌*◌, ◌/◌, ◌^◌, Bool, false, Option, none, some, ◌∷◌, ◌==◌, not, ltb, find, min,
  max, update_where, if◌then◌else◌,
}
use betpulse.Clock.{second}
use betpulse.Auth.Model.{
  User, Db, Settings, AuditAction, login_success, login_failure, login_locked, twofa_failure,
}

pub record Crypto : Type 0 where
  pub verify_password : ℕ → ℕ → Bool
  pub hash_password : ℕ → ℕ
  pub needs_rehash : ℕ → Bool
  pub decrypt_secret : Option ℕ → ℕ
  pub verify_totp : ℕ → ℕ → Bool

pub data LoginResult : Type 0 where
  logged_in : User → LoginResult
  invalid_credentials two_factor_required two_factor_invalid : LoginResult
  account_locked : ℕ → LoginResult

unfoldable pub lockout_seconds : Settings → ℕ → ℕ
lockout_seconds settings failed_count =
    if ltb failed_count settings.login_max_failures
    then 0
    else min (settings.lockout_base_seconds * 2 ^ (failed_count - settings.login_max_failures))
        settings.lockout_max_seconds

-- `locked_until` after a failure: the backoff from now, or what it was.
abbrev pub lock_after : ℕ → ℕ → Option ℕ → Option ℕ
lock_after seconds now before = if ltb 0 seconds then some (now + seconds * second) else before

abbrev pub failed : Settings → ℕ → User → User
failed settings now u =
    let failed_count = suc u.failed_login_count in
    record u {
      failed_login_count = failed_count;
      locked_until = lock_after (lockout_seconds settings failed_count) now u.locked_until;
    }

abbrev pub record_event : AuditAction → Option ℕ → Db → Db
record_event action actor db = record db { events = (action, actor) ∷ db.events }

abbrev pub update_user : ℕ → (User → User) → Db → Db
update_user id f db = record db { users = update_where (λ u. u.id == id) f db.users }

-- `_register_failed_attempt`, in a transaction of its own: it stays whatever the request does.
unfoldable pub register_failed_attempt : Settings → AuditAction → ℕ → ℕ → Db → Db
register_failed_attempt settings action id now db =
    record_event action (some id) (update_user id (failed settings now) db)

abbrev pub is_locked : Option ℕ → ℕ → Bool
is_locked none now = false
is_locked (some until) now = ltb now until

-- `max(1, int((locked_until - now).total_seconds()))`
abbrev pub retry_after : Option ℕ → ℕ → ℕ
retry_after none now = 1
retry_after (some until) now = max 1 ((until - now) / second)

abbrev pub logged : Crypto → ℕ → User → User
logged c password u = record u {
  failed_login_count = 0;
  locked_until = none;
  password_hash =
      if c.needs_rehash u.password_hash then c.hash_password password else u.password_hash;
}

abbrev pub succeed : Crypto → ℕ → User → Db → LoginResult × Db
succeed c password u db = (
  logged_in (logged c password u),
  record_event login_success (some u.id) (update_user u.id (logged c password) db),
)

-- The TOTP step; an empty code is `none`.
abbrev pub check_totp : Settings → Crypto → ℕ → Option ℕ → ℕ → User → Db → LoginResult × Db
check_totp settings c password none now u db = (two_factor_required, db)
check_totp settings c password (some code) now u db =
    if c.verify_totp (c.decrypt_secret u.totp_secret_encrypted) code
    then succeed c password u db
    else (two_factor_invalid, register_failed_attempt settings twofa_failure u.id now db)

unfoldable pub check_user : Settings → Crypto → ℕ → Option ℕ → ℕ → User → Db → LoginResult × Db
check_user settings c password totp_code now u db =
    if is_locked u.locked_until now
    then (account_locked (retry_after u.locked_until now), record_event login_locked (some u.id) db)
    else if not (c.verify_password u.password_hash password)
    then (invalid_credentials, register_failed_attempt settings login_failure u.id now db)
    else if u.totp_enabled
    then check_totp settings c password totp_code now u db
    else succeed c password u db

abbrev pub check_found : Settings → Crypto → ℕ → Option ℕ → ℕ → Option User → Db → LoginResult × Db
check_found settings c password totp_code now none db =
    (invalid_credentials, record_event login_failure none db)
check_found settings c password totp_code now (some u) db =
    if not u.is_active
    then (invalid_credentials, record_event login_failure (some u.id) db)
    else check_user settings c password totp_code now u db

unfoldable pub authenticate : Settings → Crypto → ℕ → ℕ → Option ℕ → ℕ → Db → LoginResult × Db
authenticate settings c email password totp_code now db =
    check_found settings c password totp_code now (find (λ u. u.email == email) db.users) db
