-- ===== src/Auth/Account.antt =====
-- The other operations on an account: `register_user`, `change_password`, the verification of an
-- e-mail address, disabling and enabling an account (services/user_admin.py) and the second factor
-- (services/twofa.py).
use betpulse.Prelude.{
  ℕ, ◌+◌, ◌*◌, true, false, Option, none, some, ◌∷◌, ◌==◌, ◌||◌, not, leb, find, is_some,
  update_where, if◌then◌else◌,
}
use betpulse.Clock.{hour}
use betpulse.Auth.Model.{
  User, register, EmailVerificationToken, Db, user_of, twofa_failure, twofa_setup, twofa_enabled,
  twofa_disabled, email_verified, password_changed,
}
use betpulse.Auth.Login.{Crypto, record_event, update_user}
use betpulse.Auth.Tokens.{revoke_all_user_tokens}

-- The row of `register_user`, with the column defaults.
abbrev pub new_user : Crypto → ℕ → ℕ → ℕ → User
new_user c id email password = record {
  id = id;
  email = email;
  password_hash = c.hash_password password;
  is_active = true;
  is_verified = false;
  must_change_password = false;
  totp_secret_encrypted = none;
  totp_enabled = false;
  failed_login_count = 0;
  locked_until = none;
  credentials_changed_at = none;
}

-- `none` is EmailAlreadyRegistered; the identifier is the one that the database gives the new row.
unfoldable pub register_user : Crypto → ℕ → ℕ → ℕ → Db → Option (User × Db)
register_user c id email password db =
    if is_some (find (λ u. u.email == email) db.users)
    then none
    else let user = new_user c id email password in
      some (user, record_event register (some id) (record db { users = user ∷ db.users }))

abbrev pub mark_credentials_changed : ℕ → User → User
mark_credentials_changed now u = record u { credentials_changed_at = some now }

abbrev pub revoke_tokens : ℕ → Db → Db
revoke_tokens user_id db = record db { tokens = (revoke_all_user_tokens user_id db.tokens).1 }

abbrev pub with_password : Crypto → ℕ → ℕ → User → User
with_password c new_password now u =
    mark_credentials_changed now
      (record u { password_hash = c.hash_password new_password; must_change_password = false })

-- `none` is InvalidCredentials.
unfoldable pub change_password : Crypto → User → ℕ → ℕ → ℕ → Db → Option Db
change_password c user current_password new_password now db =
    if not (c.verify_password user.password_hash current_password)
    then none
    else some (
        record_event password_changed (some user.id)
          (revoke_tokens user.id (update_user user.id (with_password c new_password now) db)))

unfoldable pub disable_user : User → ℕ → Db → ℕ × Db
disable_user user now db = (
  (revoke_all_user_tokens user.id db.tokens).0,
  revoke_tokens user.id
      (update_user user.id (λ u. mark_credentials_changed now (record u { is_active = false })) db),
)

abbrev pub enable_user : User → Db → Db
enable_user user db = update_user user.id (λ u. record u { is_active = true }) db

-- The plaintext comes from `generate_opaque_token`.
unfoldable pub create_email_verification_token : (ℕ → ℕ) → ℕ → User → ℕ → Db → Db
create_email_verification_token hash_token plain user now db = record db {
  email_tokens =
      record {
        user_id = user.id;
        token_hash = hash_token plain;
        expires_at = now + 24 * hour;
        used_at = none;
      }
      ∷ db.email_tokens;
}

abbrev pub use_token : ℕ → EmailVerificationToken → EmailVerificationToken
use_token now t = record t { used_at = some now }

abbrev pub verify : User → User
verify u = record u { is_verified = true }

abbrev pub verify_row : ℕ → EmailVerificationToken → Option User → Db → Option (User × Db)
verify_row now row none db = none
verify_row now row (some u) db = some (
  verify u,
  record_event email_verified (some u.id) (record (update_user u.id verify db) {
    email_tokens =
        update_where (λ t. t.token_hash == row.token_hash) (use_token now) db.email_tokens;
  }),
)

-- `none` is InvalidToken. The row is the one of the unique `token_hash`.
unfoldable pub verify_email : (ℕ → ℕ) → ℕ → ℕ → Db → Option (User × Db)
verify_email hash_token token now db =
    elim (find (λ t. t.token_hash == hash_token token) db.email_tokens) [
      | none ↦ none
      | some row ↦
          if is_some row.used_at || leb row.expires_at now
          then none
          else verify_row now row (user_of db row.user_id) db
    ]

pub data TwoFactorResult : Type 0 where
  done already_enabled not_initialized invalid_code : TwoFactorResult

-- The ciphertext of a new secret.
unfoldable pub setup_totp : ℕ → User → Db → TwoFactorResult × Db
setup_totp encrypted user db = if user.totp_enabled then (already_enabled, db) else (
  done,
  record_event twofa_setup (some user.id)
      (update_user user.id (λ u. record u { totp_secret_encrypted = some encrypted }) db),
)

unfoldable pub enable_totp : Crypto → ℕ → User → Db → TwoFactorResult × Db
enable_totp c code user db =
    if not (is_some user.totp_secret_encrypted)
    then (not_initialized, db)
    else if not (c.verify_totp (c.decrypt_secret user.totp_secret_encrypted) code)
    then (invalid_code, record_event twofa_failure (some user.id) db)
    else (
      done,
      record_event twofa_enabled (some user.id)
          (update_user user.id (λ u. record u { totp_enabled = true }) db),
    )

unfoldable pub disable_totp : Crypto → ℕ → User → Db → TwoFactorResult × Db
disable_totp c code user db =
    if not (is_some user.totp_secret_encrypted) || not user.totp_enabled
    then (not_initialized, db)
    else if not (c.verify_totp (c.decrypt_secret user.totp_secret_encrypted) code)
    then (invalid_code, record_event twofa_failure (some user.id) db)
    else (
      done,
      record_event twofa_disabled (some user.id) (
          update_user user.id (λ u. record u { totp_enabled = false; totp_secret_encrypted = none })
            db),
    )
