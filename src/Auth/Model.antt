-- ===== src/Auth/Model.antt =====
-- The tables users, refresh_tokens and email_verification_tokens (backend/app/models), the settings
-- that the services read, and the audit actions. An e-mail address stands in its normalised form.
-- Instants are microseconds; texts that are only compared are numbers.
use betpulse.Prelude.{ℕ, Bool, Option, List, ◌==◌, find}

pub record User : Type 0 where
  pub id : ℕ
  pub email : ℕ
  pub password_hash : ℕ
  pub is_active : Bool
  pub is_verified : Bool
  pub must_change_password : Bool
  pub totp_secret_encrypted : Option ℕ
  pub totp_enabled : Bool
  pub failed_login_count : ℕ
  pub locked_until : Option ℕ
  pub credentials_changed_at : Option ℕ

pub record RefreshToken : Type 0 where
  pub id : ℕ
  pub user_id : ℕ
  pub family_id : ℕ
  pub token_hash : ℕ
  pub expires_at : ℕ
  pub revoked : Bool
  pub replaced_by : Option ℕ
  pub created_at : ℕ

pub record EmailVerificationToken : Type 0 where
  pub user_id : ℕ
  pub token_hash : ℕ
  pub expires_at : ℕ
  pub used_at : Option ℕ

pub data AuditAction : Type 0 where
  login_success login_failure login_locked twofa_failure twofa_setup twofa_enabled : AuditAction
  twofa_disabled token_refresh token_refresh_replayed token_refresh_conflict : AuditAction
  token_reuse_detected logged_out email_verified password_changed register : AuditAction

-- An audit row: the action and its actor.
abbrev pub AuditEvent : Type 0
AuditEvent = AuditAction × Option ℕ

pub record Db : Type 0 where
  pub users : List User
  pub tokens : List RefreshToken
  pub email_tokens : List EmailVerificationToken
  pub events : List AuditEvent

pub record Settings : Type 0 where
  pub login_max_failures : ℕ
  pub lockout_base_seconds : ℕ
  pub lockout_max_seconds : ℕ
  pub jwt_refresh_ttl_days : ℕ
  pub refresh_reuse_grace_seconds : ℕ
  pub refresh_replay_window_seconds : ℕ

abbrev pub user_of : Db → ℕ → Option User
user_of db id = find (λ u. u.id == id) db.users

abbrev pub token_of : Db → ℕ → Option RefreshToken
token_of db hash = find (λ t. t.token_hash == hash) db.tokens
