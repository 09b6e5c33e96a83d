-- ===== src/Auth/Lockout.antt =====
-- The lockout of `authenticate`: its length, what a locked account answers, and what a login needs.
use betpulse.Prelude.{
  ℕ, suc, ◌+◌, ◌-◌, ◌*◌, ◌/◌, ◌^◌, ◌≤◌, ◌<◌, ◌≡◌, ◌⊎◌, refl, Bool, true, false, Option, none, some,
  List, [], ◌∷◌, ◌==◌, not, ◌&&◌, ◌||◌, arith, find, max, update_where, Option-cases, Bool-cases,
  inl, inr,
}
use betpulse.Clock.{second}
use betpulse.Auth.Model.{User, Db, Settings}
use betpulse.Auth.Login.{
  Crypto, logged_in, invalid_credentials, account_locked, lockout_seconds, failed, is_locked,
  check_user, authenticate, logged, update_user, register_failed_attempt,
}

-- The second factor: a code that verifies, where TOTP is on.
abbrev pub totp_passes : Crypto → User → Option ℕ → Bool
totp_passes c u none = not u.totp_enabled
totp_passes c u (some code) =
    not u.totp_enabled || c.verify_totp (c.decrypt_secret u.totp_secret_encrypted) code

-- What a login asks of the user: active, not locked, the password, and the second factor.
abbrev pub may_login : Crypto → ℕ → Option ℕ → ℕ → User → Bool
may_login c password code now u =
    u.is_active
    && not (is_locked u.locked_until now)
    && c.verify_password u.password_hash password
    && totp_passes c u code

find_update :
    (email : ℕ) (u : User) (f : User → User) (users : List User)
    → ((v : User) → (f v).email ≡ v.email)
    → find (λ v. v.email == email) users ≡ some u
    → find (λ v. v.email == email) (update_where (λ v. v.id == u.id) f users) ≡ some (f u)
find_update email u f [] keeps e = absurd (cc)
find_update email u f (v ∷ vs) keeps e = ground (arith, find_update email u f vs keeps, keeps v)

double : (b k : ℕ) → b * 2 ^ k ≤ b * 2 ^ suc k
double b k = grind arith

module _ (settings : Settings) where
  -- The lockout is nothing below the limit of failures, never longer than the maximum, and does not
  -- get shorter with another failure.
  pub lockout_seconds-bounds :
      (n : ℕ)
      → lockout_seconds settings n ≤ settings.lockout_max_seconds
        × lockout_seconds settings n ≤ lockout_seconds settings (suc n)
        × ((n < settings.login_max_failures × lockout_seconds settings n ≡ 0)
            ⊎ settings.login_max_failures ≤ n)
  unfolding lockout_seconds
  lockout_seconds-bounds n =
      ground (arith, double settings.lockout_base_seconds (n - settings.login_max_failures))

  -- A failed attempt sets `locked_until` at most the maximal lockout from now, or leaves it.
  pub failed-bounded :
      (u : User) (now until : ℕ)
      → (failed settings now u).locked_until ≡ some until
      → (u.locked_until ≡ some until) ⊎ (until ≤ now + settings.lockout_max_seconds * second)
  unfolding lockout_seconds
  failed-bounded u now until e = ground arith

  check_user_sound :
      (c : Crypto) (password : ℕ) (code : Option ℕ) (now : ℕ) (u result : User) (db db' : Db)
      → u.is_active ≡ true
      → check_user settings c password code now u db ≡ (logged_in result, db')
      → may_login c password code now u ≡ true
        × result ≡ logged c password u
        × db'.users ≡ (update_user u.id (logged c password) db).users
  unfolding check_user
  check_user_sound c password none now u result db db' active e = ground (arith)
  check_user_sound c password (some given) now u result db db' active e = ground (arith)

  -- A login succeeds only for the user that the e-mail address finds, who is active, not locked, and
  -- has given the password and, with TOTP on, a code that verifies; the user is then stored with the
  -- failures reset.
  pub authenticate_sound :
      (c : Crypto) (email password : ℕ) (code : Option ℕ) (now : ℕ) (result : User) (db db' : Db)
      → authenticate settings c email password code now db ≡ (logged_in result, db')
      → (u : User) × (find (λ v. v.email == email) db.users ≡ some u)
        × may_login c password code now u ≡ true
        × find (λ v. v.email == email) db'.users ≡ some result
        × result.failed_login_count ≡ 0
  unfolding authenticate check_user
  authenticate_sound c email password code now result db db' e =
      elim (Option-cases (find (λ v. v.email == email) db.users)) [
        | inl unknown ↦ absurd (ground (arith, unknown))
        | inr (u, found) ↦ elim (Bool-cases u.is_active) [
          | inl active ↦
              let sound =
                check_user_sound c password code now u result db db' active
                  (ground (arith, found, active)) in
              let kept = find_update email u (logged c password) db.users (λ v. refl) found in
              (u, found, sound.0, ground (arith, sound, kept), ground (arith, sound))
          | inr inactive ↦ absurd (ground (arith, found, inactive))
        ]
      ]

  -- After a wrong password of an active, unlocked user, every login before the lockout of the new
  -- count of failures is over is answered with the seconds left, whatever the password and the code,
  -- and changes no user.
  pub authenticate-locks :
      (c : Crypto) (email wrong : ℕ) (code : Option ℕ) (now : ℕ) (u : User) (db : Db) (password : ℕ)
      (code2 : Option ℕ) (later : ℕ)
      → find (λ v. v.email == email) db.users ≡ some u
      → u.is_active ≡ true
      → is_locked u.locked_until now ≡ false
      → c.verify_password u.password_hash wrong ≡ false
      → later < now + lockout_seconds settings (suc u.failed_login_count) * second
      → now ≤ later
      → let after = (authenticate settings c email wrong code now db).1 in
        (authenticate settings c email wrong code now db).0 ≡ invalid_credentials
        × (authenticate settings c email password code2 later after).0
          ≡ account_locked (
              max 1 (
                (now + lockout_seconds settings (suc u.failed_login_count) * second - later)
                / second))
        × (authenticate settings c email password code2 later after).1.users ≡ after.users
  unfolding authenticate check_user register_failed_attempt
  authenticate-locks c email wrong code now u db password code2 later found active free bad until
        le =
      ground (arith, found, find_update email u (failed settings now) db.users (λ v. refl) found)
