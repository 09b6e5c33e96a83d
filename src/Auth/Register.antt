-- ===== src/Auth/Register.antt =====
-- Registration, and the first login.
use betpulse.Prelude.{ℕ, ◌≡◌, true, Option, none, some, ◌==◌, arith, find, Option-cases, inl, inr}
use betpulse.Auth.Model.{User, Db, Settings}
use betpulse.Auth.Login.{Crypto, logged_in, logged, authenticate, check_user}
use betpulse.Auth.Account.{register_user}

-- Whoever has registered can log in with the password at once, with or without a code, and the
-- address cannot be registered again; the hash of a password has to verify it.
pub authenticate-register_user :
    (c : Crypto) (settings : Settings) (id email password now : ℕ) (code : Option ℕ) (u : User)
    (db db' : Db) (id2 password2 : ℕ)
    → c.verify_password (c.hash_password password) password ≡ true
    → register_user c id email password db ≡ some (u, db')
    → ((authenticate settings c email password code now db').0 ≡ logged_in (logged c password u))
      × (register_user c id2 email password2 db' ≡ none)
unfolding register_user authenticate check_user
authenticate-register_user c settings id email password now code u db db' id2 password2 sound e =
    elim (Option-cases (find (λ u. u.email == email) db.users)) [
      | inl new ↦ ground (arith, sound, new, e)
      | inr (old, found) ↦ absurd (ground (arith, found, e))
    ]
