-- ===== src/Auth/Password.antt =====
-- A change of password, and the verification of an e-mail address.
use betpulse.Prelude.{
  ℕ, ◌+◌, ◌*◌, ◌<◌, ◌≡◌, ◌≢◌, refl, true, none, some, List, [], ◌∷◌, ◌==◌, arith, find,
  update_where, Option-cases, inl, inr,
}
use betpulse.Clock.{hour}
use betpulse.Auth.Model.{User, EmailVerificationToken, Db, user_of}
use betpulse.Auth.Login.{Crypto}
use betpulse.Auth.Family.{live_of_user, revoke_all_user_tokens-live}
use betpulse.Auth.Account.{
  change_password, create_email_verification_token, verify_email, verify, use_token, with_password,
}

find_used :
    (hash now : ℕ) (row : EmailVerificationToken) (tokens : List EmailVerificationToken)
    → find (λ t. t.token_hash == hash) tokens ≡ some row
    → find
        (λ t. t.token_hash == hash)
        (update_where (λ t. t.token_hash == row.token_hash) (use_token now) tokens)
      ≡ some (use_token now row)
find_used hash now row [] e = absurd (cc)
find_used hash now row (t ∷ ts) e = ground (arith, find_used hash now row ts)

-- A token that was just made for a stored user verifies them before its day is over.
pub verify_email-create :
    (h : ℕ → ℕ) (plain : ℕ) (user known : User) (made now : ℕ) (db : Db)
    → now < made + 24 * hour
    → user_of db user.id ≡ some known
    → (db' : Db) × verify_email h plain now (create_email_verification_token h plain user made db)
        ≡ some (verify known, db')
unfolding verify_email create_email_verification_token
verify_email-create h plain user known made now db soon e =
    elim (Option-cases
      (verify_email h plain now (create_email_verification_token h plain user made db))) [
        | inl refused ↦ absurd (ground (arith, e))
        | inr ((u, db'), ok) ↦ (db', ground (arith, e, ok))
      ]

-- An e-mail token verifies at most once: after it has, it is refused at any time.
pub verify_email-once :
    (h : ℕ → ℕ) (token now later : ℕ) (u : User) (db db' : Db)
    → verify_email h token now db ≡ some (u, db')
    → u.is_verified ≡ true × verify_email h token later db' ≡ none
unfolding verify_email
verify_email-once h token now later u db db' e =
    elim (Option-cases (find (λ t. t.token_hash == h token) db.email_tokens)) [
      | inl unknown ↦ absurd (ground (arith, unknown))
      | inr (row, found) ↦ elim (Option-cases (user_of db row.user_id)) [
        | inl gone ↦ absurd (ground (arith, found, gone))
        | inr (known, who) ↦
            ground (arith, found, who, find_used (h token) now row db.email_tokens found)
      ]
    ]

find_user :
    (id : ℕ) (u : User) (f : User → User) (users : List User)
    → ((v : User) → (f v).id ≡ v.id)
    → find (λ v. v.id == id) users ≡ some u
    → find (λ v. v.id == id) (update_where (λ v. v.id == id) f users) ≡ some (f u)
find_user id u f [] keeps e = absurd (cc)
find_user id u f (v ∷ vs) keeps e = ground (arith, find_user id u f vs keeps, keeps v)

-- A change of a stored user's password needs the current one; it sets the hash of the new one, ends
-- every session of the user and of nobody else.
pub change_password-ends :
    (c : Crypto) (user : User) (current new now other : ℕ) (db db' : Db)
    → change_password c user current new now db ≡ some db'
    → user_of db user.id ≡ some user
    → other ≢ user.id
    → c.verify_password user.password_hash current ≡ true
      × user_of db' user.id ≡ some (with_password c new now user)
      × live_of_user user.id db'.tokens ≡ 0
      × live_of_user other db'.tokens ≡ live_of_user other db.tokens
unfolding change_password
change_password-ends c user current new now other db db' e known ne =
    let dead = revoke_all_user_tokens-live user.id other db.tokens ne in
    let row = find_user user.id user (with_password c new now) db.users (λ v. refl) known in
    ground (arith, dead, row)
