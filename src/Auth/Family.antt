-- ===== src/Auth/Family.antt =====
-- Token families: the live tokens of a family, and what a presentation does to them.
use betpulse.Prelude.{
  ℕ, Bool, ◌⊎◌, ◌≤◌, ◌<◌, ◌≡◌, ◌≢◌, refl, true, false, none, some, List, [], ◌∷◌, ◌==◌, ◌&&◌, ◌||◌,
  arith, count_if, find, is_some, update_where, Option-cases, inl, inr,
}
use betpulse.Auth.Model.{User, RefreshToken, Db, Settings, token_of, user_of}
use betpulse.Auth.Tokens.{
  NewToken, store_refresh, is_live, in_family, of_user, revoke_family, revoke_all_user_tokens,
}
use betpulse.Auth.Rotate.{
  Request, rotated, replayed, reuse_detected, rotate_row, replace_by, rotate_refresh_token,
  present_used, is_benign_duplicate, OrRefusal, got, refused, Refusal, try_replay,
}

-- The live tokens of a family, and of a user.
abbrev pub live : ℕ → List RefreshToken → ℕ
live family tokens = count_if (λ t. in_family family t && is_live t) tokens

abbrev pub live_of_user : ℕ → List RefreshToken → ℕ
live_of_user user tokens = count_if (λ t. of_user user t && is_live t) tokens

revoke_family-live :
    (family : ℕ) (tokens : List RefreshToken) → live family (revoke_family family tokens) ≡ 0
unfolding revoke_family
revoke_family-live family [] = refl
revoke_family-live family (t ∷ ts) = ground (arith, revoke_family-live family ts)

revoke_family-le :
    (family f : ℕ) (tokens : List RefreshToken)
    → live f (revoke_family family tokens) ≤ live f tokens
unfolding revoke_family
revoke_family-le family f [] = omega arith
revoke_family-le family f (t ∷ ts) = ground (arith, revoke_family-le family f ts)

update-le :
    (id new f : ℕ) (tokens : List RefreshToken)
    → live f (update_where (λ t. t.id == id) (replace_by new) tokens) ≤ live f tokens
update-le id new f [] = omega arith
update-le id new f (t ∷ ts) = ground (arith, update-le id new f ts)

-- A live row that is found by its hash is among the live tokens of its family, and replacing it
-- takes it out.
update-lt :
    (hash new : ℕ) (row : RefreshToken) (tokens : List RefreshToken)
    → find (λ t. t.token_hash == hash) tokens ≡ some row
    → row.revoked ≡ false
    → live row.family_id (update_where (λ t. t.id == row.id) (replace_by new) tokens)
      < live row.family_id tokens
update-lt hash new row [] e l = absurd (cc)
update-lt hash new row (t ∷ ts) e l =
    ground (arith, update-lt hash new row ts, update-le row.id new row.family_id ts)

rotate_row-live :
    (h : ℕ → ℕ) (settings : Settings) (new : NewToken) (now hash f : ℕ) (row : RefreshToken)
    (tokens : List RefreshToken)
    → find (λ t. t.token_hash == hash) tokens ≡ some row
    → row.revoked ≡ false
    → live f (rotate_row h settings new now row tokens) ≤ live f tokens
unfolding rotate_row store_refresh
rotate_row-live h settings new now hash f row tokens e l = ground (
  arith,
  update-lt hash new.id row tokens e l,
  update-le row.id new.id f tokens,
  update-lt hash new.id row tokens,
)

module _ (h : ℕ → ℕ) (settings : Settings) where
  -- Whatever token is presented, by whomever, no family gets more live tokens than it had.
  pub rotate-live :
      (q : Request) (new : NewToken) (db : Db) (f : ℕ)
      → live f (rotate_refresh_token h settings q new db).1.tokens ≤ live f db.tokens
  unfolding rotate_refresh_token present_used
  rotate-live q new db f = elim (Option-cases (token_of db (h q.token))) [
    | inl unknown ↦ ground (arith, unknown)
    | inr (row, found) ↦ ground (
      arith,
      found,
      revoke_family-le row.family_id f db.tokens,
      rotate_row-live h settings new q.now (h q.token) f row db.tokens found,
    )
  ]

revoke_user-live :
    (user : ℕ) (tokens : List RefreshToken)
    → live_of_user user (revoke_all_user_tokens user tokens).1 ≡ 0
unfolding revoke_all_user_tokens
revoke_user-live user [] = refl
revoke_user-live user (t ∷ ts) = ground (arith, revoke_user-live user ts)

revoke_user-other :
    (user other : ℕ) (tokens : List RefreshToken)
    → other ≢ user
    → live_of_user other (revoke_all_user_tokens user tokens).1 ≡ live_of_user other tokens
unfolding revoke_all_user_tokens
revoke_user-other user other [] ne = refl
revoke_user-other user other (t ∷ ts) ne = ground (arith, revoke_user-other user other ts ne)

-- Revoking all of a user's tokens leaves the user none, reports how many were live, and touches
-- nobody else's.
pub revoke_all_user_tokens-live :
    (user other : ℕ) (tokens : List RefreshToken)
    → other ≢ user
    → (revoke_all_user_tokens user tokens).0 ≡ live_of_user user tokens
      × live_of_user user (revoke_all_user_tokens user tokens).1 ≡ 0
      × live_of_user other (revoke_all_user_tokens user tokens).1 ≡ live_of_user other tokens
unfolding revoke_all_user_tokens
revoke_all_user_tokens-live user other tokens ne =
    (refl, revoke_user-live user tokens, revoke_user-other user other tokens ne)

OrRefusal-cases :
    (x : OrRefusal ℕ) → ((n : ℕ) × (x ≡ got n)) ⊎ ((why : Refusal) × (x ≡ refused why))
OrRefusal-cases (got n) = inl (n, refl)
OrRefusal-cases (refused why) = inr (why, refl)

-- Whether the replay of a used token's successor is off, or on and refused.
abbrev pub is_not_replayed : OrRefusal ℕ → Bool → Bool
is_not_replayed answer false = true
is_not_replayed (got _) true = false
is_not_replayed (refused _) true = true

-- Presenting a token again that was used or revoked, when the replay is off or refuses it, for
-- whatever reason, and outside the grace period, is detected: nothing is issued and the whole family
-- is dead.
pub reuse-kills :
    (h : ℕ → ℕ) (settings : Settings) (q : Request) (new : NewToken) (db : Db) (row : RefreshToken)
    → token_of db (h q.token) ≡ some row
    → (row.revoked || is_some row.replaced_by) ≡ true
    → is_not_replayed (try_replay h settings q db row) q.replay_enabled ≡ true
    → is_benign_duplicate settings q db row ≡ false
    → (rotate_refresh_token h settings q new db).0 ≡ reuse_detected
      × live row.family_id (rotate_refresh_token h settings q new db).1.tokens ≡ 0
unfolding rotate_refresh_token present_used
reuse-kills h settings q new db row found used off stale = ground (
  arith,
  found,
  used,
  off,
  stale,
  revoke_family-live row.family_id db.tokens,
  OrRefusal-cases (try_replay h settings q db row),
)

find_user-id :
    (id : ℕ) (users : List User) (u : User) → find (λ u. u.id == id) users ≡ some u → u.id ≡ id
find_user-id id [] u e = absurd (cc)
find_user-id id (v ∷ vs) u e = ground (arith, find_user-id id vs u)

-- A new token is issued only for a row that was found by the presented token's hash, not revoked,
-- not replaced and not expired, and to that row's user.
pub rotate-issues :
    (h : ℕ → ℕ) (settings : Settings) (q : Request) (new : NewToken) (db db' : Db) (plain user : ℕ)
    → rotate_refresh_token h settings q new db ≡ (rotated plain user, db')
    → (row : RefreshToken) × token_of db (h q.token) ≡ some row
      × row.revoked ≡ false
      × row.replaced_by ≡ none
      × q.now < row.expires_at
      × user ≡ row.user_id
unfolding rotate_refresh_token present_used
rotate-issues h settings q new db db' plain user e = elim (Option-cases (token_of db (h q.token))) [
  | inl unknown ↦ absurd (ground (arith, unknown))
  | inr (row, found) ↦ elim (Option-cases (user_of db row.user_id)) [
    | inl gone ↦ absurd (ground (arith, found, gone))
    | inr (u, known) ↦
        let named = find_user-id row.user_id db.users u known in
        (
          row,
          found,
          ground (arith, found, known),
          ground (arith, found, known),
          ground (arith, found, known),
          ground (arith, found, known, named),
        )
  ]
]

-- A replay hands out a token again and changes no row.
pub replay-keeps :
    (h : ℕ → ℕ) (settings : Settings) (q : Request) (new : NewToken) (db db' : Db) (plain user : ℕ)
    → rotate_refresh_token h settings q new db ≡ (replayed plain user, db')
    → db'.tokens ≡ db.tokens
unfolding rotate_refresh_token present_used
replay-keeps h settings q new db db' plain user e = elim (Option-cases (token_of db (h q.token))) [
  | inl unknown ↦ absurd (ground (arith, unknown))
  | inr (row, found) ↦ ground (arith, found)
]
