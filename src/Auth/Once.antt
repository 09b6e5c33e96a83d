-- ===== src/Auth/Once.antt =====
-- A used token: what becomes of its row under the presentations that follow.
use betpulse.Prelude.{
  ℕ, ◌≡◌, ◌≢◌, Bool, true, false, Option, none, some, List, [], ◌∷◌, ◌==◌, ◌||◌, arith, All, find,
  is_some, update_where, Option-cases, inl, inr,
}
use betpulse.Auth.Model.{RefreshToken, Db, Settings, token_of, user_of}
use betpulse.Auth.Tokens.{NewToken, store_refresh, revoke_family}
use betpulse.Auth.Rotate.{
  Request, rotated, rotate_row, replace_by, rotate_refresh_token, present_used,
}
use betpulse.Auth.Family.{rotate-issues}

find_replaced :
    (hash new : ℕ) (row : RefreshToken) (tokens : List RefreshToken)
    → find (λ t. t.token_hash == hash) tokens ≡ some row
    → find (λ t. t.token_hash == hash) (update_where (λ t. t.id == row.id) (replace_by new) tokens)
      ≡ some (replace_by new row)
find_replaced hash new row [] e = absurd (cc)
find_replaced hash new row (t ∷ ts) e = ground (arith, find_replaced hash new row ts)

rotated-tokens :
    (h : ℕ → ℕ) (settings : Settings) (q : Request) (new : NewToken) (db db' : Db) (plain user : ℕ)
    (row : RefreshToken)
    → rotate_refresh_token h settings q new db ≡ (rotated plain user, db')
    → token_of db (h q.token) ≡ some row
    → db'.tokens ≡ rotate_row h settings new q.now row db.tokens
unfolding rotate_refresh_token present_used
rotated-tokens h settings q new db db' plain user row e found =
    elim (Option-cases (user_of db row.user_id)) [
      | inl gone ↦ absurd (ground (arith, found, gone))
      | inr (u, known) ↦ ground (arith, found, known)
    ]

-- A stored row that was revoked or replaced.
abbrev is_used : Option RefreshToken → Bool
is_used none = false
is_used (some row) = row.revoked || is_some row.replaced_by

revoke_family-used :
    (hash family : ℕ) (tokens : List RefreshToken)
    → is_used (find (λ t. t.token_hash == hash) tokens) ≡ true
    → is_used (find (λ t. t.token_hash == hash) (revoke_family family tokens)) ≡ true
unfolding revoke_family
revoke_family-used hash family [] e = e
revoke_family-used hash family (t ∷ ts) e = ground (arith, e, revoke_family-used hash family ts)

replaced-used :
    (hash id new : ℕ) (tokens : List RefreshToken)
    → is_used (find (λ t. t.token_hash == hash) tokens) ≡ true
    → is_used
        (find (λ t. t.token_hash == hash) (update_where (λ t. t.id == id) (replace_by new) tokens))
      ≡ true
replaced-used hash id new [] e = e
replaced-used hash id new (t ∷ ts) e = ground (arith, e, replaced-used hash id new ts)

-- A presentation, and the token that is drawn for it.
pub record Presentation : Type 0 where
  pub request : Request
  pub new : NewToken

module _ (h : ℕ → ℕ) (settings : Settings) where
  -- The tables after presentations, one after the other.
  pub present_all : List Presentation → Db → Db
  present_all [] db = db
  present_all (p ∷ ps) db = present_all ps (rotate_refresh_token h settings p.request p.new db).1

  -- No presentation of any token makes a used one unused.
  rotate-used :
      (q : Request) (new : NewToken) (db : Db) (hash : ℕ)
      → h new.plain ≢ hash
      → is_used (token_of db hash) ≡ true
      → is_used (token_of (rotate_refresh_token h settings q new db).1 hash) ≡ true
  unfolding rotate_refresh_token present_used rotate_row store_refresh
  rotate-used q new db hash fresh used = elim (Option-cases (token_of db (h q.token))) [
    | inl unknown ↦ ground (arith, unknown, used)
    | inr (row, found) ↦ elim (Option-cases (user_of db row.user_id)) [
      | inl gone ↦
          ground (arith, found, gone, used, revoke_family-used hash row.family_id db.tokens used)
      | inr (u, known) ↦ ground (
        arith,
        found,
        known,
        used,
        fresh,
        revoke_family-used hash row.family_id db.tokens used,
        replaced-used hash row.id new.id db.tokens used,
      )
    ]
  ]

  present_all-used :
      (ps : List Presentation) (db : Db) (hash : ℕ)
      → All (λ p. h p.new.plain ≢ hash) ps
      → is_used (token_of db hash) ≡ true
      → is_used (token_of (present_all ps db) hash) ≡ true
  unfolding present_all
  present_all-used [] db hash fresh used = used
  present_all-used (p ∷ ps) db hash (first, fresh) used =
      present_all-used ps (rotate_refresh_token h settings p.request p.new db).1 hash fresh
        (rotate-used p.request p.new db hash first used)

  -- A rotation leaves the presented token used.
  rotated-used :
      (q : Request) (new : NewToken) (db db' : Db) (plain user : ℕ)
      → rotate_refresh_token h settings q new db ≡ (rotated plain user, db')
      → h new.plain ≢ h q.token
      → is_used (token_of db' (h q.token)) ≡ true
  unfolding rotate_row store_refresh
  rotated-used q new db db' plain user e fresh =
      let (row, found, unrevoked, unreplaced, current, owner) =
        rotate-issues h settings q new db db' plain user e in
      let tokens = rotated-tokens h settings q new db db' plain user row e found in
      let replaced = find_replaced (h q.token) new.id row db.tokens found in
      ground (arith, replaced, tokens, fresh)

  -- A token is rotated at most once: once it has been, and whatever tokens were presented since, in
  -- any number and order, no presentation of it, at whatever time and with whatever answers of the
  -- replay store, rotates it again, provided no new token has the hash of the rotated one.
  pub rotate-once :
      (q again : Request) (new other : NewToken) (ps : List Presentation) (db db' late : Db)
      (plain user plain2 user2 : ℕ)
      → rotate_refresh_token h settings q new db ≡ (rotated plain user, db')
      → again.token ≡ q.token
      → h new.plain ≢ h q.token
      → All (λ p. h p.new.plain ≢ h q.token) ps
      → rotate_refresh_token h settings again other (present_all ps db')
        ≢ (rotated plain2 user2, late)
  rotate-once q again new other ps db db' late plain user plain2 user2 e same fresh others e2 =
      let used =
        present_all-used ps db' (h q.token) others (rotated-used q new db db' plain user e fresh) in
      let (row, found, unrevoked, unreplaced, current, owner) =
        rotate-issues h settings again other (present_all ps db') late plain2 user2 e2 in
      ground (arith, used, same, found, unrevoked, unreplaced)
