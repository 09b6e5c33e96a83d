-- ===== src/Auth/Tokens.antt =====
-- The refresh tokens: issue, revoke, logout. A plaintext token and its row's identifier come from
-- outside (`generate_opaque_token`, the database), as do `now` and the database's clock.
use betpulse.Prelude.{
  ℕ, ◌+◌, ◌*◌, Bool, true, false, none, some, List, ◌∷◌, ◌==◌, ◌&&◌, not, count_if, update_where,
}
use betpulse.Clock.{day}
use betpulse.Auth.Model.{RefreshToken, Db, Settings, token_of, logged_out}
use betpulse.Auth.Login.{record_event}

-- A new token: its plaintext, its row's identifier and creation time.
pub record NewToken : Type 0 where
  pub plain : ℕ
  pub id : ℕ
  pub created_at : ℕ

-- `_store_refresh`
unfoldable pub store_refresh :
    (ℕ → ℕ) → Settings → ℕ → ℕ → NewToken → ℕ → List RefreshToken → List RefreshToken
store_refresh hash_token settings user_id family_id new now tokens =
    record {
      id = new.id;
      user_id = user_id;
      family_id = family_id;
      token_hash = hash_token new.plain;
      expires_at = now + settings.jwt_refresh_ttl_days * day;
      revoked = false;
      replaced_by = none;
      created_at = new.created_at;
    }
    ∷ tokens

-- `issue_token_pair`: the first token of a new family.
unfoldable pub issue_token_pair : (ℕ → ℕ) → Settings → ℕ → ℕ → NewToken → ℕ → Db → Db
unfolding store_refresh
issue_token_pair hash_token settings user_id family_id new now db = record db {
  tokens = store_refresh hash_token settings user_id family_id new now db.tokens;
}

abbrev pub is_live : RefreshToken → Bool
is_live t = not t.revoked

abbrev pub in_family : ℕ → RefreshToken → Bool
in_family family_id t = t.family_id == family_id

abbrev pub of_user : ℕ → RefreshToken → Bool
of_user user_id t = t.user_id == user_id

abbrev pub revoke : RefreshToken → RefreshToken
revoke t = record t { revoked = true }

-- `_revoke_family`, under the family lock.
unfoldable pub revoke_family : ℕ → List RefreshToken → List RefreshToken
revoke_family family_id tokens =
    update_where (λ t. in_family family_id t && is_live t) revoke tokens

-- `revoke_all_user_tokens`, under the locks of the user's live families: how many, and the table.
unfoldable pub revoke_all_user_tokens : ℕ → List RefreshToken → ℕ × List RefreshToken
revoke_all_user_tokens user_id tokens = (
  count_if (λ t. of_user user_id t && is_live t) tokens,
  update_where (λ t. of_user user_id t && is_live t) revoke tokens,
)

unfoldable pub logout : (ℕ → ℕ) → ℕ → Db → Db
logout hash_token refresh_token db = elim (token_of db (hash_token refresh_token)) [
  | none ↦ db
  | some row ↦
      record_event logged_out (some row.user_id)
        (record db { tokens = revoke_family row.family_id db.tokens })
]
