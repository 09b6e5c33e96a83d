-- ===== src/Auth/Rotate.antt =====
-- `_rotate_locked`, `_try_replay` and `_is_benign_duplicate`, under the family lock, in one
-- transaction that is committed whatever the outcome. The answers of services/refresh_replay.py
-- (`load` and `claim`, Redis) come as arguments, as do the two clocks.
use betpulse.Prelude.{
  ℕ, ◌-◌, ◌*◌, Bool, true, false, Option, none, some, List, ◌==◌, ◌&&◌, ◌||◌, not, ltb, leb, find,
  is_some, is_some_eq, update_where, if◌then◌else◌,
}
use betpulse.Clock.{second}
use betpulse.Auth.Model.{
  User, RefreshToken, Db, Settings, token_of, user_of, token_refresh, token_refresh_replayed,
  token_refresh_conflict, token_reuse_detected,
}
use betpulse.Auth.Login.{record_event}
use betpulse.Auth.Tokens.{NewToken, store_refresh, revoke_family}

-- Why a replay is refused.
pub data Refusal : Type 0 where
  no_entry store_unavailable entry_invalid t2_used t2_revoked window_passed : Refusal
  user_inactive credentials_changed ua_mismatch subnet_mismatch cap_reached ip_limited : Refusal

pub data OrRefusal (A : Type 0) : Type 0 where
  got : A → OrRefusal A
  refused : Refusal → OrRefusal A

-- ReplayEntry
pub record ReplayEntry : Type 0 where
  pub token : ℕ
  pub token_id : ℕ
  pub ua : ℕ
  pub subnet : ℕ
  pub cca : Option ℕ

-- One presentation of a refresh token: its plaintext, the fingerprint of the user agent and the
-- subnet of the client, whether Redis is there and the replay enabled, what `load` and `claim`
-- answer, and the clocks of the service and of the database.
pub record Request : Type 0 where
  pub token : ℕ
  pub ua : Option ℕ
  pub subnet : Option ℕ
  pub replay_enabled : Bool
  pub load : OrRefusal ReplayEntry
  pub claim : OrRefusal ℕ
  pub now : ℕ
  pub db_now : ℕ

-- What is handed out: the refresh token, for which user, and whether it is new.
pub data Outcome : Type 0 where
  rotated : ℕ → ℕ → Outcome
  replayed : ℕ → ℕ → Outcome
  invalid_token refresh_conflict reuse_detected : Outcome

abbrev pub row_by_id : List RefreshToken → Option ℕ → Option RefreshToken
row_by_id tokens none = none
row_by_id tokens (some id) = find (λ t. t.id == id) tokens

abbrev pub same_stamp : Option ℕ → Option ℕ → Bool
same_stamp none none = true
same_stamp (some a) (some b) = a == b
same_stamp _ _ = false

abbrev pub user_checks : Request → ReplayEntry → User → OrRefusal ℕ
user_checks q entry u =
    if not u.is_active
    then refused user_inactive
    else if not (same_stamp u.credentials_changed_at entry.cca)
    then refused credentials_changed
    else if not (is_some_eq q.ua entry.ua)
    then refused ua_mismatch
    else if not (is_some_eq q.subnet entry.subnet)
    then refused subnet_mismatch
    else q.claim

abbrev pub check_user : Request → ReplayEntry → Option User → OrRefusal ℕ
check_user q entry none = refused user_inactive
check_user q entry (some u) = user_checks q entry u

abbrev pub check_child :
    (ℕ → ℕ) → Settings → Request → ReplayEntry → Option User → Option RefreshToken → OrRefusal ℕ
check_child hash_token settings q entry user none = refused entry_invalid
check_child hash_token settings q entry user (some child) =
    if not (child.token_hash == hash_token entry.token)
    then refused entry_invalid
    else if is_some child.replaced_by
    then refused t2_used
    else if child.revoked || leb child.expires_at q.now
    then refused t2_revoked
    else if ltb (settings.refresh_replay_window_seconds * second) (q.db_now - child.created_at)
    then refused window_passed
    else check_user q entry user

abbrev pub check_entry :
    (ℕ → ℕ) → Settings → Request → Db → RefreshToken → OrRefusal ReplayEntry → OrRefusal ℕ
check_entry hash_token settings q db row (refused why) = refused why
check_entry hash_token settings q db row (got entry) =
    if not (is_some_eq row.replaced_by entry.token_id)
    then refused entry_invalid
    else check_child hash_token settings q entry (user_of db row.user_id)
        (row_by_id db.tokens row.replaced_by)

-- `_try_replay`, up to the audit event: the use count, or the reason for the refusal.
unfoldable pub try_replay : (ℕ → ℕ) → Settings → Request → Db → RefreshToken → OrRefusal ℕ
try_replay hash_token settings q db row = check_entry hash_token settings q db row q.load

abbrev pub entry_token : OrRefusal ReplayEntry → ℕ
entry_token (got entry) = entry.token
entry_token (refused _) = 0

-- `_is_benign_duplicate`
abbrev pub is_fresh_child : Settings → ℕ → Option RefreshToken → Bool
is_fresh_child settings db_now none = false
is_fresh_child settings db_now (some child) =
    not (child.revoked || is_some child.replaced_by)
    && leb (db_now - child.created_at) (settings.refresh_reuse_grace_seconds * second)

unfoldable pub is_benign_duplicate : Settings → Request → Db → RefreshToken → Bool
is_benign_duplicate settings q db row =
    is_fresh_child settings q.db_now (row_by_id db.tokens row.replaced_by)

abbrev pub refuse_used : Settings → Request → Db → RefreshToken → Outcome × Db
refuse_used settings q db row =
    if is_benign_duplicate settings q db row
    then (refresh_conflict, record_event token_refresh_conflict (some row.user_id) db)
    else (
      reuse_detected,
      record_event token_reuse_detected (some row.user_id)
          (record db { tokens = revoke_family row.family_id db.tokens }),
    )

abbrev pub after_replay : Settings → Request → Db → RefreshToken → OrRefusal ℕ → Outcome × Db
after_replay settings q db row (got uses) = (
  replayed (entry_token q.load) row.user_id,
  record_event token_refresh_replayed (some row.user_id) db,
)
after_replay settings q db row (refused why) = refuse_used settings q db row

-- A token that was rotated or revoked.
unfoldable pub present_used : (ℕ → ℕ) → Settings → Request → Db → RefreshToken → Outcome × Db
present_used hash_token settings q db row =
    if q.replay_enabled
    then after_replay settings q db row (try_replay hash_token settings q db row)
    else refuse_used settings q db row

-- `row.revoked = True; row.replaced_by = new_row.id`
abbrev pub replace_by : ℕ → RefreshToken → RefreshToken
replace_by new_id t = record t { revoked = true; replaced_by = some new_id }

unfoldable pub rotate_row :
    (ℕ → ℕ) → Settings → NewToken → ℕ → RefreshToken → List RefreshToken → List RefreshToken
rotate_row hash_token settings new now row tokens =
    store_refresh hash_token settings row.user_id row.family_id new now
      (update_where (λ t. t.id == row.id) (replace_by new.id) tokens)

abbrev pub present_live :
    (ℕ → ℕ) → Settings → Request → NewToken → Db → RefreshToken → Option User → Outcome × Db
present_live hash_token settings q new db row none = (invalid_token, db)
present_live hash_token settings q new db row (some u) =
    if not u.is_active then (invalid_token, db) else (
      rotated new.plain u.id,
      record_event token_refresh (some u.id)
          (record db { tokens = rotate_row hash_token settings new q.now row db.tokens }),
    )

abbrev pub present_row : (ℕ → ℕ) → Settings → Request → NewToken → Db → RefreshToken → Outcome × Db
present_row hash_token settings q new db row =
    if row.revoked || is_some row.replaced_by
    then present_used hash_token settings q db row
    else if leb row.expires_at q.now
    then (invalid_token, db)
    else present_live hash_token settings q new db row (user_of db row.user_id)

-- `_rotate_locked`
unfoldable pub rotate_refresh_token : (ℕ → ℕ) → Settings → Request → NewToken → Db → Outcome × Db
rotate_refresh_token hash_token settings q new db = elim (token_of db (hash_token q.token)) [
  | none ↦ (invalid_token, db)
  | some row ↦ present_row hash_token settings q new db row
]
