-- ===== src/Push/Telegram.antt =====
-- backend/app/services/push/telegram_link.py: the token that links a Telegram chat to a user. The hash
-- and the random token are arguments.
use betpulse.Prelude.{
  ℕ, ◌+◌, ◌*◌, ◌<◌, ◌≤◌, ◌≡◌, refl, sym, subst, ◌∙◌, ap, Option, none, some, List, [], ◌∷◌, ◌==◌,
  ◌||◌, leb, find, is_some, update_where, arith, if◌then◌else◌,
}
use betpulse.Clock.{second}

pub record TelegramLinkToken : Type 0 where
  pub user_id : ℕ
  pub token_hash : ℕ
  pub expires_at : ℕ
  pub used_at : Option ℕ

-- TOKEN_TTL
abbrev pub token_ttl : ℕ
token_ttl = 900 * second

abbrev pub token_of : List TelegramLinkToken → ℕ → Option TelegramLinkToken
token_of tokens hash = find (λ t. t.token_hash == hash) tokens

module _ (hash_token : ℕ → ℕ) where
  -- The expiry, and the tokens; `none` is the IntegrityError of uq_telegram_link_token_hash.
  unfoldable pub create_link_token :
      ℕ → ℕ → ℕ → List TelegramLinkToken → Option (ℕ × List TelegramLinkToken)
  create_link_token user_id token now tokens =
      if is_some (token_of tokens (hash_token token))
      then none
      else some (
        now + token_ttl,
        record {
          user_id = user_id;
          token_hash = hash_token token;
          expires_at = now + token_ttl;
          used_at = none;
        }
            ∷ tokens,
      )

  abbrev pub burn : ℕ → ℕ → List TelegramLinkToken → List TelegramLinkToken
  burn hash now tokens =
      update_where (λ t. t.token_hash == hash) (λ t. record t { used_at = some now }) tokens

  abbrev pub consume_row :
      ℕ → ℕ → Option TelegramLinkToken → List TelegramLinkToken → Option ℕ × List TelegramLinkToken
  consume_row hash now none tokens = (none, tokens)
  consume_row hash now (some t) tokens =
      if is_some t.used_at || leb t.expires_at now
      then (none, tokens)
      else (some t.user_id, burn hash now tokens)

  -- The user of the token, and the tokens.
  unfoldable pub consume_link_token :
      ℕ → ℕ → List TelegramLinkToken → Option ℕ × List TelegramLinkToken
  consume_link_token token now tokens =
      consume_row (hash_token token) now (token_of tokens (hash_token token)) tokens

  abbrev burnt : ℕ → Option TelegramLinkToken → Option TelegramLinkToken
  burnt now none = none
  burnt now (some t) = some (record t { used_at = some now })

  token_of-burn :
      (hash now : ℕ) (tokens : List TelegramLinkToken)
      → token_of (burn hash now tokens) hash ≡ burnt now (token_of tokens hash)
  token_of-burn hash now [] = refl
  token_of-burn hash now (t ∷ ts) = ground (arith, token_of-burn hash now ts)

  -- A link token that was created gives its user when it is first opened within a quarter of an hour,
  -- and neither before nor after gives it a second time: once it is opened, at whatever time, or from
  -- the end of the quarter of an hour on, opening it finds nobody and changes nothing.
  pub consume_link_token-create_link_token :
      (user_id token now opened again late : ℕ) (tokens tokens' : List TelegramLinkToken)
      → create_link_token user_id token now tokens ≡ some (now + token_ttl, tokens')
      → opened < now + token_ttl
      → now + token_ttl ≤ late
      → let (user, tokens'') = consume_link_token token opened tokens' in
        (user ≡ some user_id)
        × (consume_link_token token again tokens'' ≡ (none, tokens''))
        × (consume_link_token token late tokens' ≡ (none, tokens'))
  unfolding create_link_token consume_link_token
  consume_link_token-create_link_token user_id token now opened again late tokens tokens' created
        within expired =
      let h = hash_token token in
      let row : TelegramLinkToken = record {
        user_id = user_id;
        token_hash = h;
        expires_at = now + token_ttl;
        used_at = none;
      } in
      let found : token_of tokens' h ≡ some row = ground (arith, created) in
      let gone = burn h opened tokens' in
      let first : consume_link_token token opened tokens' ≡ (some user_id, gone) =
        ap (λ o. consume_row h opened o tokens') found ∙ ground (arith, within) in
      let used = token_of-burn h opened tokens' ∙ ap (burnt opened) found in
      let second : consume_link_token token again gone ≡ (none, gone) =
        ap (λ o. consume_row h again o gone) used in
      (
        ap (λ p. p.0) first,
        subst (λ ts. consume_link_token token again ts ≡ (none, ts)) (sym (ap (λ p. p.1) first))
            second,
        ap (λ o. consume_row h late o tokens') found ∙ ground (arith, expired),
      )
