-- ===== src/Push/Tests.antt =====
-- Dispatches on the server in memory: user 1 has a channel that is gone and one that works, user 2 one
-- that refuses twice.
use betpulse.Prelude.{ℕ, ◌+◌, ◌*◌, ◌==◌, ◌≡◌, refl, none, some, List, [], ◌∷◌, arith, if◌then◌else◌}
use betpulse.Push.Telegram.{
  TelegramLinkToken, token_ttl, create_link_token, consume_link_token,
  consume_link_token-create_link_token,
}
use betpulse.Prelude.Int.{pos}
use betpulse.Redis.Fake.{fake, empty_store}
use betpulse.Push.{PushSubscription, Board, sent, gone, refused, Channel, no_result, push_to_user}
use betpulse.Push.Budget.{Accounted, push_to_user-Accounted}

abbrev noon : ℕ
noon = 20_000 * 86_400_000_000 + 43_200_000_000

abbrev old_phone : PushSubscription
old_phone = record { id = 10; user_id = 1 }

abbrev phone : PushSubscription
phone = record { id = 11; user_id = 1 }

abbrev laptop : PushSubscription
laptop = record { id = 12; user_id = 2 }

abbrev channel : Channel
channel sub =
    if sub.id == 10
    then (gone, gone)
    else if sub.id == 11
    then (refused, sent)
    else (refused, refused)

abbrev board : Board
board = record {
  subscriptions = old_phone ∷ phone ∷ laptop ∷ [];
  follows = record { user_id = 1; fixture_id = 5 } ∷ record { user_id = 2; fixture_id = 5 } ∷ [];
  windows = [];
  result = no_result;
}

push_to_user-Accounted_example :
    Accounted fake 1 5 noon board empty_store
      (push_to_user fake channel (pos 2) 5 noon (old_phone ∷ phone ∷ []) 1 board empty_store)
push_to_user-Accounted_example =
    push_to_user-Accounted fake channel 2 5 noon (old_phone ∷ phone ∷ []) 1 board empty_store

abbrev linked : List TelegramLinkToken
linked = record { user_id = 1; token_hash = 8; expires_at = 100 + token_ttl; used_at = none } ∷ []

consume_link_token-create_link_token_example :
    let (user, tokens) = consume_link_token (λ t. t) 8 500 linked in
    (user ≡ some 1)
    × (consume_link_token (λ t. t) 8 600 tokens ≡ (none, tokens))
    × (consume_link_token (λ t. t) 8 1_000_000_000_000 linked ≡ (none, linked))
unfolding create_link_token
consume_link_token-create_link_token_example =
    consume_link_token-create_link_token (λ t. t) 1 8 100 500 600 1_000_000_000_000 [] linked refl
      (omega arith) (omega arith)
