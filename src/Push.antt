-- ===== src/Push.antt =====
-- backend/app/services/live/push.py (dispatch_push) and services/push/follows.py: who gets a push for a
-- fixture. How a channel answers a delivery and the daily limit of a user's tier are parameters. The
-- windows are the keys `push:rl:{user}:{fixture}` that Redis holds at this instant. Telegram is
-- services/push/telegram_link.py.
pub mod Budget
pub mod Bound
pub mod Telegram
mod Tests
use betpulse.Prelude.{
  ℕ, suc, ◌+◌, Bool, true, false, List, [], ◌∷◌, ◌++◌, ◌==◌, ◌&&◌, ◌||◌, not, select, map,
  if◌then◌else◌,
}
use betpulse.Prelude.Int.{ℤ}
use betpulse.Redis.{Redis}
use betpulse.Limits.{reserve_push, release_push}

pub record PushSubscription : Type 0 where
  pub id : ℕ
  pub user_id : ℕ

pub record PushFollow : Type 0 where
  pub user_id : ℕ
  pub fixture_id : ℕ

abbrev pub is_follow : ℕ → ℕ → PushFollow → Bool
is_follow user_id fixture_id f = (f.user_id == user_id) && (f.fixture_id == fixture_id)

abbrev pub any_follow : (PushFollow → Bool) → List PushFollow → Bool
any_follow p [] = false
any_follow p (f ∷ fs) = p f || any_follow p fs

unfoldable pub is_following : ℕ → ℕ → List PushFollow → Bool
is_following user_id fixture_id follows = any_follow (is_follow user_id fixture_id) follows

-- INSERT … ON CONFLICT ON CONSTRAINT uq_push_follow DO NOTHING.
unfoldable pub follow_fixture : ℕ → ℕ → List PushFollow → List PushFollow
unfolding is_following
follow_fixture user_id fixture_id follows =
    if is_following user_id fixture_id follows
    then follows
    else record { user_id = user_id; fixture_id = fixture_id } ∷ follows

unfoldable pub unfollow_fixture : ℕ → ℕ → List PushFollow → List PushFollow
unfollow_fixture user_id fixture_id follows =
    select (λ f. not (is_follow user_id fixture_id f)) follows

unfoldable pub followed_fixture_ids : ℕ → List PushFollow → List ℕ
followed_fixture_ids user_id follows =
    map (λ f. f.fixture_id) (select (λ f. f.user_id == user_id) follows)

-- How an attempt ends: delivered, PushGone, PushError, or another exception.
pub data Answer : Type 0 where
  sent gone refused blew_up : Answer

pub record PushDispatchResult : Type 0 where
  pub rate_limited : ℕ
  pub delivered : ℕ
  pub failed : ℕ
  pub budget_exhausted : ℕ
  pub pruned : ℕ
  pub skipped_no_subscription : Bool

-- The rows, the windows, and the result so far; the budgets are on the server.
pub record Board : Type 0 where
  pub subscriptions : List PushSubscription
  pub follows : List PushFollow
  pub windows : List (ℕ × ℕ)
  pub result : PushDispatchResult

abbrev pub prune : PushSubscription → Board → Board
prune sub b = record b {
  subscriptions = select (λ s. not (s.id == sub.id)) b.subscriptions;
  result = record b.result { pruned = suc b.result.pruned };
}

abbrev pub count_failed : Board → Board
count_failed b = record b { result = record b.result { failed = suc b.result.failed } }

-- Whether the user got the push, and whether an exception ends the dispatch.
pub data Delivery : Type 0 where
  done not_done raised : Delivery

-- The second attempt, and the first.
abbrev pub after_retry : PushSubscription → Answer → Board → Delivery × Board
after_retry sub sent b = (done, b)
after_retry sub gone b = (not_done, prune sub b)
after_retry sub refused b = (not_done, count_failed b)
after_retry sub blew_up b = (raised, b)

abbrev pub after_first : PushSubscription → Answer → Answer → Board → Delivery × Board
after_first sub sent again b = (done, b)
after_first sub gone again b = (not_done, prune sub b)
after_first sub refused again b = after_retry sub again b
after_first sub blew_up again b = (raised, b)

-- What a channel answers to the first and to the second attempt.
abbrev pub Channel : Type 0
Channel = PushSubscription → Answer × Answer

unfoldable pub deliver_with_retry : Channel → PushSubscription → Board → Delivery × Board
deliver_with_retry channel sub b = let (first, again) = channel sub in after_first sub first again b

-- The loop over a user's subscriptions; one channel is enough.
unfoldable pub deliver_any : Channel → List PushSubscription → Board → Delivery × Board
deliver_any channel [] b = (not_done, b)
deliver_any channel (sub ∷ subs) b =
    let (d, b') = deliver_with_retry channel sub b in
    let rest = deliver_any channel subs b' in
    elim d [ done ↦ (done, b') | raised ↦ (raised, b') | not_done ↦ rest ]

abbrev pub holds : ℕ → ℕ → List (ℕ × ℕ) → Bool
holds user_id fixture_id [] = false
holds user_id fixture_id (w ∷ ws) =
    ((w.0 == user_id) && (w.1 == fixture_id)) || holds user_id fixture_id ws

-- DEL of the window's key.
abbrev pub free_window : ℕ → ℕ → Board → Board
free_window user_id fixture_id b = record b {
  windows = select (λ w. not ((w.0 == user_id) && (w.1 == fixture_id))) b.windows;
}

abbrev pub take_window : ℕ → ℕ → Board → Board
take_window user_id fixture_id b = record b { windows = (user_id, fixture_id) ∷ b.windows }

abbrev pub count_delivered : Board → Board
count_delivered b = record b { result = record b.result { delivered = suc b.result.delivered } }

abbrev pub count_rate_limited : Board → Board
count_rate_limited b = record b {
  result = record b.result { rate_limited = suc b.result.rate_limited };
}

abbrev pub count_exhausted : Board → Board
count_exhausted b = record b {
  result = record b.result { budget_exhausted = suc b.result.budget_exhausted };
}

module _ (r : Redis) where
  open r use {Store}

  -- The end of a user's turn: a push that nobody got is given back, and its window is free again.
  unfoldable pub settle_push : ℕ → ℕ → ℕ → Delivery × Board → Store → Bool × Board × Store
  settle_push user_id fixture_id now (done, b) s = (false, count_delivered b, s)
  settle_push user_id fixture_id now (not_done, b) s =
      (false, free_window user_id fixture_id b, release_push r s user_id now)
  settle_push user_id fixture_id now (raised, b) s =
      (true, free_window user_id fixture_id b, release_push r s user_id now)

  -- One user's turn: whether an exception ends the dispatch, the board and the server.
  unfoldable pub push_to_user :
      Channel → ℤ → ℕ → ℕ → List PushSubscription → ℕ → Board → Store → Bool × Board × Store
  push_to_user channel limit fixture_id now subs user_id b s =
      if holds user_id fixture_id b.windows
      then (false, count_rate_limited b, s)
      else let taken = take_window user_id fixture_id b in
        let (reserved, s') = reserve_push r s user_id limit now in
        if reserved
        then settle_push user_id fixture_id now (deliver_any channel subs taken) s'
        else (false, count_exhausted (free_window user_id fixture_id taken), s')

  unfoldable pub push_to_users :
      Channel
      → (ℕ → ℤ)
      → ℕ
      → ℕ
      → List (ℕ × List PushSubscription)
      → Board
      → Store
      → Bool × Board × Store
  push_to_users channel pushes_per_day fixture_id now [] b s = (false, b, s)
  push_to_users channel pushes_per_day fixture_id now ((user_id, subs) ∷ users) b s =
      let (stop, b', s') =
        push_to_user channel (pushes_per_day user_id) fixture_id now subs user_id b s in
      let rest = push_to_users channel pushes_per_day fixture_id now users b' s' in
      if stop then (true, b', s') else rest

-- `by_user[sub.user_id].append(sub)`
abbrev pub add_to :
    PushSubscription → List (ℕ × List PushSubscription) → List (ℕ × List PushSubscription)
add_to sub [] = (sub.user_id, sub ∷ []) ∷ []
add_to sub ((user_id, subs) ∷ users) =
    let rest = add_to sub users in
    if user_id == sub.user_id then (user_id, subs ++ (sub ∷ [])) ∷ users else (user_id, subs) ∷ rest

abbrev pub by_user :
    List PushSubscription → List (ℕ × List PushSubscription) → List (ℕ × List PushSubscription)
by_user [] users = users
by_user (sub ∷ subs) users = by_user subs (add_to sub users)

abbrev pub no_result : PushDispatchResult
no_result = record {
  rate_limited = 0;
  delivered = 0;
  failed = 0;
  budget_exhausted = 0;
  pruned = 0;
  skipped_no_subscription = false;
}

module _ (r : Redis) where
  open r use {Store}

  unfoldable pub dispatch_to :
      Channel → (ℕ → ℤ) → ℕ → ℕ → List PushSubscription → Board → Store → Bool × Board × Store
  dispatch_to channel pushes_per_day fixture_id now [] b s =
      (false, record b { result = record b.result { skipped_no_subscription = true } }, s)
  dispatch_to channel pushes_per_day fixture_id now (sub ∷ subs) b s =
      push_to_users r channel pushes_per_day fixture_id now (by_user (sub ∷ subs) []) b s

  -- The subscriptions of the users who follow the fixture.
  unfoldable pub dispatch_push : Channel → (ℕ → ℤ) → ℕ → ℕ → Board → Store → Bool × Board × Store
  dispatch_push channel pushes_per_day fixture_id now b s =
      dispatch_to channel pushes_per_day fixture_id now
        (select (λ sub. is_following sub.user_id fixture_id b.follows) b.subscriptions)
        (record b { result = no_result }) s
