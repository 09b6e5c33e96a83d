-- ===== src/Push/Bound.antt =====
-- The limits of the users over a dispatch.
use betpulse.Prelude.{
  if_cases, ℕ, ◌≤◌, ◌≡◌, ◌≢◌, ◌∙◌, refl, sym, subst, Bool, List, [], ◌∷◌, arith, select,
}
use betpulse.Prelude.Int.{pos}
use betpulse.Redis.{Redis}
use betpulse.Clock.{date_of}
use native.Mathlib.Decide.{ℕ_discrete}
use betpulse.Limits.{reserve_push}
use betpulse.Limits.Pushes.{
  spent, reserve_push_outcome, release_push-spent, reserve_push-spent_ne, release_push-spent_ne,
}
use betpulse.Push.{
  PushSubscription, Board, Delivery, done, not_done, raised, Channel, deliver_any, holds,
  take_window, settle_push, push_to_user, push_to_users, dispatch_to, dispatch_push, is_following,
  by_user, no_result,
}

module _ (r : Redis) where
  open r use {Store}

  -- A turn leaves the budgets of the other users alone.
  settle_push-spent_ne :
      (u v f now : ℕ) (d : Delivery × Board) (s : Store)
      → v ≢ u
      → spent r v (date_of now) (settle_push r u f now d s).2 ≡ spent r v (date_of now) s
  unfolding settle_push
  settle_push-spent_ne u v f now (done, b) s ne = refl
  settle_push-spent_ne u v f now (not_done, b) s ne = release_push-spent_ne r s u v now ne
  settle_push-spent_ne u v f now (raised, b) s ne = release_push-spent_ne r s u v now ne

  push_to_user-spent_ne :
      (channel : Channel) (limit f now : ℕ) (subs : List PushSubscription) (u v : ℕ) (b : Board)
      (s : Store)
      → v ≢ u
      → spent r v (date_of now) (push_to_user r channel (pos limit) f now subs u b s).2
        ≡ spent r v (date_of now) s
  unfolding push_to_user
  push_to_user-spent_ne channel limit f now subs u v b s ne =
      let (reserved, s') = reserve_push r s u (pos limit) now in
      let kept = reserve_push-spent_ne r s u v limit now ne in
      let Kept =
        λ (end : Bool × Board × Store). spent r v (date_of now) end.2 ≡ spent r v (date_of now) s in
      if_cases Kept (holds u f b.windows) (λ held. refl)
        (λ fresh.
          if_cases Kept reserved
            (λ granted.
              settle_push-spent_ne u v f now (deliver_any channel subs (take_window u f b)) s' ne
              ∙ kept)
            (λ exhausted. kept))

  -- The turn of a user never takes the day's count over the limit.
  settle_push-bound :
      (u f now : ℕ) (d : Delivery × Board) (s : Store) (limit : ℕ)
      → spent r u (date_of now) s ≤ limit
      → spent r u (date_of now) (settle_push r u f now d s).2 ≤ limit
  unfolding settle_push
  settle_push-bound u f now (done, b) s limit h = h
  settle_push-bound u f now (not_done, b) s limit h =
      ground (arith, h, release_push-spent r s u now)
  settle_push-bound u f now (raised, b) s limit h = ground (arith, h, release_push-spent r s u now)

  push_to_user-bound :
      (channel : Channel) (limit f now : ℕ) (subs : List PushSubscription) (u : ℕ) (b : Board)
      (s : Store)
      → spent r u (date_of now) s ≤ limit
      → spent r u (date_of now) (push_to_user r channel (pos limit) f now subs u b s).2 ≤ limit
  unfolding push_to_user
  push_to_user-bound channel limit f now subs u b s h =
      let (reserved, s') = reserve_push r s u (pos limit) now in
      let room : spent r u (date_of now) s' ≤ limit =
        ground (arith, h, reserve_push_outcome r s u limit now) in
      let Bound = λ (end : Bool × Board × Store). spent r u (date_of now) end.2 ≤ limit in
      if_cases Bound (holds u f b.windows) (λ held. h)
        (λ fresh.
          if_cases Bound reserved
            (λ granted.
              settle_push-bound u f now (deliver_any channel subs (take_window u f b)) s' limit
                room)
            (λ exhausted. room))

  turn-bound :
      (channel : Channel) (limit : ℕ → ℕ) (f now : ℕ) (subs : List PushSubscription) (u v : ℕ)
      (b : Board) (s : Store)
      → spent r v (date_of now) s ≤ limit v
      → spent r v (date_of now) (push_to_user r channel (pos (limit u)) f now subs u b s).2
        ≤ limit v
  turn-bound channel limit f now subs u v b s h = elim (ℕ_discrete v u) [
    | yes same ↦
        subst
          (λ w.
            spent r w (date_of now) (push_to_user r channel (pos (limit u)) f now subs u b s).2
            ≤ limit w)
          (sym same)
          (push_to_user-bound channel (limit u) f now subs u b s
            (subst (λ w. spent r w (date_of now) s ≤ limit w) same h))
    | no ne ↦
        subst (λ n. n ≤ limit v)
          (sym (push_to_user-spent_ne channel (limit u) f now subs u v b s ne)) h
  ]

  push_to_users-bound :
      (channel : Channel) (limit : ℕ → ℕ) (f now : ℕ) (users : List (ℕ × List PushSubscription))
      (v : ℕ) (b : Board) (s : Store)
      → spent r v (date_of now) s ≤ limit v
      → spent r v (date_of now) (push_to_users r channel (λ u. pos (limit u)) f now users b s).2
        ≤ limit v
  unfolding push_to_users
  push_to_users-bound channel limit f now [] v b s h = h
  push_to_users-bound channel limit f now ((u, subs) ∷ users) v b s h =
      let (stop, b', s') = push_to_user r channel (pos (limit u)) f now subs u b s in
      let turn = turn-bound channel limit f now subs u v b s h in
      if_cases (λ (end : Bool × Board × Store). spent r v (date_of now) end.2 ≤ limit v) stop
        (λ _. turn) (λ _. push_to_users-bound channel limit f now users v b' s' turn)

  dispatch_to-bound :
      (channel : Channel) (limit : ℕ → ℕ) (f now : ℕ) (subs : List PushSubscription) (v : ℕ)
      (b : Board) (s : Store)
      → spent r v (date_of now) s ≤ limit v
      → spent r v (date_of now) (dispatch_to r channel (λ u. pos (limit u)) f now subs b s).2
        ≤ limit v
  unfolding dispatch_to
  dispatch_to-bound channel limit f now [] v b s h = h
  dispatch_to-bound channel limit f now (sub ∷ subs) v b s h =
      push_to_users-bound channel limit f now (by_user (sub ∷ subs) []) v b s h

  -- A dispatch to the followers of a fixture, where each tier has a limit, takes no user's count of the
  -- day over the user's limit, whatever the channels answer and even if an exception ends it.
  pub dispatch_push-bound :
      (channel : Channel) (limit : ℕ → ℕ) (f now v : ℕ) (b : Board) (s : Store)
      → spent r v (date_of now) s ≤ limit v
      → spent r v (date_of now) (dispatch_push r channel (λ u. pos (limit u)) f now b s).2 ≤ limit v
  unfolding dispatch_push
  dispatch_push-bound channel limit f now v b s h =
      dispatch_to-bound channel limit f now
        (select (λ sub. is_following sub.user_id f b.follows) b.subscriptions) v
        (record b { result = no_result }) s h
