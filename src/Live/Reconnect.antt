-- ===== src/Live/Reconnect.antt =====
-- backend/app/services/live/recompute.py and events.py: a client that reconnects.
use betpulse.Prelude.{
  ℕ, zero, suc, ◌+◌, ◌-◌, ◌*◌, ◌<◌, ◌≡◌, refl, ◌∙◌, ap, subst, Option, none, some, List, [], ◌∷◌,
  ◌&&◌, ltb, leb, select, All, arith, if◌then◌else◌, if_cases,
}
use betpulse.Clock.{second}
use betpulse.Live.Ingestion.{LiveFixtureState}
use betpulse.Live.Recompute.{
  Floats, Probs, BaseRates, LiveUpdate, Feed, RecomputeResult, latest_live_update, is_same_state,
  update_of, recompute_after, recompute_fixture, sort_by_id, take_updates, replay_since,
}
use betpulse.Live.Feed.{IsNumbered}

module _ (n : Floats) where
  -- Updates that a client has seen are not replayed.
  select-seen :
      (last cutoff : ℕ) (us : List (LiveUpdate n))
      → All (λ u. u.id < suc last) us
      → select (λ u. ltb last u.id && leb cutoff u.created_at) us ≡ []
  select-seen last cutoff [] h = refl
  select-seen last cutoff (u ∷ us) (old, rest) =
      ground (arith, old, select-seen last cutoff us rest)

  take_nothing : (limit : ℕ) → take_updates n limit [] ≡ []
  take_nothing zero = refl
  take_nothing (suc k) = refl

  module _ (in_play_one_x_two : BaseRates n → ℕ → ℕ → ℕ → Probs n) where
    replay_write :
        (s : LiveFixtureState) (db_now later last_event_id window_seconds limit : ℕ)
        (probs : Probs n) (feed : Feed n)
        → IsNumbered n feed
        → feed.next_id ≡ suc last_event_id
        → replay_since n
            (update_of n s db_now probs feed.next_id ∷ feed.updates)
            last_event_id
            window_seconds
            later
            (suc limit)
          ≡ (if leb later (db_now + window_seconds * second)
              then update_of n s db_now probs feed.next_id ∷ []
              else [])
    unfolding replay_since
    replay_write s db_now later last_event_id window_seconds limit probs feed h fresh =
        let u = update_of n s db_now probs feed.next_id in
        let cutoff = later - window_seconds * second in
        let old = select (λ v. ltb last_event_id v.id && leb cutoff v.created_at) feed.updates in
        let none_seen =
          select-seen last_event_id cutoff feed.updates
            (subst (λ k. All (λ v. v.id < k) feed.updates) fresh h) in
        let recent : (ltb last_event_id feed.next_id && leb cutoff db_now)
            ≡ leb later (db_now + window_seconds * second) =
          ground (arith, fresh) in
        ap (λ b. take_updates n (suc limit) (sort_by_id n (if b then u ∷ old else old))) recent
        ∙ ap
            (λ xs.
              take_updates n (suc limit) (
                sort_by_id n (if leb later (db_now + window_seconds * second) then u ∷ xs else xs)))
            none_seen
        ∙ if_cases (λ (xs : List (LiveUpdate n)). take_updates n (suc limit) (sort_by_id n xs) ≡ xs)
            (leb later (db_now + window_seconds * second))
            (λ _. ap (λ xs. u ∷ xs) (take_nothing limit)) (λ _. refl)

    replay_seen :
        (now last_event_id window_seconds limit : ℕ) (feed : Feed n)
        → IsNumbered n feed
        → feed.next_id ≡ suc last_event_id
        → replay_since n feed.updates last_event_id window_seconds now limit ≡ []
    unfolding replay_since
    replay_seen now last_event_id window_seconds limit feed h fresh =
        ap (λ xs. take_updates n limit (sort_by_id n xs))
          (select-seen last_event_id (now - window_seconds * second) feed.updates
            (subst (λ k. All (λ v. v.id < k) feed.updates) fresh h))
        ∙ take_nothing limit

    replay_after :
        (s : LiveFixtureState) (rates : BaseRates n) (threshold : n.Float)
        (now db_now later last_event_id window_seconds limit : ℕ) (latest : Option (LiveUpdate n))
        (feed : Feed n)
        → IsNumbered n feed
        → feed.next_id ≡ suc last_event_id
        → let (r, feed') =
            recompute_after n in_play_one_x_two s rates threshold now db_now latest feed in
          replay_since n feed'.updates last_event_id window_seconds later (suc limit) ≡ (
            if r.changed && leb later (db_now + window_seconds * second)
            then update_of n s db_now r.probs feed.next_id ∷ []
            else [])
    replay_after s rates threshold now db_now later last_event_id window_seconds limit none feed h
          fresh =
        replay_write s db_now later last_event_id window_seconds limit
          (in_play_one_x_two rates s.home_score s.away_score s.minute) feed h fresh
    replay_after s rates threshold now db_now later last_event_id window_seconds limit (some u) feed
          h fresh =
        if_cases
          (λ (x : RecomputeResult n × Feed n).
            replay_since n x.1.updates last_event_id window_seconds later (suc limit) ≡ (
              if x.0.changed && leb later (db_now + window_seconds * second)
              then update_of n s db_now x.0.probs feed.next_id ∷ []
              else []))
          (is_same_state n s u)
          (λ _. replay_seen later last_event_id window_seconds (suc limit) feed h fresh)
          (λ _.
            replay_write s db_now later last_event_id window_seconds limit
              (in_play_one_x_two rates s.home_score s.away_score s.minute) feed h fresh)

    -- A client that has seen every update so far, and reconnects some time after a recomputation with
    -- room for an update, gets exactly the update that was written, if it is no older than the window;
    -- it gets nothing when the state had not changed or the update has left the window.
    pub replay_since-recompute_fixture :
        (s : LiveFixtureState) (rates : BaseRates n) (threshold : n.Float)
        (now db_now later last_event_id window_seconds limit : ℕ) (feed : Feed n)
        → IsNumbered n feed
        → feed.next_id ≡ suc last_event_id
        → let (r, feed') =
            recompute_fixture n in_play_one_x_two s rates threshold now db_now feed in
          replay_since n feed'.updates last_event_id window_seconds later (suc limit) ≡ (
            if r.changed && leb later (db_now + window_seconds * second)
            then update_of n s db_now r.probs feed.next_id ∷ []
            else [])
    unfolding recompute_fixture replay_since
    replay_since-recompute_fixture s rates threshold now db_now later last_event_id window_seconds
          limit feed h fresh =
        replay_after s rates threshold now db_now later last_event_id window_seconds limit
          (latest_live_update n feed.updates s.fixture_id) feed h fresh
