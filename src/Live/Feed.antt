-- ===== src/Live/Feed.antt =====
-- backend/app/services/live/recompute.py: a state that is polled again.
use betpulse.Prelude.{
  ℕ, ◌<◌, ◌≡◌, refl, sym, ◌∙◌, ap, true, false, Option, none, some, List, [], ◌∷◌, ◌==◌, All, arith,
  if◌then◌else◌, if_cases,
}
use betpulse.Live.Ingestion.{LiveFixtureState}
use betpulse.Live.Recompute.{
  Floats, Probs, BaseRates, LiveUpdate, Feed, RecomputeResult, newer, latest_live_update,
  is_same_state, update_of, unchanged_result, write_update, recompute_after, recompute_fixture,
}

module _ (n : Floats) where
  -- The identifiers to come are unused.
  abbrev pub IsNumbered : Feed n → Type 0
  IsNumbered feed = All (λ u. u.id < feed.next_id) feed.updates

  abbrev IsBelow : ℕ → Option (LiveUpdate n) → Type 0
  IsBelow k none = Unit
  IsBelow k (some v) = v.id < k

  newer-IsBelow :
      (k : ℕ) (u : LiveUpdate n) (o : Option (LiveUpdate n))
      → u.id < k
      → IsBelow k o
      → (newer n u o).id < k
  newer-IsBelow k u none h below = h
  newer-IsBelow k u (some v) h below = ground (arith, h, below)

  latest-IsBelow :
      (k fixture_id : ℕ) (us : List (LiveUpdate n))
      → All (λ v. v.id < k) us
      → IsBelow k (latest_live_update n us fixture_id)
  unfolding latest_live_update
  latest-IsBelow k fixture_id [] h = tt
  latest-IsBelow k fixture_id (u ∷ us) (h, rest) =
      let others = latest-IsBelow k fixture_id us rest in
      if_cases (IsBelow k) (u.fixture_id == fixture_id)
        (λ _. newer-IsBelow k u (latest_live_update n us fixture_id) h others) (λ _. others)

  newer_lem : (u : LiveUpdate n) (o : Option (LiveUpdate n)) → IsBelow u.id o → newer n u o ≡ u
  newer_lem u none h = refl
  newer_lem u (some v) h = ground (arith, h)

  module _ (in_play_one_x_two : BaseRates n → ℕ → ℕ → ℕ → Probs n) where
    -- The latest update of a fixture after one is written for it.
    written_lem :
        (s : LiveFixtureState) (now : ℕ) (probs : Probs n) (feed : Feed n)
        → IsNumbered feed
        → latest_live_update n (update_of n s now probs feed.next_id ∷ feed.updates) s.fixture_id
          ≡ some (update_of n s now probs feed.next_id)
    unfolding latest_live_update
    written_lem s now probs feed h =
        let u = update_of n s now probs feed.next_id in
        ground (
          arith,
          newer_lem u (latest_live_update n feed.updates s.fixture_id)
              (latest-IsBelow feed.next_id s.fixture_id feed.updates h),
        )

    -- What a recomputation leaves: an update of the state that is the latest of its fixture.
    abbrev Settled : LiveFixtureState → RecomputeResult n × Feed n → Type 0
    Settled s (r, feed) =
        (u : LiveUpdate n) × (latest_live_update n feed.updates s.fixture_id ≡ some u)
        × (is_same_state n s u ≡ true)
        × (r.live_update_id ≡ some u.id)
        × (r.probs ≡ u.probs)

    write_update-Settled :
        (s : LiveFixtureState) (rates : BaseRates n) (threshold : n.Float) (now db_now : ℕ)
        (latest : Option (LiveUpdate n)) (feed : Feed n)
        → IsNumbered feed
        → Settled s (write_update n in_play_one_x_two s rates threshold now db_now latest feed)
    write_update-Settled s rates threshold now db_now latest feed h =
        let probs = in_play_one_x_two rates s.home_score s.away_score s.minute in
        (
          update_of n s db_now probs feed.next_id,
          written_lem s db_now probs feed h,
          ground arith,
          refl,
          refl,
        )

    recompute_after-Settled :
        (s : LiveFixtureState) (rates : BaseRates n) (threshold : n.Float) (now db_now : ℕ)
        (latest : Option (LiveUpdate n)) (feed : Feed n)
        → IsNumbered feed
        → latest_live_update n feed.updates s.fixture_id ≡ latest
        → Settled s (recompute_after n in_play_one_x_two s rates threshold now db_now latest feed)
    recompute_after-Settled s rates threshold now db_now none feed h e =
        write_update-Settled s rates threshold now db_now none feed h
    recompute_after-Settled s rates threshold now db_now (some u) feed h e =
        if_cases (Settled s) (is_same_state n s u) (λ same. (u, e, same, refl, refl))
          (λ _. write_update-Settled s rates threshold now db_now (some u) feed h)

    -- Polling a state again, at whatever time and with whatever rates and threshold, writes nothing
    -- and pushes nothing: the answer is unchanged and names the update that is already in the feed,
    -- with its probabilities. This is for a feed whose sequence has given no identifier twice.
    pub recompute_fixture_again :
        (s : LiveFixtureState) (rates rates' : BaseRates n) (threshold threshold' : n.Float)
        (now db_now now' db_now' : ℕ) (feed : Feed n)
        → IsNumbered feed
        → let (r, feed') =
            recompute_fixture n in_play_one_x_two s rates threshold now db_now feed in
          let (r', feed'') =
            recompute_fixture n in_play_one_x_two s rates' threshold' now' db_now' feed' in
          (feed'' ≡ feed')
          × (r'.changed ≡ false)
          × (r'.should_push ≡ false)
          × (r'.live_update_id ≡ r.live_update_id)
          × (r'.probs ≡ r.probs)
    unfolding recompute_fixture
    recompute_fixture_again s rates rates' threshold threshold' now db_now now' db_now' feed h =
        let first =
          recompute_after n in_play_one_x_two s rates threshold now db_now
            (latest_live_update n feed.updates s.fixture_id) feed in
        let (u, latest, same, id, probs) =
          recompute_after-Settled s rates threshold now db_now
            (latest_live_update n feed.updates s.fixture_id) feed h refl in
        let feed' = first.1 in
        let step : recompute_after n in_play_one_x_two s rates' threshold' now' db_now'
              (latest_live_update n feed'.updates s.fixture_id) feed'
            ≡ (unchanged_result n s u, feed') =
          ap (λ o. recompute_after n in_play_one_x_two s rates' threshold' now' db_now' o feed')
            latest
          ∙ ap
              (λ b.
                if b
                then (unchanged_result n s u, feed')
                else write_update n in_play_one_x_two s rates' threshold' now' db_now' (some u)
                    feed')
              same in
        (
          ap (λ x. x.1) step,
          ap (λ x. x.0.changed) step,
          ap (λ x. x.0.should_push) step,
          ap (λ x. x.0.live_update_id) step ∙ sym id,
          ap (λ x. x.0.probs) step ∙ sym probs,
        )
