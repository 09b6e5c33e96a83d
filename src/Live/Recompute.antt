-- ===== src/Live/Recompute.antt =====
-- backend/app/services/live/recompute.py, with replay_since of services/live/events.py: the feed of
-- updates of matches in play. Floats, their rounding and the in-play formula of ml/dixon_coles.py are
-- parameters; the labels of a payload are constants and are left out.
use betpulse.Prelude.{
  ℕ, zero, suc, ◌-◌, ◌*◌, Bool, true, false, Option, none, some, List, [], ◌∷◌, ◌==◌, ◌&&◌, ltb,
  leb, is_some, select, if◌then◌else◌,
}
use betpulse.Clock.{second}
use betpulse.Live.Ingestion.{LiveFixtureState}

pub record Floats : Type 1 where
  pub Float : Type 0
  pub zero_float : Float
  -- abs(a - b)
  pub gap : Float → Float → Float
  pub larger : Float → Float → Float
  pub exceeds : Float → Float → Bool
  pub rounded : Float → Float

module _ (n : Floats) where
  open n use {Float}

  pub record Probs : Type 0 where
    pub home : Float
    pub draw : Float
    pub away : Float

  -- Base rates: expected goals and the correction of low scores.
  pub record BaseRates : Type 0 where
    pub lam_home : Float
    pub lam_away : Float
    pub rho : Float

  pub record LiveUpdate : Type 0 where
    pub id : ℕ
    pub fixture_id : ℕ
    pub minute : ℕ
    pub home_score : ℕ
    pub away_score : ℕ
    pub probs : Probs
    pub created_at : ℕ

  pub record PredictionLive : Type 0 where
    pub fixture_id : ℕ
    pub outcome : ℕ
    pub minute : ℕ
    pub recorded_at : ℕ
    pub probability : Float

  -- The two tables, and the next value of the sequence of updates.
  pub record Feed : Type 0 where
    pub updates : List LiveUpdate
    pub predictions : List PredictionLive
    pub next_id : ℕ

  pub record RecomputeResult : Type 0 where
    pub state : LiveFixtureState
    pub probs : Probs
    pub changed : Bool
    pub swing : Float
    pub should_push : Bool
    pub live_update_id : Option ℕ

  abbrev pub newer : LiveUpdate → Option LiveUpdate → LiveUpdate
  newer u none = u
  newer u (some v) = if ltb u.id v.id then v else u

  -- ORDER BY id DESC LIMIT 1, of one fixture.
  unfoldable pub latest_live_update : List LiveUpdate → ℕ → Option LiveUpdate
  latest_live_update [] fixture_id = none
  latest_live_update (u ∷ us) fixture_id =
      let rest = latest_live_update us fixture_id in
      if u.fixture_id == fixture_id then some (newer u rest) else rest

  unfoldable pub max_swing : Option Probs → Probs → Float
  max_swing none current = n.zero_float
  max_swing (some prev) current =
      n.larger (n.larger (n.gap current.home prev.home) (n.gap current.draw prev.draw))
        (n.gap current.away prev.away)

  abbrev pub is_same_state : LiveFixtureState → LiveUpdate → Bool
  is_same_state s u =
      (u.minute == s.minute) && (u.home_score == s.home_score) && (u.away_score == s.away_score)

  abbrev pub prediction_of : LiveFixtureState → ℕ → ℕ → Float → PredictionLive
  prediction_of s now outcome prob = record {
    fixture_id = s.fixture_id;
    outcome = outcome;
    minute = s.minute;
    recorded_at = now;
    probability = n.rounded prob;
  }

  -- `_write_predictions_live`; home, draw and away are 0, 1 and 2.
  unfoldable pub write_predictions_live :
      LiveFixtureState → ℕ → Probs → List PredictionLive → List PredictionLive
  write_predictions_live s now probs rows =
      prediction_of s now 0 probs.home
      ∷ prediction_of s now 1 probs.draw
      ∷ prediction_of s now 2 probs.away
      ∷ rows

  -- `created_at` is the server's default, its own now().
  abbrev pub update_of : LiveFixtureState → ℕ → Probs → ℕ → LiveUpdate
  update_of s db_now probs id = record {
    id = id;
    fixture_id = s.fixture_id;
    minute = s.minute;
    home_score = s.home_score;
    away_score = s.away_score;
    probs = probs;
    created_at = db_now;
  }

  -- The answer for a state that the latest update already has.
  abbrev pub unchanged_result : LiveFixtureState → LiveUpdate → RecomputeResult
  unchanged_result s u = record {
    state = s;
    probs = u.probs;
    changed = false;
    swing = n.zero_float;
    should_push = false;
    live_update_id = some u.id;
  }

  abbrev pub probs_of : Option LiveUpdate → Option Probs
  probs_of none = none
  probs_of (some u) = some u.probs

  module _ (in_play_one_x_two : BaseRates → ℕ → ℕ → ℕ → Probs) where
    -- The rows of a state that is new, at a time of the service and one of the database.
    abbrev pub write_update :
        LiveFixtureState
        → BaseRates
        → Float
        → ℕ
        → ℕ
        → Option LiveUpdate
        → Feed
        → RecomputeResult × Feed
    write_update s rates swing_threshold now db_now latest feed =
        let probs = in_play_one_x_two rates s.home_score s.away_score s.minute in
        let swing = max_swing (probs_of latest) probs in
        (
          record {
            state = s;
            probs = probs;
            changed = true;
            swing = swing;
            should_push = is_some latest && n.exceeds swing swing_threshold;
            live_update_id = some feed.next_id;
          },
          record {
            updates = update_of s db_now probs feed.next_id ∷ feed.updates;
            predictions = write_predictions_live s now probs feed.predictions;
            next_id = suc feed.next_id;
          },
        )

    abbrev pub recompute_after :
        LiveFixtureState
        → BaseRates
        → Float
        → ℕ
        → ℕ
        → Option LiveUpdate
        → Feed
        → RecomputeResult × Feed
    recompute_after s rates swing_threshold now db_now none feed =
        write_update s rates swing_threshold now db_now none feed
    recompute_after s rates swing_threshold now db_now (some u) feed =
        if is_same_state s u
        then (unchanged_result s u, feed)
        else write_update s rates swing_threshold now db_now (some u) feed

    unfoldable pub recompute_fixture :
        LiveFixtureState → BaseRates → Float → ℕ → ℕ → Feed → RecomputeResult × Feed
    recompute_fixture s rates swing_threshold now db_now feed =
        recompute_after s rates swing_threshold now db_now
          (latest_live_update feed.updates s.fixture_id) feed

  -- ORDER BY id
  abbrev pub insert_by_id : LiveUpdate → List LiveUpdate → List LiveUpdate
  insert_by_id u [] = u ∷ []
  insert_by_id u (v ∷ vs) =
      let rest = insert_by_id u vs in if ltb v.id u.id then v ∷ rest else u ∷ v ∷ vs

  abbrev pub sort_by_id : List LiveUpdate → List LiveUpdate
  sort_by_id [] = []
  sort_by_id (u ∷ us) = insert_by_id u (sort_by_id us)

  abbrev pub take_updates : ℕ → List LiveUpdate → List LiveUpdate
  take_updates zero us = []
  take_updates (suc k) [] = []
  take_updates (suc k) (u ∷ us) = u ∷ take_updates k us

  unfoldable pub replay_since : List LiveUpdate → ℕ → ℕ → ℕ → ℕ → List LiveUpdate
  replay_since updates last_event_id window_seconds now limit = take_updates limit (
      sort_by_id (
        select (λ u. ltb last_event_id u.id && leb (now - window_seconds * second) u.created_at)
          updates))
