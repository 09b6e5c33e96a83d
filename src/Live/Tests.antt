-- ===== src/Live/Tests.antt =====
-- A match in play on tables that know its names.
use betpulse.Prelude.{ℕ, ◌-◌, ◌+◌, ◌≡◌, refl, false, none, some, [], ◌∷◌, arith, ltb, max}
use betpulse.Ingest.Model.{Names}
use betpulse.Ingest.Keeps.{Timely}
use betpulse.Ingest.Tests.{no_names, season_text, empty_database}
use betpulse.Live.Ingestion.{LiveFixtureDto, LiveFixtureState, Polled, poll_live}
use betpulse.Live.Sound.{Answered, poll_live-Timely}
use betpulse.Live.Recompute.{
  Floats, Probs, BaseRates, Feed, update_of, recompute_fixture, replay_since, latest_live_update,
}
use betpulse.Live.Feed.{recompute_fixture_again}
use betpulse.Live.Reconnect.{replay_since-recompute_fixture}

abbrev goal : LiveFixtureDto
goal = record {
  provider = 7;
  provider_fixture_id = 11;
  raw_code = some 1;
  season = season_text;
  home = record { raw_name = b'a' ∷ []; external_id = none };
  away = record { raw_name = b'b' ∷ []; external_id = none };
  kickoff_at = 50;
  minute = 30;
  home_score = 1;
  away_score = 0;
}

abbrev names : Names
names = record no_names {
  leagues = record { id = 1; code = 1; name = 0; country = none; season_start_month = some 8 } ∷ [];
  team_aliases =
      record { provider = 7; alias = b'a' ∷ []; external_id = none; team_id = 2 }
      ∷ record { provider = 7; alias = b'b' ∷ []; external_id = none; team_id = 3 }
      ∷ [];
  league_aliases = record { provider = 7; alias = 1; league_id = 1 } ∷ [];
}

abbrev stored : Polled
stored = record { tables = record empty_database.tables { names = names }; clocks = [] }

poll_live-Timely_example :
    let (answer, p) = poll_live 3 (goal ∷ goal ∷ []) 60 stored in
    Timely p.tables × Answered 3 2 answer
poll_live-Timely_example = poll_live-Timely 3 (goal ∷ goal ∷ []) 60 stored (tt, tt, tt)

abbrev naturals : Floats
naturals = record {
  Float = ℕ;
  zero_float = 0;
  gap = λ a b. (a - b) + (b - a);
  larger = max;
  exceeds = λ a b. ltb b a;
  rounded = λ a. a;
}

abbrev in_play : BaseRates naturals → ℕ → ℕ → ℕ → Probs naturals
in_play rates home_score away_score minute = record {
  home = home_score;
  draw = minute;
  away = away_score;
}

abbrev rates : BaseRates naturals
rates = record { lam_home = 1; lam_away = 1; rho = 0 }

abbrev leading : LiveFixtureState
leading = record { fixture_id = 4; minute = 30; home_score = 1; away_score = 0 }

abbrev drawn : LiveFixtureState
drawn = record { fixture_id = 4; minute = 20; home_score = 0; away_score = 0 }

abbrev feed : Feed naturals
feed = record {
  updates = update_of naturals drawn 40 (in_play rates 0 0 20) 1 ∷ [];
  predictions = [];
  next_id = 2;
}

recompute_fixture_again_example :
    let (r, feed') = recompute_fixture naturals in_play leading rates 5 60 61 feed in
    let (r', feed'') = recompute_fixture naturals in_play leading rates 9 70 71 feed' in
    (feed'' ≡ feed')
    × (r'.changed ≡ false)
    × (r'.should_push ≡ false)
    × (r'.live_update_id ≡ r.live_update_id)
    × (r'.probs ≡ r.probs)
recompute_fixture_again_example =
    recompute_fixture_again naturals in_play leading rates rates 5 9 60 61 70 71 feed
      (omega arith, tt)

replay_since-recompute_fixture_example :
    replay_since naturals
      (recompute_fixture naturals in_play leading rates 5 60 61 feed).1.updates
      1
      300
      300_000_061
      500
    ≡ update_of naturals leading 61 (in_play rates 1 0 30) 2 ∷ []
unfolding recompute_fixture latest_live_update
replay_since-recompute_fixture_example =
    replay_since-recompute_fixture naturals in_play leading rates 5 60 61 300_000_061 1 300 499 feed
      (omega arith, tt) refl
