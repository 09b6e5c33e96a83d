-- ===== src/Quality/Reference.antt =====
-- What the errors of a report stand for, by quantifiers over the tables: sound fixtures, no match
-- stored twice, and sound odds.
use betpulse.Prelude.{
  ℕ, Bool, true, Option, none, some, List, [], ◌∷◌, ◌==◌, ◌&&◌, ◌||◌, ltb, leb, not, is_some,
}
use betpulse.Prelude.Int.{pos, leb_ℤ}
use betpulse.Ingest.Model.{Fixture, Odds, League, Tables}
use betpulse.Ingest.Fixtures.{distance}
use betpulse.Ingest.Quotes.{min_price, max_price}
use betpulse.Quality.Checks.{
  Scope, Scoped, by_id, is_finished, has_score, max_goals, signed, duplicate_window, league_code,
  is_pair_scoped,
}

abbrev pub every {ℓ} : {A : Type ℓ} → (A → Bool) → List A → Bool
every p [] = true
every p (x ∷ xs) = p x && every p xs

-- From 0 to 15 goals.
abbrev pub fits : Option ℕ → Bool
fits none = true
fits (some goals) = leb_ℤ (pos 0) (signed goals) && leb_ℤ (signed goals) (pos max_goals)

-- At half time no side has more goals than at full time, where all are known.
abbrev pub half_fits : Option ℕ → Option ℕ → Option ℕ → Option ℕ → Bool
half_fits (some hh) (some fh) (some ha) (some fa) =
    leb_ℤ (signed hh) (signed fh) && leb_ℤ (signed ha) (signed fa)
half_fits _ _ _ _ = true

abbrev pub is_sound_fixture : ℕ → Fixture → Bool
is_sound_fixture now f =
    (not (is_finished f) || (has_score f && leb f.kickoff_at now))
    && fits f.ft_home
    && fits f.ft_away
    && fits f.ht_home
    && fits f.ht_away
    && half_fits f.ht_home f.ft_home f.ht_away f.ft_away

abbrev pub is_same_pairing : Fixture → Fixture → Bool
is_same_pairing f g =
    (g.league_id == f.league_id)
    && (g.home_team_id == f.home_team_id)
    && (g.away_team_id == f.away_team_id)

-- Two rows of one pairing lie more than the window apart; each pair is looked at once.
abbrev pub are_apart : Fixture → Fixture → Bool
are_apart f g =
    not (is_same_pairing f g)
    || leb g.id f.id
    || ltb duplicate_window (distance g.kickoff_at f.kickoff_at)

-- The pair is within the report: its league is stored and one of the two is in the scope.
abbrev pub is_pair_seen : Scope → List Scoped → List League → Fixture → Fixture → Bool
is_pair_seen s xs leagues f g = is_some (league_code leagues f.league_id) && is_pair_scoped s xs f g

abbrev pub are_single : Scope → List Scoped → List League → List Fixture → List Fixture → Bool
are_single s xs leagues all fs =
    every (λ f. every (λ g. not (is_pair_seen s xs leagues f g) || are_apart f g) all) fs

abbrev pub is_sound_quote : Option Scoped → Odds → Bool
is_sound_quote none o = true
is_sound_quote (some x) o =
    ltb min_price o.price
    && leb o.price max_price
    && (not o.is_closing || leb o.ts x.fixture.kickoff_at)

abbrev pub is_sound : ℕ → Scope → Tables → List Scoped → Bool
is_sound now s t xs =
    every (λ x. is_sound_fixture now x.fixture) xs
    && are_single s xs t.names.leagues t.fixtures t.fixtures
    && every (λ o. is_sound_quote (by_id xs o.fixture_id) o) t.odds
