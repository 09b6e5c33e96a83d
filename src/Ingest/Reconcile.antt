-- ===== src/Ingest/Reconcile.antt =====
-- backend/app/services/ingestion/core.py: an existing fixture brought up to date with a record.
-- Changes are a list in the order in which the source's dictionary holds them.
use betpulse.Prelude.{
  ℕ, suc, Bool, true, false, Option, none, some, List, [], ◌∷◌, ◌++◌, ◌==◌, ◌&&◌, ◌||◌, not, leb,
  find, is_some, select, update_where, if◌then◌else◌,
}
use betpulse.Ingest.Fixtures.{is_same_match}
use betpulse.Ingest.Model.{
  Fixture, finished, same_status, Odds, ScoreField, ft_home, ft_away, ht_home, ht_away, Conflict,
  Change, score, status, kickoff_at, kickoff_time_known, FixtureDto,
}

abbrev pub same_field : ScoreField → ScoreField → Bool
same_field ft_home ft_home = true
same_field ft_away ft_away = true
same_field ht_home ht_home = true
same_field ht_away ht_away = true
same_field _ _ = false

-- `getattr(fixture, name)`, and of the record.
abbrev pub stored_score : ScoreField → Fixture → Option ℕ
stored_score ft_home f = f.ft_home
stored_score ft_away f = f.ft_away
stored_score ht_home f = f.ht_home
stored_score ht_away f = f.ht_away

abbrev pub reported_score : ScoreField → FixtureDto → Option ℕ
reported_score ft_home dto = dto.ft_home
reported_score ft_away dto = dto.ft_away
reported_score ht_home dto = dto.ht_home
reported_score ht_away dto = dto.ht_away

pub data Verdict : Type 0 where
  keep : Verdict
  change : ℕ → Verdict
  disagree : ℕ → ℕ → Verdict

-- One turn of the loop over `_SCORE_FIELDS`.
unfoldable pub compare_score : Bool → Option ℕ → Option ℕ → Verdict
compare_score own_source none current = keep
compare_score own_source (some incoming) none = change incoming
compare_score own_source (some incoming) (some current) =
    if incoming == current
    then keep
    else if own_source
    then change incoming
    else disagree current incoming

abbrev pub changes_of : ScoreField → Verdict → List Change
changes_of field keep = []
changes_of field (change incoming) = score field incoming ∷ []
changes_of field (disagree existing incoming) = []

-- uq_ingestion_conflict
abbrev pub is_conflict : ℕ → ℕ → ScoreField → Conflict → Bool
is_conflict fixture_id provider field c =
    (c.fixture_id == fixture_id) && (c.provider == provider) && same_field c.field field

-- `_record_conflict`: INSERT … ON CONFLICT ON CONSTRAINT uq_ingestion_conflict DO UPDATE.
unfoldable pub record_conflict :
    ℕ → ℕ → Option ℕ → ScoreField → ℕ → ℕ → List Conflict → List Conflict
record_conflict fixture_id provider external_id field existing incoming [] =
    record {
      fixture_id = fixture_id;
      provider = provider;
      external_id = external_id;
      field = field;
      existing = existing;
      incoming = incoming;
    }
    ∷ []
record_conflict fixture_id provider external_id field existing incoming (c ∷ cs) =
    let rest = record_conflict fixture_id provider external_id field existing incoming cs in
    if is_conflict fixture_id provider field c
    then record c { existing = existing; incoming = incoming } ∷ cs
    else c ∷ rest

-- The conflicts afterwards, and how many were counted.
abbrev pub note_conflict :
    ℕ → ℕ → Option ℕ → ScoreField → Verdict → List Conflict × ℕ → List Conflict × ℕ
note_conflict fixture_id provider external_id field (disagree existing incoming) (cs, n) =
    (record_conflict fixture_id provider external_id field existing incoming cs, suc n)
note_conflict fixture_id provider external_id field _ x = x

abbrev pub score_fields : List ScoreField
score_fields = ft_home ∷ ft_away ∷ ht_home ∷ ht_away ∷ []

abbrev pub score_changes : Bool → Fixture → FixtureDto → List ScoreField → List Change
score_changes own f dto [] = []
score_changes own f dto (x ∷ xs) =
    changes_of x (compare_score own (reported_score x dto) (stored_score x f))
    ++ score_changes own f dto xs

abbrev pub score_conflicts :
    Bool → ℕ → Fixture → FixtureDto → List ScoreField → List Conflict × ℕ → List Conflict × ℕ
score_conflicts own provider f dto [] acc = acc
score_conflicts own provider f dto (x ∷ xs) acc = score_conflicts own provider f dto xs (
    note_conflict f.id provider dto.external_id x
      (compare_score own (reported_score x dto) (stored_score x f)) acc)

abbrev pub status_changes : Bool → Fixture → FixtureDto → List Change
status_changes own f dto =
    if not (same_status dto.status f.status) && (own || not (same_status f.status finished))
    then status dto.status ∷ []
    else []

-- `own_source and by_ref and dto.kickoff_at != fixture.kickoff_at`
abbrev pub is_moved : Bool → Bool → Fixture → FixtureDto → Bool
is_moved own by_ref f dto = own && by_ref && not (dto.kickoff_at == f.kickoff_at)

abbrev pub same_bool : Bool → Bool → Bool
same_bool true b = b
same_bool false b = not b

abbrev pub kickoff_changes : Fixture → FixtureDto → List Change
kickoff_changes f dto =
    kickoff_at dto.kickoff_at
    ∷ (if same_bool dto.kickoff_time_known f.kickoff_time_known
        then []
        else kickoff_time_known dto.kickoff_time_known ∷ [])

unfoldable pub changes_for : Bool → Bool → Fixture → FixtureDto → List Change
changes_for own by_ref f dto =
    let moves = if is_moved own by_ref f dto then kickoff_changes f dto else [] in
    score_changes own f dto score_fields ++ (status_changes own f dto ++ moves)

-- A quote at or after the new kickoff.
abbrev pub is_late : ℕ → ℕ → Odds → Bool
is_late fixture_id kickoff o = (o.fixture_id == fixture_id) && leb kickoff o.ts

-- The DELETE, and the UPDATE that no quote stays closing.
unfoldable pub move_odds : ℕ → ℕ → List Odds → List Odds
move_odds fixture_id kickoff odds =
    update_where (λ o. (o.fixture_id == fixture_id) && o.is_closing)
      (λ o. record o { is_closing = false }) (select (λ o. not (is_late fixture_id kickoff o)) odds)

abbrev pub set_score : ScoreField → ℕ → Fixture → Fixture
set_score ft_home n f = record f { ft_home = some n }
set_score ft_away n f = record f { ft_away = some n }
set_score ht_home n f = record f { ht_home = some n }
set_score ht_away n f = record f { ht_away = some n }

unfoldable pub set_field : Change → Fixture → Fixture
set_field (score field n) f = set_score field n f
set_field (status s) f = record f { status = s }
set_field (kickoff_at k) f = record f { kickoff_at = k }
set_field (kickoff_time_known b) f = record f { kickoff_time_known = b }

unfoldable pub apply_changes : List Change → Fixture → Fixture
apply_changes [] f = f
apply_changes (c ∷ cs) f = apply_changes cs (set_field c f)

-- uq_fixture_identity at the flush: another fixture is the same match at the same time.
abbrev pub collides : Fixture → List Fixture → Bool
collides f fixtures = is_some (
    find
      (λ g.
        not (g.id == f.id)
        && is_same_match f.league_id f.season f.home_team_id f.away_team_id f.kickoff_at g)
      fixtures)
