-- ===== src/Live/Sound.antt =====
-- backend/app/services/live/ingestion.py: what a poll keeps of the tables, and what it counts.
use betpulse.Prelude.{
  ℕ, suc, ◌+◌, ◌<◌, ◌≡◌, refl, sym, subst, Bool, true, Option, none, some, List, [], ◌∷◌, ◌==◌, ltb,
  not, find, is_some, update_where, length, length-append, arith, if_cases, Bool-cases, inl, inr,
}
use betpulse.Ingest.Seasons.{Text}
use betpulse.Ingest.Action.{Result, ok, err, quota_exhausted}
use betpulse.Ingest.Model.{Fixture, Odds, live, status, Tables}
use betpulse.Ingest.Fixtures.{find_fixture, link_external_ref, is_same_match, is_ref}
use betpulse.Ingest.Reconcile.{apply_changes}
use betpulse.Ingest.Rows.{
  row, Below, row-update_where, applied, update_where-Below, update_where-Referenced,
  insert-Referenced, if_either, apply_changes-kickoff_at,
}
use betpulse.Ingest.TimeRule.{InTime, is_in_time_for, is_in_time, insert-InTime}
use betpulse.Ingest.Keeps.{Timely}
use betpulse.Ingest.Timely.{find_fixture-row}
use betpulse.Live.Ingestion.{
  LiveFixtureDto, Polled, LivePollResult, advance, insert_or_advance, upsert_found,
  new_live_fixture, upsert_live_fixture, with_names, poll_resolved, poll_one, poll_all, poll_live,
  resolve_live, state_of, no_result,
}

-- The row found for a match, by its own identifier.
find-row :
    (p : Fixture → Bool) (n : ℕ) (fs : List Fixture) (f : Fixture)
    → Below n fs
    → find p fs ≡ some f
    → (f.id < n) × (row f.id fs ≡ some f)
find-row p n [] f below h = absurd (cc)
find-row p n (g ∷ gs) f (lower, below) h = elim (Bool-cases (p g)) [
  | inl first ↦ (ground (arith, first, h, lower), ground (arith, first, h))
  | inr later ↦
      let (under, found) = find-row p g.id gs f below (ground (arith, later, h)) in
      (omega (arith, under, lower), ground (arith, found, under))
]

live-is_in_time_for :
    (o : Odds) (c : Option Fixture)
    → is_in_time_for c o ≡ true
    → is_in_time_for (applied (status live ∷ []) c) o ≡ true
live-is_in_time_for o none h = h
live-is_in_time_for o (some f) h =
    subst (λ k. is_in_time k o ≡ true) (sym (apply_changes-kickoff_at (status live ∷ []) f)) h

live-InTime :
    (at : ℕ) (fs : List Fixture) (odds : List Odds)
    → InTime fs odds
    → InTime (update_where (λ g. g.id == at) (apply_changes (status live ∷ [])) fs) odds
live-InTime at fs [] h = tt
live-InTime at fs (o ∷ odds) (h, rest) = (
  ground (
    arith,
    h,
    row-update_where o.fixture_id at (status live ∷ []) fs,
    live-is_in_time_for o (row o.fixture_id fs) h,
  ),
  live-InTime at fs odds rest,
)

link_external_ref-Timely :
    (id provider external_id : ℕ) (t : Tables)
    → is_some (row id t.fixtures) ≡ true
    → Timely t
    → Timely (link_external_ref id provider external_id t)
unfolding link_external_ref
link_external_ref-Timely id provider external_id t known h =
    if_either Timely (is_some (find (is_ref provider external_id) t.refs)) h
      (h.0, h.1, (known, h.2))

advance-Timely :
    (dto : LiveFixtureDto) (now : ℕ) (f : Fixture) (p : Polled)
    → row f.id p.tables.fixtures ≡ some f
    → Timely p.tables
    → Timely (advance dto now f.id p.tables p.clocks).tables
advance-Timely dto now f p found h =
    let t = p.tables in
    let after = update_where (λ g. g.id == f.id) (apply_changes (status live ∷ [])) t.fixtures in
    link_external_ref-Timely f.id dto.provider dto.provider_fixture_id
      (record t { fixtures = after })
      (ground (arith, found, row-update_where f.id f.id (status live ∷ []) t.fixtures))
      (
        live-InTime f.id t.fixtures t.odds h.0,
        update_where-Below t.next_id f.id (status live ∷ []) t.fixtures h.1,
        update_where-Referenced f.id (status live ∷ []) t.fixtures t.refs h.2,
      )

module _ (dto : LiveFixtureDto) (now league_id : ℕ) (season : Text) (home_id away_id : ℕ) where
  insert_or_advance-Timely :
      (p : Polled) (c : Option Fixture)
      → find (is_same_match league_id season home_id away_id dto.kickoff_at) p.tables.fixtures ≡ c
      → Timely p.tables
      → Timely (insert_or_advance dto now league_id season home_id away_id c p).1.tables
  insert_or_advance-Timely p (some g) found h =
      advance-Timely dto now g p
        (find-row (is_same_match league_id season home_id away_id dto.kickoff_at) p.tables.next_id
          p.tables.fixtures g h.1 found).1
        h
  insert_or_advance-Timely p none missing h =
      let t = p.tables in
      let g = new_live_fixture t.next_id dto league_id season home_id away_id in
      link_external_ref-Timely t.next_id dto.provider dto.provider_fixture_id
        (record t { fixtures = g ∷ t.fixtures; next_id = suc t.next_id }) (ground arith)
        (
          insert-InTime t.next_id g t.fixtures t.odds refl h.1 h.0,
          (omega arith, h.1),
          insert-Referenced g t.fixtures t.refs h.2,
        )

  upsert_found-Timely :
      (p : Polled) (c : Option Fixture)
      → (find_fixture p.tables dto.provider
          (some dto.provider_fixture_id)
          league_id
          home_id
          away_id
          dto.kickoff_at).0
        ≡ c
      → Timely p.tables
      → Timely (upsert_found dto now league_id season home_id away_id c p).1.tables
  upsert_found-Timely p (some f) found h =
      advance-Timely dto now f p
        (find_fixture-row p.tables dto.provider (some dto.provider_fixture_id) league_id home_id
          away_id dto.kickoff_at f h.1 found)
        h
  upsert_found-Timely p none missing h =
      insert_or_advance-Timely p
        (find (is_same_match league_id season home_id away_id dto.kickoff_at) p.tables.fixtures)
        refl h

  upsert_live_fixture-Timely :
      (p : Polled)
      → Timely p.tables
      → Timely (upsert_live_fixture dto now league_id season home_id away_id p).1.tables
  unfolding upsert_live_fixture
  upsert_live_fixture-Timely p h =
      upsert_found-Timely p
        (find_fixture p.tables dto.provider (some dto.provider_fixture_id) league_id home_id away_id
          dto.kickoff_at).0
        refl h

-- Of `n` records each is seen, and either ingested, with one state, or skipped.
abbrev pub AddsUp : ℕ → LivePollResult → Type 0
AddsUp n r = (r.seen ≡ n) × (r.ingested + r.skipped_unmapped ≡ n) × (length r.states ≡ r.ingested)

abbrev Kept : ℕ → LivePollResult × Polled → Type 0
Kept n (r, p) = Timely p.tables × AddsUp n r

poll_resolved-Kept :
    (dto : LiveFixtureDto) (now : ℕ) (e : Result (ℕ × ℕ × ℕ × Text)) (p : Polled)
    (r : LivePollResult) (n : ℕ)
    → Kept n (r, p)
    → Kept (suc n) (poll_resolved dto now e p r)
poll_resolved-Kept dto now (err e) p r n (h, (seen, sum, states)) =
    (h, (omega (arith, seen), omega (arith, sum), states))
poll_resolved-Kept dto now (ok (league_id, home_id, away_id, season)) p r n
      (h, (seen, sum, states)) =
    (
      upsert_live_fixture-Timely dto now league_id season home_id away_id p h,
      (
        omega (arith, seen),
        omega (arith, sum),
        omega (
          arith,
          length-append r.states (
              state_of (upsert_live_fixture dto now league_id season home_id away_id p).0 dto ∷ []),
          states,
        ),
      ),
    )

poll_one-Kept :
    (dto : LiveFixtureDto) (now : ℕ) (x : LivePollResult × Polled) (n : ℕ)
    → Kept n x
    → Kept (suc n) (poll_one dto now x)
unfolding poll_one
poll_one-Kept dto now (r, p) n h =
    let (resolved, names) = resolve_live dto p.tables.names in
    poll_resolved-Kept dto now resolved (with_names names p) r n h

poll_all-Kept :
    (dtos : List LiveFixtureDto) (now : ℕ) (x : LivePollResult × Polled) (n m : ℕ)
    → n + length dtos ≡ m
    → Kept n x
    → Kept m (poll_all dtos now x)
unfolding poll_all
poll_all-Kept [] now x n m e h = let same : n ≡ m = omega (arith, e) in rw (← same) h
poll_all-Kept (dto ∷ dtos) now x n m e h =
    poll_all-Kept dtos now (poll_one dto now x) (suc n) m (omega (arith, e))
      (poll_one-Kept dto now x n h)

-- What a poll answers adds up; without quota there is no answer.
abbrev pub Answered : ℕ → ℕ → Result LivePollResult → Type 0
Answered requests_remaining fetched (ok r) = AddsUp fetched r
Answered requests_remaining fetched (err e) = (requests_remaining ≡ 0) × (e ≡ quota_exhausted)

-- Whatever a live provider delivers, and whichever of its names are unknown, a poll keeps the time
-- rule of the tables: it moves no kickoff, so each quote is still in time for its fixture, new rows
-- take unused identifiers and each reference points to a stored fixture. An answer has seen as many
-- records as were delivered, each either ingested with one state or counted as skipped, and only a
-- poll without quota is refused.
pub poll_live-Timely :
    (requests_remaining : ℕ) (fetched : List LiveFixtureDto) (now : ℕ) (p : Polled)
    → Timely p.tables
    → let (answer, p') = poll_live requests_remaining fetched now p in
      Timely p'.tables × Answered requests_remaining (length fetched) answer
unfolding poll_live
poll_live-Timely requests_remaining fetched now p h =
    let done =
      poll_all-Kept fetched now (no_result, p) 0 (length fetched) (omega arith)
        (h, (refl, refl, refl)) in
    if_cases
      (λ (x : Result LivePollResult × Polled).
        Timely x.1.tables × Answered requests_remaining (length fetched) x.0)
      (not (ltb 0 requests_remaining)) (λ spent. (h, (ground (arith, spent), refl))) (λ _. done)
