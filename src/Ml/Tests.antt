-- ===== src/Ml/Tests.antt =====
-- The walk over three fixtures, and a market with an in-play quote.
use betpulse.Prelude.{ℕ, ◌≡◌, Bool, count_if, refl, List, [], ◌∷◌, some, leb, select, false}
use betpulse.Ingest.Model.{Odds}
use betpulse.Ml.Chronology.{
  Timed, Batched, flatten, chronological, chronological_batches, chronological_batches-Batched,
}
use betpulse.Ml.OddsSelection.{quote_at, quote_at-select}

abbrev fixtures : List Timed
fixtures =
    record { id = 3; kickoff_at = 20 }
    ∷ record { id = 1; kickoff_at = 10 }
    ∷ record { id = 2; kickoff_at = 20 }
    ∷ []

-- The tie at 20 is broken by the identifier.
batches :
    chronological_batches fixtures
    ≡ (10, record { id = 1; kickoff_at = 10 } ∷ [])
      ∷ (20, record { id = 2; kickoff_at = 20 } ∷ record { id = 3; kickoff_at = 20 } ∷ [])
      ∷ []
unfolding chronological_batches chronological
batches = refl

chronological_batches-Batched_example :
    Batched 0 (chronological_batches fixtures)
    × ((p : Timed → Bool)
        → count_if p (flatten (chronological_batches fixtures)) ≡ count_if p fixtures)
chronological_batches-Batched_example = chronological_batches-Batched fixtures

abbrev quote : ℕ → ℕ → ℕ → Odds
quote outcome ts price = record {
  fixture_id = 1;
  bookmaker = 1;
  market = 1;
  outcome = outcome;
  ts = ts;
  price = price;
  is_closing = false;
}

-- The snapshot at 8 is not complete, the one at 12 is later.
abbrev rows : List Odds
rows =
    quote 3 12 1_500 ∷ quote 4 5 1_900 ∷ quote 3 5 2_000 ∷ quote 4 8 1_950 ∷ quote 4 12 2_400 ∷ []

chosen : quote_at rows 1 10 ≡ some ((4, 1_900) ∷ (3, 2_000) ∷ [])
unfolding quote_at
chosen = refl

quote_at-select_example : quote_at (select (λ row. leb row.ts 10) rows) 1 10 ≡ quote_at rows 1 10
quote_at-select_example = quote_at-select rows 1 10
