-- ===== src/Limits/Tests.antt =====
-- The theorems on limits at concrete inputs, on the server in memory.
use betpulse.Prelude.{
  ℕ, suc, ◌+◌, ◌*◌, ◌≤◌, ◌≡◌, refl, List, [], ◌∷◌, All, arith, not, ◌||◌, if◌then◌else◌,
}
use betpulse.Prelude.Int.{pos, leb_ℤ, ◌-ℤ◌, eqb_ℤ}
use betpulse.Redis.{amount, is_member}
use betpulse.Redis.Fake.{fake, empty_store}
use betpulse.Clock.{date_of}
use betpulse.Limits.{ok, limit_exceeded, unlimited, limit_key, seen_key, consume_match_view}
use betpulse.Limits.Views.{
  Visit, Ledger, IsCharged, visit_all, visit_all_budget, consume_match_view_outcome,
}
use betpulse.Limits.Pushes.{
  run_budget, push_day-run_budget, PushEvent, reserve, release, wait, releases, spent, push_day,
  push_day_budget,
}

abbrev noon : ℕ
noon = 20_000 * 86_400_000_000 + 43_200_000_000

-- Five requests for three cards, on a budget of two, over half a day.
abbrev visits : List Visit
visits =
    record { fixture = 7; wait = 0 }
    ∷ record { fixture = 8; wait = 600 }
    ∷ record { fixture = 7; wait = 9 }
    ∷ record { fixture = 9; wait = 40_000 }
    ∷ record { fixture = 8; wait = 11 }
    ∷ []

visit_all_budget_example :
    Ledger fake 1 2 (date_of noon) (visit_all fake empty_store 1 2 noon visits).1
    × All
        (λ f. IsCharged fake 1 (date_of noon) f (visit_all fake empty_store 1 2 noon visits).1)
        (visit_all fake empty_store 1 2 noon visits).0
unfolding fake empty_store
visit_all_budget_example =
    visit_all_budget fake empty_store 1 2 noon visits (omega arith) (tt, tt) (refl, omega arith, tt)

consume_match_view_outcome_example :
    let used = amount (fake.counter empty_store (limit_key 1 noon)) in
    let known = is_member 7 (fake.members empty_store (seen_key 1 noon)) in
    let (outcome, s') = consume_match_view fake empty_store 1 7 (pos 2) noon in
    outcome ≡ (
      if eqb_ℤ (pos 2) unlimited
      then ok unlimited
      else if known
      then ok (pos 2 -ℤ pos used)
      else if leb_ℤ (pos 2) (pos used)
      then limit_exceeded
      else ok (pos 2 -ℤ pos (suc used)))
    × amount (fake.counter s' (limit_key 1 noon))
      ≡ (if eqb_ℤ (pos 2) unlimited || known || leb_ℤ (pos 2) (pos used) then used else suc used)
    × is_member 7 (fake.members s' (seen_key 1 noon))
      ≡ (known || not (eqb_ℤ (pos 2) unlimited || leb_ℤ (pos 2) (pos used)))
consume_match_view_outcome_example = consume_match_view_outcome fake empty_store 1 7 (pos 2) noon

abbrev day_of_pushes : List PushEvent
day_of_pushes =
    reserve ∷ wait 600 ∷ reserve ∷ release ∷ wait 40_000 ∷ reserve ∷ wait 5 ∷ reserve ∷ []

push_day_budget_example :
    (spent fake 4 (date_of noon) (push_day fake empty_store 4 2 noon day_of_pushes).1 ≤ 2)
    × (spent fake 4 (date_of noon) empty_store
          + (push_day fake empty_store 4 2 noon day_of_pushes).0
        ≤ 2 + releases day_of_pushes)
unfolding fake empty_store
push_day_budget_example =
    push_day_budget fake empty_store 4 2 noon day_of_pushes tt (omega arith) (omega arith)

push_day-run_budget_example :
    let (granted, s') = push_day fake empty_store 4 2 noon day_of_pushes in
    (granted, spent fake 4 (date_of noon) s')
    ≡ run_budget 2 (spent fake 4 (date_of noon) empty_store) day_of_pushes
unfolding fake empty_store
push_day-run_budget_example =
    push_day-run_budget fake empty_store 4 2 noon day_of_pushes tt (omega arith)
