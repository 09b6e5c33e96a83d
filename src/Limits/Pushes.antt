-- ===== src/Limits/Pushes.antt =====
-- The daily push budget: reservations before a delivery, and the releases after one that failed.
use betpulse.Prelude.{
  ℕ, suc, ◌+◌, ◌-◌, ◌*◌, ◌≤◌, sym, subst, ◌≡◌, ◌≢◌, ◌∙◌, ap, refl, max, Bool, true, Option, none,
  some, List, [], ◌∷◌, arith, ltb, leb, if◌then◌else◌,
}
use betpulse.Prelude.Int.{pos}
use betpulse.Redis.{Redis, Counter, CounterKey, amount, limits_push}
use betpulse.Clock.{second, date_of, seconds_until_utc_midnight}
use betpulse.Counters.Effect.{
  after_take, incr_within_limit-reply, incr_within_limit_self, decr_floor_zero-amount,
  incr_within_limit-ne, decr_floor_zero-ne, decr_floor_zero_self,
}
use betpulse.Limits.Lasting.{
  Lasting, midnight_of, midnight-Outlives, same_date, aged-Lasting, after_take-Lasting,
  lowered-Lasting,
}
use betpulse.Limits.{push_key, reserve_push, release_push}

pub after_take-amount :
    (limit t : ℕ) (o : Option Counter)
    → amount (after_take (pos limit) t o)
      ≡ (if leb limit (amount o) then amount o else suc (amount o))
after_take-amount limit t none = ground arith
after_take-amount limit t (some c) = ground arith

module _ (r : Redis) where
  open r use {Store, counter}

  -- What a user has taken of a day's pushes.
  abbrev pub spent : ℕ → ℕ → Store → ℕ
  spent user_id date s = amount (counter s (limits_push user_id date))

  -- A reservation succeeds exactly while the budget has room, and then takes one.
  pub reserve_push_outcome :
      (s : Store) (user_id limit now : ℕ)
      → let used = spent user_id (date_of now) s in
        let (reserved, s') = reserve_push r s user_id (pos limit) now in
        (reserved ≡ ltb used limit)
        × (spent user_id (date_of now) s' ≡ (if ltb used limit then suc used else used))
  unfolding reserve_push
  reserve_push_outcome s user_id limit now =
      let k = push_key user_id now in
      let t = seconds_until_utc_midnight now in
      (
        ground (arith, incr_within_limit-reply r s k (pos limit) t),
        ground (
          arith,
          incr_within_limit_self r s k (pos limit) t,
          after_take-amount limit (max 1 t) (counter s k),
        ),
      )

  pub release_push-spent :
      (s : Store) (user_id now : ℕ)
      → spent user_id (date_of now) (release_push r s user_id now)
        ≡ spent user_id (date_of now) s - 1
  unfolding release_push
  release_push-spent s user_id now = decr_floor_zero-amount r s (push_key user_id now)

  -- A reservation that was granted and is given back leaves the budget as it was.
  pub release_push-reserve_push :
      (s : Store) (user_id limit now : ℕ)
      → (reserve_push r s user_id (pos limit) now).0 ≡ true
      → spent user_id
          (date_of now)
          (release_push r (reserve_push r s user_id (pos limit) now).1 user_id now)
        ≡ spent user_id (date_of now) s
  release_push-reserve_push s user_id limit now h = ground (
    arith,
    reserve_push_outcome s user_id limit now,
    release_push-spent (reserve_push r s user_id (pos limit) now).1 user_id now,
  )

-- What the dispatchers of one user do on one day, in the order in which the server runs it, and the
-- seconds that pass in between.
pub data PushEvent : Type 0 where
  reserve : PushEvent
  release : PushEvent
  wait : ℕ → PushEvent

abbrev pub releases : List PushEvent → ℕ
releases [] = 0
releases (reserve ∷ es) = releases es
releases (release ∷ es) = suc (releases es)
releases (wait t ∷ es) = releases es

abbrev pub waited : List PushEvent → ℕ
waited [] = 0
waited (reserve ∷ es) = waited es
waited (release ∷ es) = waited es
waited (wait t ∷ es) = t + waited es

-- The contract of a day's budget: the number taken, from which a reservation takes one where there is
-- room, and to which a release gives one back. Time changes nothing.
unfoldable pub run_budget : ℕ → ℕ → List PushEvent → ℕ × ℕ
run_budget limit used [] = (0, used)
run_budget limit used (reserve ∷ es) =
    let (granted, left) = run_budget limit (if ltb used limit then suc used else used) es in
    (if ltb used limit then suc granted else granted, left)
run_budget limit used (release ∷ es) = run_budget limit (used - 1) es
run_budget limit used (wait t ∷ es) = run_budget limit used es

run_budget-bounds :
    (limit used : ℕ) (es : List PushEvent)
    → used ≤ limit
    → ((run_budget limit used es).1 ≤ limit)
      × (used + (run_budget limit used es).0 ≤ limit + releases es)
unfolding run_budget
run_budget-bounds limit used [] h = omega arith
run_budget-bounds limit used (reserve ∷ es) h =
    ground (arith, run_budget-bounds limit (if ltb used limit then suc used else used) es)
run_budget-bounds limit used (release ∷ es) h =
    ground (arith, run_budget-bounds limit (used - 1) es)
run_budget-bounds limit used (wait t ∷ es) h = run_budget-bounds limit used es h

abbrev grant_if : Bool → ℕ × ℕ → ℕ × ℕ
grant_if reserved (granted, left) = (if reserved then suc granted else granted, left)

module _ (r : Redis) where
  open r use {Store, counter}

  -- The reservations granted, and the store, while the clock and the keys' expiries run.
  pub push_day : Store → ℕ → ℕ → ℕ → List PushEvent → ℕ × Store
  push_day s user_id limit now [] = (0, s)
  push_day s user_id limit now (reserve ∷ es) =
      let (reserved, s') = reserve_push r s user_id (pos limit) now in
      let (granted, s'') = push_day s' user_id limit now es in
      (if reserved then suc granted else granted, s'')
  push_day s user_id limit now (release ∷ es) =
      push_day (release_push r s user_id now) user_id limit now es
  push_day s user_id limit now (wait t ∷ es) =
      push_day (r.pass t s) user_id limit (now + t * second) es

  -- The day's count, if it is there, will be there until the last second of the day.
  abbrev pub LastsToday : ℕ → ℕ → Store → Type 0
  LastsToday user_id now s =
      Lasting (midnight_of (date_of now)) now (counter s (limits_push user_id (date_of now)))

  reserve_push-LastsToday :
      (s : Store) (user_id limit now : ℕ)
      → LastsToday user_id now s
      → LastsToday user_id now (reserve_push r s user_id (pos limit) now).1
  unfolding reserve_push
  reserve_push-LastsToday s user_id limit now h =
      let k = push_key user_id now in
      let t = seconds_until_utc_midnight now in
      rw (incr_within_limit_self r s k (pos limit) t) (
        after_take-Lasting (midnight_of (date_of now)) now (max 1 t) (midnight-Outlives now)
          (pos limit) (counter s k) h)

  release_push-LastsToday :
      (s : Store) (user_id now : ℕ)
      → LastsToday user_id now s
      → LastsToday user_id now (release_push r s user_id now)
  unfolding release_push
  release_push-LastsToday s user_id now h =
      let k = push_key user_id now in
      rw (decr_floor_zero_self r s k)
        (lowered-Lasting (midnight_of (date_of now)) now (counter s k) h)

  pass-LastsToday :
      (s : Store) (user_id now t : ℕ)
      → now + t * second + second ≤ midnight_of (date_of now)
      → LastsToday user_id now s
      → (spent r user_id (date_of now) (r.pass t s) ≡ spent r user_id (date_of now) s)
        × LastsToday user_id (now + t * second) (r.pass t s)
  pass-LastsToday s user_id now t soon h =
      let k = limits_push user_id (date_of now) in
      let midnight = midnight_of (date_of now) in
      let (same, lasts) = aged-Lasting midnight now t (counter s k) soon h in
      (
        ap amount (r.counter-pass t s k) ∙ same,
        subst
            (λ d.
              Lasting (midnight_of d) (now + t * second)
                (counter (r.pass t s) (limits_push user_id d)))
            (sym (same_date now t soon))
            (subst (Lasting midnight (now + t * second)) (sym (r.counter-pass t s k)) lasts),
      )

  -- Over any sequence of reservations and releases of a day, with any seconds between them, from the
  -- first to the last second of the day exclusive, and from a count that lasts for the day if it is
  -- there: the scripts on the server grant as many as the contract does from the same count, and leave
  -- the count that it leaves.
  pub push_day-run_budget :
      (s : Store) (user_id limit now : ℕ) (es : List PushEvent)
      → LastsToday user_id now s
      → now + waited es * second + second ≤ midnight_of (date_of now)
      → let (granted, s') = push_day s user_id limit now es in
        (granted, spent r user_id (date_of now) s')
        ≡ run_budget limit (spent r user_id (date_of now) s) es
  unfolding push_day run_budget
  push_day-run_budget s user_id limit now [] lasts soon = refl
  push_day-run_budget s user_id limit now (reserve ∷ es) lasts soon =
      let outcome = reserve_push_outcome r s user_id limit now in
      let rest =
        push_day-run_budget (reserve_push r s user_id (pos limit) now).1 user_id limit now es
          (reserve_push-LastsToday s user_id limit now lasts) soon in
      let used = spent r user_id (date_of now) s in
      let after = rest ∙ ap (λ n. run_budget limit n es) outcome.1 in
      ap (grant_if (reserve_push r s user_id (pos limit) now).0) after
      ∙ ap (λ b. grant_if b (run_budget limit (if ltb used limit then suc used else used) es))
          outcome.0
  push_day-run_budget s user_id limit now (release ∷ es) lasts soon =
      push_day-run_budget (release_push r s user_id now) user_id limit now es
        (release_push-LastsToday s user_id now lasts) soon
      ∙ ap (λ used. run_budget limit used es) (release_push-spent r s user_id now)
  push_day-run_budget s user_id limit now (wait t ∷ es) lasts soon =
      let early : now + t * second + second ≤ midnight_of (date_of now) = omega (arith, soon) in
      let (same, lasts') = pass-LastsToday s user_id now t early lasts in
      let date = same_date now t early in
      let s' = r.pass t s in
      let rest = push_day-run_budget s' user_id limit (now + t * second) es lasts' (
        subst (λ d. now + t * second + waited es * second + second ≤ midnight_of d) (sym date)
          (omega (arith, soon))) in
      let (granted, s'') = push_day s' user_id limit (now + t * second) es in
      subst (λ d. (granted, spent r user_id d s'') ≡ run_budget limit (spent r user_id d s') es)
        date rest
      ∙ ap (λ used. run_budget limit used es) same

  -- From a count within the budget that lasts for the day if it is there, however reservations and
  -- releases of one day interleave, with any seconds between them, up to its last second, the budget
  -- is never exceeded, and the grants are at most what was left and one more for each release.
  pub push_day_budget :
      (s : Store) (user_id limit now : ℕ) (es : List PushEvent)
      → LastsToday user_id now s
      → now + waited es * second + second ≤ midnight_of (date_of now)
      → spent r user_id (date_of now) s ≤ limit
      → let (granted, s') = push_day s user_id limit now es in
        (spent r user_id (date_of now) s' ≤ limit)
        × (spent r user_id (date_of now) s + granted ≤ limit + releases es)
  push_day_budget s user_id limit now es lasts soon within =
      let used = spent r user_id (date_of now) s in
      let exact = push_day-run_budget s user_id limit now es lasts soon in
      subst (λ p. (p.1 ≤ limit) × (used + p.0 ≤ limit + releases es)) (sym exact)
        (run_budget-bounds limit used es within)

-- The user that a push key is of.
user_of : CounterKey → ℕ
user_of (limits_push user_id date) = user_id
user_of _ = 0

push_key_ne : (user other now : ℕ) → other ≢ user → push_key other now ≢ push_key user now
unfolding user_of
push_key_ne user other now ne same = ne (ap user_of same)

module _ (r : Redis) where
  open r use {Store}

  -- The budgets of other users stay as they are.
  pub reserve_push-spent_ne :
      (s : Store) (user other limit now : ℕ)
      → other ≢ user
      → spent r other (date_of now) (reserve_push r s user (pos limit) now).1
        ≡ spent r other (date_of now) s
  unfolding reserve_push
  reserve_push-spent_ne s user other limit now ne = ap amount (
      incr_within_limit-ne r s (push_key other now) (push_key user now) (pos limit)
        (seconds_until_utc_midnight now) (push_key_ne user other now ne))

  pub release_push-spent_ne :
      (s : Store) (user other now : ℕ)
      → other ≢ user
      → spent r other (date_of now) (release_push r s user now) ≡ spent r other (date_of now) s
  unfolding release_push
  release_push-spent_ne s user other now ne = ap amount (
      decr_floor_zero-ne r s (push_key other now) (push_key user now)
        (push_key_ne user other now ne))
