-- ===== src/Limits/Views.antt =====
-- The budget of distinct matches per day.
use betpulse.Prelude.{
  ℕ, suc, ◌+◌, ◌*◌, ◌∙◌, ap, refl, sym, ◌≤◌, ◌≡◌, ◌≢◌, max, not, ◌||◌, Bool, true, false, Option,
  none, some, List, [], ◌∷◌, arith, contains, length, All, subst, Bool-cases, inl, inr,
  if◌then◌else◌,
}
use betpulse.Prelude.Int.{ℤ, pos, leb_ℤ, ◌-ℤ◌, eqb_ℤ}
use betpulse.Redis.{Redis, limits, limits_seen, Counter, Members, amount, is_member}
use betpulse.Clock.{second, date_of, seconds_until_utc_midnight}
use betpulse.Counters.Effect.Distinct.{
  view_reply, after_view, seen_after_view, incr_distinct-reply, incr_distinct-counter,
  incr_distinct-members,
}
use betpulse.Limits.Lasting.{
  Lasting, LastingSet, items_of, midnight_of, midnight-Outlives, same_date, aged-Lasting,
  aged_set-LastingSet, after_view-Lasting, seen_after_view-LastingSet,
}
use betpulse.Limits.{
  Outcome, ok, limit_exceeded, rate_limited, limit_key, seen_key, unlimited, consume_match_view,
}

abbrev pub IsNodup : List ℕ → Type 0
IsNodup [] = Unit
IsNodup (x ∷ xs) = (contains xs x ≡ false) × IsNodup xs

-- The counter counts the fixtures in the set, each fixture stands there once, and there are at most
-- `limit`.
abbrev pub IsLedger : ℕ → Option Counter → Option Members → Type 0
IsLedger limit o ms = (amount o ≡ length (items_of ms)) × (amount o ≤ limit) × IsNodup (items_of ms)

after_view-IsLedger :
    (m limit t : ℕ) (o : Option Counter) (ms : Option Members)
    → IsLedger limit o ms
    → IsLedger limit (after_view m (pos limit) t o ms) (seen_after_view m (pos limit) t o ms)
after_view-IsLedger m limit t none none h = ground arith
after_view-IsLedger m limit t (some c) none h = ground arith
after_view-IsLedger m limit t none (some ms) h = ground arith
after_view-IsLedger m limit t (some c) (some ms) h = ground arith

-- A fixture that is charged stays charged.
seen_after_view_mono :
    (m limit t f : ℕ) (o : Option Counter) (ms : Option Members)
    → contains (items_of ms) f ≡ true
    → contains (items_of (seen_after_view m (pos limit) t o ms)) f ≡ true
seen_after_view_mono m limit t f none none h = ground arith
seen_after_view_mono m limit t f (some c) none h = ground arith
seen_after_view_mono m limit t f none (some ms) h = ground arith
seen_after_view_mono m limit t f (some c) (some ms) h = ground arith

-- A view that is answered leaves its fixture in the set.
view_reply-seen :
    (m limit t : ℕ) (o : Option Counter) (ms : Option Members)
    → view_reply m (pos limit) o ms ≢ none
    → contains (items_of (seen_after_view m (pos limit) t o ms)) m ≡ true
view_reply-seen m limit t none none h = ground arith
view_reply-seen m limit t (some c) none h = ground arith
view_reply-seen m limit t none (some ms) h = ground arith
view_reply-seen m limit t (some c) (some ms) h = ground arith

-- One request for a match card: the fixture, and the seconds since the request before it.
pub record Visit : Type 0 where
  pub fixture : ℕ
  pub wait : ℕ

abbrev pub waited : List Visit → ℕ
waited [] = 0
waited (v ∷ vs) = v.wait + waited vs

abbrev pub is_ok : Outcome ℤ → Bool
is_ok (ok _) = true
is_ok limit_exceeded = false
is_ok (rate_limited _) = false

-- What a view leaves, under any limit.
after_view-outcome :
    (m : ℕ) (limit : ℤ) (t : ℕ) (o : Option Counter) (ms : Option Members)
    → amount (after_view m limit t o ms)
        ≡ (if is_member m ms || leb_ℤ limit (pos (amount o)) then amount o else suc (amount o))
      × is_member m (seen_after_view m limit t o ms)
        ≡ (is_member m ms || not (leb_ℤ limit (pos (amount o))))
after_view-outcome m limit t none none = ground arith
after_view-outcome m limit t (some c) none = ground arith
after_view-outcome m limit t none (some ms) = ground arith
after_view-outcome m limit t (some c) (some ms) = ground arith

module _ (r : Redis) where
  open r use {Store, counter, members}

  -- What is stored for an identity on a day.
  abbrev pub Ledger : ℕ → ℕ → ℕ → Store → Type 0
  Ledger identity limit date s =
      IsLedger limit (counter s (limits identity date)) (members s (limits_seen identity date))

  -- A view with a bounded budget keeps the ledger of that day.
  pub consume_match_view-Ledger :
      (s : Store) (identity fixture limit now : ℕ)
      → Ledger identity limit (date_of now) s
      → Ledger identity limit
          (date_of now)
          (consume_match_view r s identity fixture (pos limit) now).1
  unfolding consume_match_view
  consume_match_view-Ledger s identity fixture limit now h =
      let k = limit_key identity now in
      let seen = seen_key identity now in
      let t = seconds_until_utc_midnight now in
      rw
        (
          incr_distinct-counter r s k seen fixture (pos limit) t,
          incr_distinct-members r s k seen fixture (pos limit) t,
        )
        (after_view-IsLedger fixture limit (max 1 t) (counter s k) (members s seen) h)

  -- Which views are answered, and with what, under any limit: an unlimited one always, without a
  -- remainder; else a match charged before is free, and a new one is charged while the count is below
  -- the limit, and refused from there. Only a view that is charged raises the count, by one.
  pub consume_match_view_outcome :
      (s : Store) (identity fixture : ℕ) (limit : ℤ) (now : ℕ)
      → let used = amount (counter s (limit_key identity now)) in
        let known = is_member fixture (members s (seen_key identity now)) in
        let (outcome, s') = consume_match_view r s identity fixture limit now in
        outcome ≡ (
          if eqb_ℤ limit unlimited
          then ok unlimited
          else if known
          then ok (limit -ℤ pos used)
          else if leb_ℤ limit (pos used)
          then limit_exceeded
          else ok (limit -ℤ pos (suc used)))
        × amount (counter s' (limit_key identity now))
          ≡ (if eqb_ℤ limit unlimited || known || leb_ℤ limit (pos used) then used else suc used)
        × is_member fixture (members s' (seen_key identity now))
          ≡ (known || not (eqb_ℤ limit unlimited || leb_ℤ limit (pos used)))
  unfolding consume_match_view
  consume_match_view_outcome s identity fixture limit now =
      let k = limit_key identity now in
      let seen = seen_key identity now in
      let t = seconds_until_utc_midnight now in
      ground (
        arith,
        incr_distinct-reply r s k seen fixture limit t,
        incr_distinct-counter r s k seen fixture limit t,
        incr_distinct-members r s k seen fixture limit t,
        after_view-outcome fixture limit (max 1 t) (counter s k) (members s seen),
      )

  -- A fixture that the day has been charged for.
  abbrev pub IsCharged : ℕ → ℕ → ℕ → Store → Type 0
  IsCharged identity date f s = contains (items_of (members s (limits_seen identity date))) f ≡ true

  consume_match_view_mono :
      (s : Store) (identity fixture limit now f : ℕ)
      → IsCharged identity (date_of now) f s
      → IsCharged identity
          (date_of now)
          f
          (consume_match_view r s identity fixture (pos limit) now).1
  unfolding consume_match_view
  consume_match_view_mono s identity fixture limit now f h =
      let k = limit_key identity now in
      let seen = seen_key identity now in
      let t = seconds_until_utc_midnight now in
      rw (incr_distinct-members r s k seen fixture (pos limit) t)
        (seen_after_view_mono fixture limit (max 1 t) f (counter s k) (members s seen) h)

  consume_match_view-IsCharged :
      (s : Store) (identity fixture limit now : ℕ)
      → is_ok (consume_match_view r s identity fixture (pos limit) now).0 ≡ true
      → IsCharged identity
          (date_of now)
          fixture
          (consume_match_view r s identity fixture (pos limit) now).1
  unfolding consume_match_view
  consume_match_view-IsCharged s identity fixture limit now h =
      let k = limit_key identity now in
      let seen = seen_key identity now in
      let t = seconds_until_utc_midnight now in
      rw (incr_distinct-members r s k seen fixture (pos limit) t) (
        view_reply-seen fixture limit (max 1 t) (counter s k) (members s seen)
          (λ e. ground (arith, e, incr_distinct-reply r s k seen fixture (pos limit) t)))

  -- The day's keys, if they are there, will be there until the last second of the day.
  abbrev pub LastsToday : ℕ → ℕ → Store → Type 0
  LastsToday identity now s =
      Lasting (midnight_of (date_of now)) now (counter s (limits identity (date_of now)))
      × LastingSet (midnight_of (date_of now)) now (members s (limits_seen identity (date_of now)))

  consume_match_view-LastsToday :
      (s : Store) (identity fixture limit now : ℕ)
      → LastsToday identity now s
      → LastsToday identity now (consume_match_view r s identity fixture (pos limit) now).1
  unfolding consume_match_view
  consume_match_view-LastsToday s identity fixture limit now (count, set) =
      let k = limit_key identity now in
      let seen = seen_key identity now in
      let t = seconds_until_utc_midnight now in
      let midnight = midnight_of (date_of now) in
      (
        rw (incr_distinct-counter r s k seen fixture (pos limit) t) (
            after_view-Lasting midnight now (max 1 t) (midnight-Outlives now) fixture (pos limit)
              (counter s k) (members s seen) count),
        rw (incr_distinct-members r s k seen fixture (pos limit) t) (
            seen_after_view-LastingSet midnight now (max 1 t) (midnight-Outlives now) fixture
              (pos limit) (counter s k) (members s seen) set),
      )

  -- Seconds that pass within the day leave its ledger and its charges.
  pass-LastsToday :
      (s : Store) (identity limit now t : ℕ)
      → now + t * second + second ≤ midnight_of (date_of now)
      → LastsToday identity now s
      → (amount (counter (r.pass t s) (limits identity (date_of now)))
          ≡ amount (counter s (limits identity (date_of now))))
        × (items_of (members (r.pass t s) (limits_seen identity (date_of now)))
            ≡ items_of (members s (limits_seen identity (date_of now))))
        × LastsToday identity (now + t * second) (r.pass t s)
  pass-LastsToday s identity limit now t soon (count, set) =
      let k = limits identity (date_of now) in
      let seen = limits_seen identity (date_of now) in
      let midnight = midnight_of (date_of now) in
      let s' = r.pass t s in
      let (amounts, lasts) = aged-Lasting midnight now t (counter s k) soon count in
      let (items, lasts_set) = aged_set-LastingSet midnight now t (members s seen) soon set in
      (
        ap amount (r.counter-pass t s k) ∙ amounts,
        ap items_of (r.members-pass t s seen) ∙ items,
        subst
            (λ d.
              Lasting (midnight_of d) (now + t * second) (counter s' (limits identity d))
              × LastingSet (midnight_of d) (now + t * second) (members s' (limits_seen identity d)))
            (sym (same_date now t soon))
            (
              subst (Lasting midnight (now + t * second)) (sym (r.counter-pass t s k)) lasts,
              subst (LastingSet midnight (now + t * second)) (sym (r.members-pass t s seen))
                  lasts_set,
            ),
      )

  -- The visits of an identity, one after the other, while the clock and the keys' expiries run: the
  -- fixtures that were answered, and the store.
  pub visit_all : Store → ℕ → ℕ → ℕ → List Visit → List ℕ × Store
  visit_all s identity limit now [] = ([], s)
  visit_all s identity limit now (v ∷ vs) =
      let at = now + v.wait * second in
      let (outcome, s') =
        consume_match_view r (r.pass v.wait s) identity v.fixture (pos limit) at in
      let (served, s'') = visit_all s' identity limit at vs in
      (if is_ok outcome then v.fixture ∷ served else served, s'')

  -- A ledger and its charges, after the visits: those before, and the fixtures that were answered.
  abbrev pub IsAfter : ℕ → ℕ → ℕ → Store → List ℕ × Store → Type 0
  IsAfter identity limit date s (served, s') =
      Ledger identity limit date s'
      × ((f : ℕ) → IsCharged identity date f s → IsCharged identity date f s')
      × All (λ f. IsCharged identity date f s') served

  visit-IsAfter :
      (s : Store) (identity limit date fixture at : ℕ) (served : List ℕ) (s'' : Store)
      → date_of at ≡ date
      → let (outcome, s') = consume_match_view r s identity fixture (pos limit) at in
        IsAfter identity limit date s' (served, s'')
        → IsAfter identity limit date s (if is_ok outcome then fixture ∷ served else served, s'')
  visit-IsAfter s identity limit date fixture at served s'' e (ledger, keep, all) =
      let mono = λ (f : ℕ).
        subst
          (λ d.
            IsCharged identity d f s
            → IsCharged identity d f (consume_match_view r s identity fixture (pos limit) at).1)
          e (consume_match_view_mono s identity fixture limit at f) in
      let charged =
        subst
          (λ d.
            is_ok (consume_match_view r s identity fixture (pos limit) at).0 ≡ true
            → IsCharged identity d fixture
                (consume_match_view r s identity fixture (pos limit) at).1)
          e (consume_match_view-IsCharged s identity fixture limit at) in
      (
        ledger,
        λ f c. keep f (mono f c),
        elim (Bool-cases (is_ok (consume_match_view r s identity fixture (pos limit) at).0)) [
          | inl yes_ok ↦ rw yes_ok (keep fixture (charged yes_ok), all)
          | inr no_ok ↦ rw no_ok all
        ],
      )

  visit_all-IsAfter :
      (s : Store) (identity limit now date : ℕ) (vs : List Visit)
      → date_of now ≡ date
      → now + waited vs * second + second ≤ midnight_of (date_of now)
      → LastsToday identity now s
      → Ledger identity limit date s
      → IsAfter identity limit date s (visit_all s identity limit now vs)
  unfolding visit_all
  visit_all-IsAfter s identity limit now date [] e soon lasts h = (h, λ f c. c, tt)
  visit_all-IsAfter s identity limit now date (v ∷ vs) e soon lasts h =
      let early : now + v.wait * second + second ≤ midnight_of (date_of now) =
        omega (arith, soon) in
      let at = now + v.wait * second in
      let same = same_date now v.wait early in
      let (amounts, items, lasts') = pass-LastsToday s identity limit now v.wait early lasts in
      let before = r.pass v.wait s in
      let s' = (consume_match_view r before identity v.fixture (pos limit) at).1 in
      let amounts' =
        subst
          (λ d.
            amount (counter before (limits identity d)) ≡ amount (counter s (limits identity d)))
          e amounts in
      let items' =
        subst
          (λ d.
            items_of (members before (limits_seen identity d))
            ≡ items_of (members s (limits_seen identity d)))
          e items in
      let ledger : Ledger identity limit date before = (
        amounts' ∙ h.0 ∙ ap length (sym items'),
        subst (λ n. n ≤ limit) (sym amounts') h.1,
        subst IsNodup (sym items') h.2,
      ) in
      let kept =
        subst (λ d. Ledger identity limit d before → Ledger identity limit d s') (same ∙ e)
          (consume_match_view-Ledger before identity v.fixture limit at) ledger in
      let rest =
        visit_all-IsAfter s' identity limit at date vs (same ∙ e)
          (subst (λ d. at + waited vs * second + second ≤ midnight_of d) (sym same)
            (omega (arith, soon)))
          (consume_match_view-LastsToday before identity v.fixture limit at lasts') kept in
      let (served, s'') = visit_all s' identity limit at vs in
      let (done, keep, all) =
        visit-IsAfter before identity limit date v.fixture at served s'' (same ∙ e) rest in
      (done, λ f c. keep f (subst (λ xs. contains xs f ≡ true) (sym items') c), all)

  -- From a store whose ledger of the day is in order, and lasts for the day as far as it is there, as
  -- the empty one is: any visits of that day, with any seconds between them, up to its last second,
  -- leave at most `limit` different fixtures charged, the counter equal to their number, and among
  -- them every fixture that was answered.
  pub visit_all_budget :
      (s : Store) (identity limit now : ℕ) (vs : List Visit)
      → now + waited vs * second + second ≤ midnight_of (date_of now)
      → LastsToday identity now s
      → Ledger identity limit (date_of now) s
      → let (served, s') = visit_all s identity limit now vs in
        Ledger identity limit (date_of now) s'
        × All (λ f. IsCharged identity (date_of now) f s') served
  visit_all_budget s identity limit now vs soon lasts h =
      let (ledger, keep, all) =
        visit_all-IsAfter s identity limit now (date_of now) vs refl soon lasts h in
      (ledger, all)
