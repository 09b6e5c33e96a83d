-- ===== src/Push/Budget.antt =====
-- The budget and the window over the turns of a dispatch.
use betpulse.Prelude.{
  if_cases, ℕ, suc, ◌+◌, ◌≤◌, ◌≡◌, ◌∙◌, refl, ap, Bool, true, false, List, [], ◌∷◌, ◌==◌, ◌&&◌,
  ◌||◌, not, arith, ltb, select, Bool-cases, inl, inr,
}
use betpulse.Prelude.Int.{pos}
use betpulse.Redis.{Redis}
use betpulse.Clock.{date_of}
use betpulse.Limits.{reserve_push}
use betpulse.Limits.Pushes.{spent, reserve_push_outcome, release_push-spent}
use betpulse.Push.{
  PushSubscription, Board, Answer, sent, gone, refused, blew_up, Delivery, done, not_done, raised,
  Channel, deliver_with_retry, deliver_any, after_first, holds, take_window, settle_push,
  push_to_user,
}

-- What a delivery leaves alone.
abbrev Same : Board → Board → Type 0
Same b b' = (b'.result.delivered ≡ b.result.delivered) × (b'.windows ≡ b.windows)

after_first-Same :
    (sub : PushSubscription) (first again : Answer) (b : Board)
    → Same b (after_first sub first again b).1
after_first-Same sub sent again b = (refl, refl)
after_first-Same sub gone again b = (refl, refl)
after_first-Same sub refused sent b = (refl, refl)
after_first-Same sub refused gone b = (refl, refl)
after_first-Same sub refused refused b = (refl, refl)
after_first-Same sub refused blew_up b = (refl, refl)
after_first-Same sub blew_up again b = (refl, refl)

next-Same :
    (b b' : Board) (d : Delivery) (rest : Delivery × Board)
    → Same b b'
    → Same b' rest.1
    → Same b
        (elim d as (λ _. Delivery × Board) [
          | done ↦ (done, b')
          | raised ↦ (raised, b')
          | not_done ↦ rest
        ]).1
next-Same b b' done rest h k = h
next-Same b b' raised rest h k = h
next-Same b b' not_done rest h k = (k.0 ∙ h.0, k.1 ∙ h.1)

deliver_any-Same :
    (channel : Channel) (subs : List PushSubscription) (b : Board)
    → Same b (deliver_any channel subs b).1
unfolding deliver_any deliver_with_retry
deliver_any-Same channel [] b = (refl, refl)
deliver_any-Same channel (sub ∷ subs) b =
    let (d, b') = deliver_with_retry channel sub b in
    next-Same b b' d (deliver_any channel subs b')
      (after_first-Same sub (channel sub).0 (channel sub).1 b) (deliver_any-Same channel subs b')

holds-free :
    (u f : ℕ) (ws : List (ℕ × ℕ))
    → holds u f (select (λ w. not ((w.0 == u) && (w.1 == f))) ws) ≡ false
holds-free u f [] = refl
holds-free u f (w ∷ ws) = elim (Bool-cases ((w.0 == u) && (w.1 == f))) [
  | inl hit ↦ ground (arith, hit, holds-free u f ws)
  | inr miss ↦ ground (arith, miss, holds-free u f ws)
]

module _ (r : Redis) where
  open r use {Store}

  -- A turn that took one from the budget and holds the window.
  settle_push_accounts :
      (u f now : ℕ) (d : Delivery) (b b' : Board) (s : Store) (used : ℕ)
      → b'.result.delivered ≡ b.result.delivered
      → b'.windows ≡ (u, f) ∷ b.windows
      → spent r u (date_of now) s ≡ suc used
      → (let (stop, c, s') = settle_push r u f now (d, b') s in
          (spent r u (date_of now) s' + b.result.delivered ≡ used + c.result.delivered)
          × (c.result.delivered ≤ suc b.result.delivered)
          × (holds u f c.windows ≡ ltb b.result.delivered c.result.delivered))
  unfolding settle_push
  settle_push_accounts u f now done b b' s used same window h =
      let held : holds u f b'.windows ≡ true = ap (holds u f) window ∙ ground arith in
      (ground (arith, same, h), ground (arith, same), ground (arith, same, held))
  settle_push_accounts u f now not_done b b' s used same window h =
      let freed = holds-free u f b'.windows in
      (
        ground (arith, same, h, release_push-spent r s u now),
        ground (arith, same),
        ground (arith, same, freed),
      )
  settle_push_accounts u f now raised b b' s used same window h =
      let freed = holds-free u f b'.windows in
      (
        ground (arith, same, h, release_push-spent r s u now),
        ground (arith, same),
        ground (arith, same, freed),
      )

  -- What a turn's end says of the budget, the count of deliveries and the window.
  abbrev pub Accounted : ℕ → ℕ → ℕ → Board → Store → Bool × Board × Store → Type 0
  Accounted u f now b s end =
      (spent r u (date_of now) end.2 + b.result.delivered
        ≡ spent r u (date_of now) s + end.1.result.delivered)
      × (end.1.result.delivered ≤ suc b.result.delivered)
      × (holds u f end.1.windows
          ≡ (holds u f b.windows || ltb b.result.delivered end.1.result.delivered))

  -- In the turn of a user whose tier has a limit, the count of the day rises by exactly the pushes that
  -- the result counts as delivered, at most one, and afterwards the window of the user and the fixture
  -- is held exactly if it was before or the push was delivered; whatever the channels answer, other
  -- exceptions included.
  pub push_to_user-Accounted :
      (channel : Channel) (limit f now : ℕ) (subs : List PushSubscription) (u : ℕ) (b : Board)
      (s : Store)
      → Accounted u f now b s (push_to_user r channel (pos limit) f now subs u b s)
  unfolding push_to_user
  push_to_user-Accounted channel limit f now subs u b s =
      let (reserved, s') = reserve_push r s u (pos limit) now in
      let taken = take_window u f b in
      let (d, b') = deliver_any channel subs taken in
      let same = deliver_any-Same channel subs taken in
      let outcome = reserve_push_outcome r s u limit now in
      if_cases (Accounted u f now b s) (holds u f b.windows)
        (λ held. (ground arith, ground arith, ground (arith, held)))
        (λ fresh.
          if_cases (Accounted u f now b s) reserved
            (λ granted.
              let room : spent r u (date_of now) s' ≡ suc (spent r u (date_of now) s) =
                ground (arith, granted, outcome) in
              let end =
                settle_push_accounts u f now d b b' s' (spent r u (date_of now) s) same.0 same.1
                  room in
              (end.0, end.1, ground (arith, fresh, end.2)))
            (λ exhausted. (
              ground (arith, exhausted, outcome),
              ground arith,
              ground (arith, fresh, holds-free u f ((u, f) ∷ b.windows)),
            )))
