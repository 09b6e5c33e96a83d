-- ===== src/Ingest/Triples.antt =====
-- What holds before and after an action, whichever way it ends.
use betpulse.Prelude.{Option, none, some, ◌≡◌, refl}
use betpulse.Ingest.Action.{
  Action, Result, ok, err, Error, pure, raise, gets, or_raise, modify, ◌>>=◌,
}

-- After an answer `Q` holds of it and the state, after an error `E` of the state.
abbrev pub After : {S A : Type 0} → (S → Type 0) → (A → S → Type 0) → Result A → S → Type 0
After E Q (ok a) s = Q a s
After E Q (err e) s = E s

-- From a state with `P`, the action ends as `After` says.
pub record Triple {S A : Type 0} (E P : S → Type 0) (m : Action S A) (Q : A → S → Type 0)
    : Type 0 where
  pub ends : (s : S) → P s → After E Q (m s).0 (m s).1

pub After-same : {S A : Type 0} (P : S → Type 0) (r : Result A) (s : S) → P s → After P (λ _. P) r s
After-same P (ok a) s h = h
After-same P (err e) s h = h

module _ {S A B : Type 0} {E : S → Type 0} where
  -- The rest of a `do` block, after the answer of its first action.
  After-bind :
      {Q : A → S → Type 0} {R : B → S → Type 0} {f : A → Action S B} (r : Result A) (s : S)
      → ((a : A) → Triple E (Q a) (f a) R)
      → After E Q r s
      → (let (b, s') = elim r as (λ _. Result B × S) [ ok a ↦ f a s | err e ↦ raise e s ] in
          After E R b s')
  After-bind (ok a) s next h = (next a).ends s h
  After-bind (err e) s next h = h

  pub bind :
      {P : S → Type 0} {Q : A → S → Type 0} {R : B → S → Type 0} {m : Action S A}
      {f : A → Action S B}
      → Triple E P m Q
      → ((a : A) → Triple E (Q a) (f a) R)
      → Triple E P (m >>= f) R
  bind {P} {Q} {R} {m} {f} first next = record {
    ends = λ s h. After-bind (m s).0 (m s).1 next (first.ends s h);
  }

module _ {S A : Type 0} {P : S → Type 0} where
  pub answer :
      {E : S → Type 0} {Q : A → S → Type 0} (a : A)
      → ((s : S) → P s → Q a s)
      → Triple E P (pure a) Q
  answer a f = record { ends = f }

  pub or_raise_gives :
      {E : S → Type 0} (o : Option A) (e : Error)
      → ((s : S) → P s → E s)
      → Triple E P (or_raise o e) (λ a s. P s × (o ≡ some a))
  or_raise_gives none e f = record { ends = f }
  or_raise_gives (some a) e f = record { ends = λ s h. (h, refl) }

  pub or_raise_keeps :
      {E : S → Type 0} (o : Option A) (e : Error)
      → ((s : S) → P s → E s)
      → Triple E P (or_raise o e) (λ _. P)
  or_raise_keeps none e f = record { ends = f }
  or_raise_keeps (some a) e f = record { ends = λ s h. h }

  pub gets_gives : {E : S → Type 0} (f : S → A) → Triple E P (gets f) (λ a s. P s × (f s ≡ a))
  gets_gives f = record { ends = λ s h. (h, refl) }

pub modify_keeps :
    {S : Type 0} {E P : S → Type 0} {Q : S → Type 0} (f : S → S)
    → ((s : S) → P s → Q (f s))
    → Triple E P (modify f) (λ _. Q)
modify_keeps f g = record { ends = g }

After-err :
    {S A : Type 0} {E F : S → Type 0} (Q : A → S → Type 0) (r : Result A) (s : S)
    → ((s : S) → E s → F s)
    → After E Q r s
    → After F Q r s
After-err Q (ok a) s f h = h
After-err Q (err e) s f h = f s h

pub weaken :
    {S A : Type 0} {E F P : S → Type 0} {Q : A → S → Type 0} {m : Action S A}
    → ((s : S) → E s → F s)
    → Triple E P m Q
    → Triple F P m Q
weaken {S} {A} {E} {F} {P} {Q} {m} f t = record {
  ends = λ s h. After-err Q (m s).0 (m s).1 f (t.ends s h);
}

After-both :
    {S A : Type 0} (E F : S → Type 0) (Q R : A → S → Type 0) (r : Result A) (s : S)
    → After E Q r s
    → After F R r s
    → After F (λ a s. Q a s × R a s) r s
After-both E F Q R (ok a) s h k = (h, k)
After-both E F Q R (err e) s h k = k

-- Two triples of one action; what the second says of an error is said of both.
pub both :
    {S A : Type 0} {E F P N : S → Type 0} {Q R : A → S → Type 0} {m : Action S A}
    → Triple E P m Q
    → Triple F N m R
    → Triple F (λ s. P s × N s) m (λ a s. Q a s × R a s)
both {S} {A} {E} {F} {P} {N} {Q} {R} {m} t u = record {
  ends = λ s h. After-both E F Q R (m s).0 (m s).1 (t.ends s h.0) (u.ends s h.1);
}

-- A triple from a state of which more is known.
pub given :
    {S A : Type 0} {E P N : S → Type 0} {Q : A → S → Type 0} {m : Action S A}
    → ((s : S) → N s → P s)
    → Triple E P m Q
    → Triple E N m Q
given f t = record { ends = λ s h. t.ends s (f s h) }

After-map :
    {S A : Type 0} (E : S → Type 0) (Q R : A → S → Type 0) (r : Result A) (s : S)
    → ((a : A) (s : S) → Q a s → R a s)
    → After E Q r s
    → After E R r s
After-map E Q R (ok a) s f h = f a s h
After-map E Q R (err e) s f h = h

-- A triple of which less is said afterwards.
pub so_that :
    {S A : Type 0} {E P : S → Type 0} {Q R : A → S → Type 0} {m : Action S A}
    → ((a : A) (s : S) → Q a s → R a s)
    → Triple E P m Q
    → Triple E P m R
so_that {S} {A} {E} {P} {Q} {R} {m} f t = record {
  ends = λ s h. After-map E Q R (m s).0 (m s).1 f (t.ends s h);
}
