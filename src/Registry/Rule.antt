-- ===== src/Registry/Rule.antt =====
-- The champion rule of `apply_champion_selection`.
use betpulse.Prelude.{
  ℕ, ◌≡◌, ◌≢◌, ◌⊎◌, refl, Bool, true, false, Option, none, some, List, [], ◌∷◌, ◌&&◌, not, arith,
  ◌==◌, All, select, Option-cases, subst, sym, ap, Bool-cases, inl, inr, if◌then◌else◌,
}
use betpulse.Registry.Numbers.{Numbers}
use betpulse.Registry.Model.{Row, Metrics}
use betpulse.Registry.Selection.{
  lookup, Evaluation, beats, best_of, incumbent_of, winner_of, defend,
}

-- What the order of the finite floats has to satisfy: `==` is neither less nor greater, `<` is
-- asymmetric, and of two numbers apart every third is beyond the one or before the other.
pub record IsOrdered (n : Numbers) : Type 0 where
  pub eq_lem :
      (a b : n.F)
      → n.is_finite a ≡ true
      → n.is_finite b ≡ true
      → n.eq a b ≡ (not (n.lt a b) && not (n.lt b a))
  pub lt_asym : (a b : n.F) → n.lt a b ≡ true → n.lt b a ≡ false
  pub lt_cotrans :
      (a b c : n.F)
      → n.is_finite a ≡ true
      → n.is_finite b ≡ true
      → n.is_finite c ≡ true
      → n.lt a c ≡ true
      → (n.lt a b ≡ true) ⊎ (n.lt b c ≡ true)

module _ (n : Numbers) where
  -- Every property that all eligible methods have, the best and the incumbent have.
  pub best_of-All :
      (P : ℕ × Metrics n → Type 0) (e : ℕ × Metrics n) (es : Evaluation n)
      → P e
      → All P es
      → P (best_of n e es)
  unfolding best_of
  best_of-All P e [] h hs = h
  best_of-All P e (c ∷ cs) h hs = elim (Bool-cases (beats n c e)) [
    | inl better ↦ rw better (best_of-All P c cs hs.0 hs.1)
    | inr worse ↦ rw worse (best_of-All P e cs h hs.1)
  ]

  lookup-All :
      (P : ℕ × Metrics n → Type 0) (k : ℕ) (m : Metrics n) (es : Evaluation n)
      → lookup k es ≡ some m
      → All P es
      → P (k, m)
  lookup-All P k m [] e h = absurd (cc)
  lookup-All P k m ((j, a) ∷ es) e h = elim (Bool-cases (j == k)) [
    | inl here ↦ subst P (ground (arith, e, here)) h.0
    | inr there ↦ lookup-All P k m es (ground (arith, e, there)) h.1
  ]

  pub incumbent_of-All :
      (P : ℕ × Metrics n → Type 0) (champs : List (Row n)) (es : Evaluation n) (i : ℕ × Metrics n)
      → incumbent_of n champs es ≡ some i
      → All P es
      → P i
  unfolding incumbent_of
  incumbent_of-All P [] es i e h = absurd (cc)
  incumbent_of-All P (r ∷ champs) es i e h = elim (Option-cases (lookup r.method es)) [
    | inl missing ↦ incumbent_of-All P champs es i (ground (arith, e, missing)) h
    | inr (m, found) ↦ subst P (ground (arith, e, found)) (lookup-All P r.method m es found h)
  ]

  pub defend_cases :
      (margin : n.F) (i best : ℕ × Metrics n)
      → (defend n margin i best ≡ best)
        ⊎ ((defend n margin i best ≡ i) × (n.lt (n.sub i.1.brier best.1.brier) margin ≡ true))
  defend_cases margin i best = elim (Bool-cases (i.0 == best.0)) [
    | inl same ↦ inl (rw same refl)
    | inr other ↦ elim (Bool-cases (n.lt (n.sub i.1.brier best.1.brier) margin)) [
      | inl close ↦ inr (rw (other, close) refl, close)
      | inr clear ↦ inl (rw (other, clear) refl)
    ]
  ]

  -- The member is one of the list.
  abbrev pub Among : ℕ × Metrics n → Evaluation n → Type 0
  Among e [] = true ≡ false
  Among e (c ∷ cs) = (e ≡ c) ⊎ Among e cs

  Among-skip : (e c z : ℕ × Metrics n) (es : Evaluation n) → Among z (e ∷ es) → Among z (e ∷ c ∷ es)
  Among-skip e c z es (inl same) = inl same
  Among-skip e c z es (inr later) = inr (inr later)

  best_of-Among : (e : ℕ × Metrics n) (es : Evaluation n) → Among (best_of n e es) (e ∷ es)
  unfolding best_of
  best_of-Among e [] = inl refl
  best_of-Among e (c ∷ cs) = elim (Bool-cases (beats n c e)) [
    | inl better ↦
        let next : best_of n c cs ≡ best_of n e (c ∷ cs) =
          sym (ap (λ b. best_of n (if b then c else e) cs) better) in
        subst (λ z. Among z (e ∷ c ∷ cs)) next (inr (best_of-Among c cs))
    | inr worse ↦
        let next : best_of n e cs ≡ best_of n e (c ∷ cs) =
          sym (ap (λ b. best_of n (if b then c else e) cs) worse) in
        subst (λ z. Among z (e ∷ c ∷ cs)) next
          (Among-skip e c (best_of n e cs) cs (best_of-Among e cs))
  ]

  -- An incumbent of another name than the best, which beats it by less than the margin.
  abbrev pub is_defended : n.F → Option (ℕ × Metrics n) → ℕ × Metrics n → Bool
  is_defended margin none best = false
  is_defended margin (some i) best =
      not (i.0 == best.0) && n.lt (n.sub i.1.brier best.1.brier) margin

  winner_of-is_defended :
      (margin : n.F) (o : Option (ℕ × Metrics n)) (best : ℕ × Metrics n)
      → ((winner_of n margin o best ≡ best) × (is_defended margin o best ≡ false))
        ⊎ ((o ≡ some (winner_of n margin o best)) × (is_defended margin o best ≡ true))
  unfolding winner_of
  winner_of-is_defended margin none best = inl (refl, refl)
  winner_of-is_defended margin (some i) best = elim (Bool-cases (i.0 == best.0)) [
    | inl same ↦ inl (rw same (refl, refl))
    | inr other ↦ elim (Bool-cases (n.lt (n.sub i.1.brier best.1.brier) margin)) [
      | inl close ↦ inr (rw (other, close) (refl, refl))
      | inr clear ↦ inl (rw (other, clear) (refl, refl))
    ]
  ]

  abbrev IsFinite : ℕ × Metrics n → Type 0
  IsFinite (k, m) = (n.is_finite m.brier ≡ true) × (n.is_finite m.log_loss ≡ true)

  module _ (o : IsOrdered n) where
    beats_asym :
        (a b : ℕ × Metrics n) → IsFinite a → IsFinite b → beats n a b ≡ true → beats n b a ≡ false
    unfolding beats
    beats_asym (j, a) (k, b) (fa, ga) (fb, gb) h = ground (
      arith,
      o.eq_lem a.brier b.brier fa fb,
      o.eq_lem b.brier a.brier fb fa,
      o.eq_lem a.log_loss b.log_loss ga gb,
      o.eq_lem b.log_loss a.log_loss gb ga,
      o.lt_asym a.brier b.brier,
      o.lt_asym b.brier a.brier,
      o.lt_asym a.log_loss b.log_loss,
      o.lt_asym b.log_loss a.log_loss,
    )

    beats_cotrans :
        (a b c : ℕ × Metrics n)
        → IsFinite a
        → IsFinite b
        → IsFinite c
        → beats n a b ≡ false
        → beats n b c ≡ false
        → beats n a c ≡ false
    unfolding beats
    beats_cotrans (i, a) (j, b) (k, c) (fa, ga) (fb, gb) (fc, gc) h l = ground (
      arith,
      o.eq_lem a.brier b.brier fa fb,
      o.eq_lem b.brier c.brier fb fc,
      o.eq_lem a.brier c.brier fa fc,
      o.eq_lem a.log_loss b.log_loss ga gb,
      o.eq_lem b.log_loss c.log_loss gb gc,
      o.eq_lem a.log_loss c.log_loss ga gc,
      o.lt_cotrans a.brier b.brier c.brier fa fb fc,
      o.lt_cotrans c.brier b.brier a.brier fc fb fa,
      o.lt_cotrans b.brier a.brier c.brier fb fa fc,
      o.lt_cotrans b.brier c.brier a.brier fb fc fa,
      o.lt_cotrans a.brier c.brier b.brier fa fc fb,
      o.lt_cotrans c.brier a.brier b.brier fc fa fb,
      o.lt_cotrans a.log_loss b.log_loss c.log_loss ga gb gc,
      o.lt_cotrans c.log_loss b.log_loss a.log_loss gc gb ga,
      o.lt_cotrans b.log_loss a.log_loss c.log_loss gb ga gc,
      o.lt_cotrans b.log_loss c.log_loss a.log_loss gb gc ga,
      o.lt_cotrans a.log_loss c.log_loss b.log_loss ga gc gb,
      o.lt_cotrans c.log_loss a.log_loss b.log_loss gc ga gb,
    )

    -- No eligible method beats the best.
    pub best_of-least :
        (e : ℕ × Metrics n) (es : Evaluation n)
        → IsFinite e
        → All IsFinite es
        → All (λ c. beats n c (best_of n e es) ≡ false) (e ∷ es)
    unfolding best_of
    best_of-least e [] f fs = (irreflexive, tt)
      where
        irreflexive : beats n e e ≡ false
        irreflexive = elim (Bool-cases (beats n e e)) [ inl t ↦ beats_asym e e f f t | inr u ↦ u ]
    best_of-least e (c ∷ cs) f (fc, fs) = elim (Bool-cases (beats n c e)) [
      | inl better ↦
          let next : best_of n e (c ∷ cs) ≡ best_of n c cs =
            ap (λ b. best_of n (if b then c else e) cs) better in
          let rest = best_of-least c cs fc fs in
          subst (λ z. All (λ x. beats n x z ≡ false) (e ∷ c ∷ cs)) (sym next)
            (
              beats_cotrans e c (best_of n c cs) f fc (best_of-All IsFinite c cs fc fs)
                  (beats_asym c e fc f better) rest.0,
              rest,
            )
      | inr worse ↦
          let next : best_of n e (c ∷ cs) ≡ best_of n e cs =
            ap (λ b. best_of n (if b then c else e) cs) worse in
          let rest = best_of-least e cs f fs in
          subst (λ z. All (λ x. beats n x z ≡ false) (e ∷ c ∷ cs)) (sym next)
            (
              rest.0,
              (
                beats_cotrans c e (best_of n e cs) fc f (best_of-All IsFinite e cs f fs) worse
                    rest.0,
                rest.1,
              ),
            )
    ]

    -- The champion rule, over eligible methods with finite scores and in a proper order of the
    -- finite floats: the best is one of them, and beaten by none by (Brier, log loss, name); the
    -- winner is the incumbent when that is another method whose Brier score exceeds the best's by
    -- less than the margin, and the best in every other case.
    pub winner_rule :
        (margin : n.F) (champs : List (Row n)) (e : ℕ × Metrics n) (es : Evaluation n)
        → All IsFinite (e ∷ es)
        → let winner = winner_of n margin (incumbent_of n champs (e ∷ es)) (best_of n e es) in
          let defended = is_defended margin (incumbent_of n champs (e ∷ es)) (best_of n e es) in
          Among (best_of n e es) (e ∷ es)
          × All (λ c. beats n c (best_of n e es) ≡ false) (e ∷ es)
          × (((winner ≡ best_of n e es) × (defended ≡ false))
              ⊎ ((incumbent_of n champs (e ∷ es) ≡ some winner) × (defended ≡ true)))
    winner_rule margin champs e es (f, fs) = (
      best_of-Among e es,
      best_of-least e es f fs,
      winner_of-is_defended margin (incumbent_of n champs (e ∷ es)) (best_of n e es),
    )

  -- The title changes hands only for a clear improvement: if an eligible incumbent loses it, the
  -- winner's Brier score is lower by at least the margin.
  pub title_margin :
      (margin : n.F) (i best : ℕ × Metrics n)
      → (winner_of n margin (some i) best).0 ≢ i.0
      → let winner = winner_of n margin (some i) best in
        (winner ≡ best) × (n.lt (n.sub i.1.brier winner.1.brier) margin ≡ false)
  unfolding winner_of
  title_margin margin i best h = ground (arith, h)

  pub select-All :
      (p : ℕ × Metrics n → Bool) (es : Evaluation n) → All (λ e. p e ≡ true) (select p es)
  select-All p [] = tt
  select-All p (e ∷ es) = elim (Bool-cases (p e)) [
    | inl in_ ↦ rw in_ (in_, select-All p es)
    | inr out ↦ rw out (select-All p es)
  ]
