-- ===== src/Backtest/Drawdown.antt =====
-- backend/app/services/backtester/engine.py: the drawdown of a curve.
use betpulse.Prelude.{ℕ, ◌+◌, ◌≡◌, refl, sym, subst, ◌∙◌, ap, List, [], ◌∷◌, ◌++◌, arith}
use betpulse.Prelude.Int.{ℤ, pos, ◌+ℤ◌, ◌-ℤ◌, ◌≤ℤ◌, pos_part, neg_part, sub_ℕ}
use betpulse.Backtest.Engine.{Curve, max_int, add_pnl, add_pnls, max_drawdown}

-- The sum of gains.
abbrev pub gain : List ℤ → ℤ
gain [] = pos 0
gain (x ∷ xs) = x +ℤ gain xs

sub_ℕ-part : (a b : ℕ) → pos_part (sub_ℕ a b) + b ≡ a + neg_part (sub_ℕ a b)
sub_ℕ-part a b = ground arith

add_part :
    (a b : ℤ)
    → pos_part (a +ℤ b) + (neg_part a + neg_part b) ≡ pos_part a + pos_part b + neg_part (a +ℤ b)
unfolding ◌+ℤ◌
add_part a b = sub_ℕ-part (pos_part a + pos_part b) (neg_part a + neg_part b)

sub_part :
    (a b : ℤ)
    → pos_part (a -ℤ b) + (neg_part a + pos_part b) ≡ pos_part a + neg_part b + neg_part (a -ℤ b)
unfolding ◌-ℤ◌
sub_part a b = sub_ℕ-part (pos_part a + neg_part b) (neg_part a + pos_part b)

max_left : (a b : ℤ) → a ≤ℤ max_int a b
max_left a b = ground arith

max_right : (a b : ℤ) → b ≤ℤ max_int a b
max_right a b = ground arith

-- The peak is not below the curve, and the drawdown covers the way down from it.
pub record IsCovered (c : Curve) : Type 0 where
  pub below : c.running ≤ℤ c.peak
  pub covers : c.peak -ℤ c.running ≤ℤ c.max_dd

add_pnl-IsCovered : (x : ℤ) (c : Curve) → IsCovered (add_pnl x c)
add_pnl-IsCovered x c =
    let running = c.running +ℤ x in
    let peak = max_int c.peak running in
    record { below = max_right c.peak running; covers = max_right c.max_dd (peak -ℤ running) }

add_pnls-IsCovered : (xs : List ℤ) (c : Curve) → IsCovered c → IsCovered (add_pnls xs c)
unfolding add_pnls
add_pnls-IsCovered [] c h = h
add_pnls-IsCovered (x ∷ xs) c h = add_pnls-IsCovered xs (add_pnl x c) (add_pnl-IsCovered x c)

trans_≤ℤ : (a b c : ℤ) → a ≤ℤ b → b ≤ℤ c → a ≤ℤ c
trans_≤ℤ a b c h k = omega (arith, h, k)

-- The peak and the drawdown never fall.
add_pnls-peak : (xs : List ℤ) (c : Curve) → c.peak ≤ℤ (add_pnls xs c).peak
unfolding add_pnls
add_pnls-peak [] c = omega arith
add_pnls-peak (x ∷ xs) c =
    trans_≤ℤ c.peak (add_pnl x c).peak (add_pnls xs (add_pnl x c)).peak
      (max_left c.peak (c.running +ℤ x)) (add_pnls-peak xs (add_pnl x c))

add_pnls-max_dd : (xs : List ℤ) (c : Curve) → c.max_dd ≤ℤ (add_pnls xs c).max_dd
unfolding add_pnls
add_pnls-max_dd [] c = omega arith
add_pnls-max_dd (x ∷ xs) c =
    trans_≤ℤ c.max_dd (add_pnl x c).max_dd (add_pnls xs (add_pnl x c)).max_dd
      (max_left c.max_dd (max_int c.peak (c.running +ℤ x) -ℤ (c.running +ℤ x)))
      (add_pnls-max_dd xs (add_pnl x c))

-- The curve ends at the sum of the gains from where it began.
add_pnls-running :
    (xs : List ℤ) (c : Curve)
    → let c' = add_pnls xs c in
      pos_part c'.running + neg_part c.running + neg_part (gain xs)
      ≡ pos_part c.running + pos_part (gain xs) + neg_part c'.running
unfolding add_pnls
add_pnls-running [] c = omega arith
add_pnls-running (x ∷ xs) c =
    omega (arith, add_pnls-running xs (add_pnl x c), add_part c.running x, add_part x (gain xs))

add_pnls-append : (xs ys : List ℤ) (c : Curve) → add_pnls (xs ++ ys) c ≡ add_pnls ys (add_pnls xs c)
unfolding add_pnls
add_pnls-append [] ys c = refl
add_pnls-append (x ∷ xs) ys c = add_pnls-append xs ys (add_pnl x c)

-- A run of bets from a covered curve loses no more than the drawdown.
add_pnls-loss : (ys : List ℤ) (c : Curve) → IsCovered c → pos 0 -ℤ gain ys ≤ℤ (add_pnls ys c).max_dd
add_pnls-loss ys c h =
    let c' = add_pnls ys c in
    let after = add_pnls-IsCovered ys c h in
    omega (
      arith,
      h.below,
      after.covers,
      add_pnls-peak ys c,
      add_pnls-running ys c,
      sub_part (pos 0) (gain ys),
      sub_part c'.peak c'.running,
    )

-- No run of consecutive bets loses more than the maximum drawdown of the curve, wherever it begins
-- and ends, and the drawdown is not negative.
pub max_drawdown-loss :
    (xs ys zs : List ℤ)
    → (pos 0 -ℤ gain ys ≤ℤ (max_drawdown (xs ++ ys ++ zs)).max_dd)
      × (pos 0 ≤ℤ (max_drawdown (xs ++ ys ++ zs)).max_dd)
unfolding max_drawdown
max_drawdown-loss xs ys zs =
    let start : Curve = record { equity = []; running = pos 0; peak = pos 0; max_dd = pos 0 } in
    let whole =
      add_pnls-append (xs ++ ys) zs start ∙ ap (add_pnls zs) (add_pnls-append xs ys start) in
    let before = add_pnls xs start in
    let at = add_pnls ys before in
    (
      subst (λ (c : Curve). pos 0 -ℤ gain ys ≤ℤ c.max_dd) (sym whole)
          (trans_≤ℤ (pos 0 -ℤ gain ys) at.max_dd (add_pnls zs at).max_dd
            (add_pnls-loss ys before (
              add_pnls-IsCovered xs start
                (record { below = omega arith; covers = omega (arith, sub_part (pos 0) (pos 0)) })))
            (add_pnls-max_dd zs at)),
      add_pnls-max_dd (xs ++ ys ++ zs) start,
    )
