-- ===== src/Promo/Typing.antt =====
-- How a user may type a code: case and separators.
use betpulse.Prelude.{ℕ, ◌≡◌, refl, false, List, [], ◌∷◌, ◌++◌, map, arith}
use betpulse.Promo.Codes.{upper, is_alnum, normalize}

-- A separator, such as the dash, is no letter and no digit, as typed or in upper case.
abbrev pub IsSeparator : ℕ → Type 0
IsSeparator ch = is_alnum (upper ch) ≡ false

upper-upper : (ch : ℕ) → upper (upper ch) ≡ upper ch
unfolding upper
upper-upper ch = ground arith

-- A character that is no letter or digit may be left out of a typed code, or put in, anywhere.
pub normalize-separator :
    (ch : ℕ) (xs ys : List ℕ) → IsSeparator ch → normalize (xs ++ (ch ∷ ys)) ≡ normalize (xs ++ ys)
unfolding normalize
normalize-separator ch [] ys h = ground (arith, h)
normalize-separator ch (x ∷ xs) ys h = ground (arith, normalize-separator ch xs ys h)

-- What is stored for a code does not depend on the case in which it is typed.
pub normalize-upper : (xs : List ℕ) → normalize (map upper xs) ≡ normalize xs
unfolding normalize
normalize-upper [] = refl
normalize-upper (x ∷ xs) = ground (arith, upper-upper x, normalize-upper xs)

-- A normalised code is its own normal form.
pub normalize_idempotent : (xs : List ℕ) → normalize (normalize xs) ≡ normalize xs
unfolding normalize
normalize_idempotent [] = refl
normalize_idempotent (x ∷ xs) = ground (arith, upper-upper x, normalize_idempotent xs)
