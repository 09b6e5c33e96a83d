-- ===== src/Promo/Codes.antt =====
-- The text of a code: `_normalize`, `hash_code` and `generate_code`. A text is its list of code
-- points; upper-casing and `isalnum` are those of ASCII.
use betpulse.Prelude.{
  ℕ, ◌-◌, ◌+◌, ◌%◌, Bool, ◌&&◌, ◌||◌, List, [], ◌∷◌, ◌++◌, leb, ltb, map, select, if◌then◌else◌,
}

unfoldable pub upper : ℕ → ℕ
upper ch = if leb b'a' ch && leb ch b'z' then ch - 32 else ch

unfoldable pub is_alnum : ℕ → Bool
is_alnum ch =
    (leb b'0' ch && leb ch b'9') || (leb b'A' ch && leb ch b'Z') || (leb b'a' ch && leb ch b'z')

unfoldable pub normalize : List ℕ → List ℕ
normalize code = select is_alnum (map upper code)

-- HMAC-SHA256 keyed by DATA_ENCRYPTION_KEY, of the encoded text.
unfoldable pub hash_code : (List ℕ → ℕ) → List ℕ → ℕ
unfolding normalize
hash_code hmac code = hmac (normalize code)

-- _ALPHABET[i]: "ABCDEFGHJKLMNPQRSTUVWXYZ23456789", without 0, O, 1 and I.
letter : ℕ → ℕ
letter i =
    if ltb i 8
    then b'A' + i
    else if ltb i 13
    then b'J' + (i - 8)
    else if ltb i 24
    then b'P' + (i - 13)
    else b'2' + (i - 24)

-- `secrets.choice(_ALPHABET)`, four times: the random numbers are taken modulo the alphabet's length.
group : (ℕ → ℕ) → ℕ → List ℕ
unfolding letter
group random start =
    letter (random start % 32)
    ∷ letter (random (start + 1) % 32)
    ∷ letter (random (start + 2) % 32)
    ∷ letter (random (start + 3) % 32)
    ∷ []

unfoldable pub generate_code : (ℕ → ℕ) → List ℕ
unfolding group
generate_code random = group random 0 ++ (b'-' ∷ (group random 4 ++ (b'-' ∷ group random 8)))
