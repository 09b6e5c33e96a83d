-- ===== src/Promo/BatchTests.antt =====
-- The theorems on new batches at a concrete input: the smallest batch, 500 codes, drawn from 500
-- texts of different lengths, where the hash of a text is its length.
use betpulse.Prelude.{
  ℕ, zero, suc, ◌≤◌, ◌<◌, ◌≡◌, refl, true, false, some, none, List, [], ◌∷◌, ◌++◌, ◌==◌, arith,
  find, is_some, contains, length, All,
}
use betpulse.Promo.Model.{Batch, Db, BatchStatus, ok, upgrade}
use betpulse.Promo.Codes.{normalize, upper, is_alnum, hash_code}
use betpulse.Promo.Batch.{generate_batch, draw_codes, code_rows, any_known, Fresh, is_valid_size}
use betpulse.Promo.Redeem.{redeem_code}
use betpulse.Promo.Outcome.{is_ok}
use betpulse.Promo.Generate.{new_hashes, AreFresh, draw_codes-enough, generate-redeem}

text : ℕ → List ℕ
text zero = []
text (suc k) = b'A' ∷ text k

texts : ℕ → List (List ℕ)
texts zero = []
texts (suc k) = text k ∷ texts k

text-normal : (k : ℕ) → hash_code length (text k) ≡ k
unfolding text hash_code normalize upper is_alnum
text-normal zero = refl
text-normal (suc k) = ground (arith, text-normal k)

larger_fresh : (k : ℕ) (seen : List ℕ) → All (λ x. k < x) seen → contains seen k ≡ false
larger_fresh k [] h = refl
larger_fresh k (x ∷ seen) h = ground (arith, h, larger_fresh k seen)

larger_down : (k : ℕ) (seen : List ℕ) → All (λ x. suc k ≤ x) seen → All (λ x. k ≤ x) seen
larger_down k [] h = tt
larger_down k (x ∷ seen) h = (omega (arith, h.0), larger_down k seen h.1)

texts-new : (n : ℕ) (seen : List ℕ) → All (λ x. n ≤ x) seen → new_hashes length seen (texts n) ≡ n
unfolding texts
texts-new zero seen h = refl
texts-new (suc k) seen h = ground (
  arith,
  text-normal k,
  larger_fresh k seen h,
  texts-new k (k ∷ seen) (omega arith, larger_down k seen h),
)

abbrev upgrades : Batch
upgrades = record {
  id = 3;
  name = 0;
  code_type = upgrade;
  value = none;
  tier_id = some 2;
  bound_user_id = none;
  max_activations = 1;
  size = 500;
  stackable = false;
  expires_at = some 900;
  status = BatchStatus.active;
  created_by = none;
}

abbrev no_tables : Db
no_tables = record {
  batches = [];
  codes = [];
  redemptions = [];
  subscriptions = [];
  tiers = 2 ∷ [];
}

none-known : (found : List Fresh) → any_known no_tables found ≡ false
none-known [] = refl
none-known ((c, h) ∷ found) = none-known found

texts-enough :
    (n : ℕ) (seen : List ℕ) → All (λ x. n ≤ x) seen → n ≤ new_hashes length seen (texts n)
texts-enough n seen h = omega (arith, texts-new n seen h)

-- The codes that are drawn from `texts n`, when those longer than that were seen.
abbrev Drawn : ℕ → List ℕ → Type 0
Drawn n seen =
    (found : List Fresh) × (draw_codes length n seen (texts n) ≡ some found)
    × (length found ≡ n)
    × AreFresh length seen found

draw : (n : ℕ) (seen : List ℕ) → All (λ x. n ≤ x) seen → Drawn n seen
draw n seen h = draw_codes-enough length n seen (texts n) (texts-enough n seen h)

codes_of : ℕ → List Fresh
codes_of k = (text k, k) ∷ (draw k (k ∷ []) (omega arith, tt)).0

draw_codes-texts : (k : ℕ) → draw_codes length (suc k) [] (texts (suc k)) ≡ some (codes_of k)
unfolding draw_codes texts codes_of
draw_codes-texts k =
    let drawn = draw k (k ∷ []) (omega arith, tt) in
    let e = drawn.1 in ground (arith, text-normal k, e)

abbrev issued : List Fresh → Db
issued found = record no_tables {
  batches = upgrades ∷ [];
  codes = code_rows 20 upgrades found ++ [];
}

issue :
    (draws : List (List ℕ)) (found : List Fresh)
    → draw_codes length 500 [] draws ≡ some found
    → generate_batch length no_tables upgrades 20 draws ≡ some (ok found, issued found)
unfolding generate_batch is_valid_size
issue draws found e = rw (e, none-known found) refl

first-found : (k : ℕ) → is_some (find (λ p. p.1 == hash_code length (text k)) (codes_of k)) ≡ true
unfolding codes_of
first-found k = ground (arith, text-normal k)

abbrev codes : List Fresh
codes = codes_of 499

draw_codes-enough_example : Drawn 500 []
draw_codes-enough_example = draw_codes-enough length 500 [] (texts 500) (texts-enough 500 [] tt)

generate-redeem_example :
    is_ok (redeem_code (issued codes) (hash_code length (text 499)) 6 800).0 ≡ true
generate-redeem_example =
    generate-redeem length no_tables (issued codes) upgrades 20 6 800 (texts 500) codes (text 499)
      (issue (texts 500) codes (draw_codes-texts 499)) (first-found 499) (omega arith) refl refl
      refl
