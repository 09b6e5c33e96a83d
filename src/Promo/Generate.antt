-- ===== src/Promo/Generate.antt =====
-- Generation: the codes of a batch, and their redemption.
use betpulse.Prelude.{
  ℕ, zero, suc, ◌≤◌, ◌<◌, ◌%◌, ◌≡◌, refl, true, false, none, some, List, [], ◌∷◌, ◌++◌, arith, ◌==◌,
  contains, find, is_some, length, subst, Bool-cases, inl, inr, if◌then◌else◌,
}
use native.Mathlib.Decide.{dec_le}
use betpulse.Promo.Model.{Batch, Code, Db, CodeStatus, BatchStatus, ok, is_redemption_of}
use betpulse.Promo.Codes.{hash_code}
use betpulse.Promo.Batch.{Fresh, draw_codes, code_rows, generate_batch, is_valid_size}
use betpulse.Promo.Redeem.{redeem_code, has_expired, bound_to_other, check_redeemable}
use betpulse.Promo.Outcome.{IsRedeemable, is_ok, redeem-succeeds}

-- How many new hashes the draws hold, beside those that were seen.
abbrev pub new_hashes : (List ℕ → ℕ) → List ℕ → List (List ℕ) → ℕ
new_hashes hmac seen [] = 0
new_hashes hmac seen (code ∷ draws) =
    if contains seen (hash_code hmac code)
    then new_hashes hmac seen draws
    else suc (new_hashes hmac (hash_code hmac code ∷ seen) draws)

-- The codes found are new, pairwise different by hash, and each is stored under its own hash.
abbrev pub AreFresh : (List ℕ → ℕ) → List ℕ → List Fresh → Type 0
AreFresh hmac seen [] = Unit
AreFresh hmac seen ((code, h) ∷ found) =
    (h ≡ hash_code hmac code) × (contains seen h ≡ false) × AreFresh hmac (h ∷ seen) found

module _ (hmac : List ℕ → ℕ) where
  -- If the draws hold at least as many new hashes as codes are wanted, the loop of a batch ends,
  -- and it has found as many codes as were wanted, all fresh.
  pub draw_codes-enough :
      (wanted : ℕ) (seen : List ℕ) (draws : List (List ℕ))
      → wanted ≤ new_hashes hmac seen draws
      → (found : List Fresh) × (draw_codes hmac wanted seen draws ≡ some found)
        × (length found ≡ wanted)
        × AreFresh hmac seen found
  unfolding draw_codes
  draw_codes-enough zero seen draws h = ([], refl, refl, tt)
  draw_codes-enough (suc n) seen [] h = absurd (omega arith)
  draw_codes-enough (suc n) seen (code ∷ draws) h =
      elim (Bool-cases (contains seen (hash_code hmac code))) [
        | inl known ↦ rw (known, draw_codes) (draw_codes-enough (suc n) seen draws (ground arith))
        | inr new ↦
            let (found, e, len, fresh) =
              draw_codes-enough n (hash_code hmac code ∷ seen) draws (ground arith) in
            (
              (code, hash_code hmac code) ∷ found,
              rw (new, e, draw_codes) refl,
              omega arith,
              (refl, new, fresh),
            )
      ]

  pub draw_codes-short :
      (wanted : ℕ) (seen : List ℕ) (draws : List (List ℕ))
      → new_hashes hmac seen draws < wanted
      → draw_codes hmac wanted seen draws ≡ none
  unfolding draw_codes
  draw_codes-short zero seen draws h = absurd (omega arith)
  draw_codes-short (suc n) seen [] h = refl
  draw_codes-short (suc n) seen (code ∷ draws) h = ground (
    arith,
    draw_codes-short (suc n) seen draws,
    draw_codes-short n (hash_code hmac code ∷ seen) draws,
  )

  draw_codes_sound :
      (wanted : ℕ) (seen : List ℕ) (draws : List (List ℕ)) (found : List Fresh)
      → draw_codes hmac wanted seen draws ≡ some found
      → (length found ≡ wanted) × AreFresh hmac seen found
  draw_codes_sound wanted seen draws found e = elim (dec_le wanted (new_hashes hmac seen draws)) [
    | yes h ↦
        let (found', e', len, fresh) = draw_codes-enough wanted seen draws h in
        let same : found' ≡ found = ground (arith, e, e') in
        (rw (← same) len, subst (AreFresh hmac seen) same fresh)
    | no h ↦ cc (draw_codes-short wanted seen draws (omega arith))
  ]

  code_rows-find :
      (first h : ℕ) (batch : Batch) (found : List Fresh) (rest : List Code)
      → is_some (find (λ p. p.1 == h) found) ≡ true
      → (row : Code) × (find (λ c. c.code_hash == h) (code_rows first batch found ++ rest)
          ≡ some row)
        × (row.batch_id ≡ batch.id)
        × (row.activations_used ≡ 0)
        × (row.max_activations ≡ batch.max_activations)
        × (row.status ≡ CodeStatus.active)
        × (row.bound_user_id ≡ none)
  unfolding code_rows
  code_rows-find first h batch [] rest e = cc
  code_rows-find first h batch ((code, k) ∷ found) rest e = elim (Bool-cases (k == h)) [
    | inl here ↦ (
      record {
        id = first;
        batch_id = batch.id;
        code_hash = k;
        activations_used = 0;
        max_activations = batch.max_activations;
        status = CodeStatus.active;
        bound_user_id = none;
      },
      rw here refl,
      refl,
      refl,
      refl,
      refl,
      refl,
    )
    | inr there ↦ rw there (code_rows-find (suc first) h batch found rest (ground arith))
  ]

  -- The tables after a batch: the batch and its codes come first.
  generate_batch-ok :
      (db db' : Db) (batch : Batch) (first : ℕ) (draws : List (List ℕ)) (found : List Fresh)
      → generate_batch hmac db batch first draws ≡ some (ok found, db')
      → db' ≡ record db {
        batches = record batch { status = BatchStatus.active } ∷ db.batches;
        codes = code_rows first (record batch { status = BatchStatus.active }) found ++ db.codes;
      }
  unfolding generate_batch
  generate_batch-ok db db' batch first draws found g = ground arith

  generated_IsRedeemable :
      (db : Db) (batch : Batch) (first user now h : ℕ) (found : List Fresh)
      → is_some (find (λ p. p.1 == h) found) ≡ true
      → 0 < batch.max_activations
      → has_expired batch.expires_at now ≡ false
      → bound_to_other batch.bound_user_id user ≡ false
      → find (is_redemption_of user h) db.redemptions ≡ none
      → let new = record batch { status = BatchStatus.active } in
        let db' = record db {
          batches = new ∷ db.batches;
          codes = code_rows first new found ++ db.codes;
        } in
        (row : Code) × IsRedeemable db' h user now row new
  unfolding check_redeemable
  generated_IsRedeemable db batch first user now h found mem slots live mine fresh =
      let new = record batch { status = BatchStatus.active } in
      let (row, e, b, used, most, status, bound) = code_rows-find first h new found db.codes mem in
      (
        row,
        record {
          row_found = e;
          batch_found = ground (arith, b);
          allowed = ground (arith, status, bound, live, mine);
          is_active = ground (arith, status);
          has_slot = omega (arith, used, most);
          first_time = fresh;
        },
      )

  -- From generation to redemption: a text whose hash is that of a generated code can be redeemed by
  -- any user whom the batch is for, before the batch ends, if they have not redeemed it yet and a
  -- code of the batch has at least one activation.
  pub generate-redeem :
      (db db' : Db) (batch : Batch) (first user now : ℕ) (draws : List (List ℕ))
      (found : List Fresh) (text : List ℕ)
      → generate_batch hmac db batch first draws ≡ some (ok found, db')
      → is_some (find (λ p. p.1 == hash_code hmac text) found) ≡ true
      → 0 < batch.max_activations
      → has_expired batch.expires_at now ≡ false
      → bound_to_other batch.bound_user_id user ≡ false
      → find (is_redemption_of user (hash_code hmac text)) db.redemptions ≡ none
      → is_ok (redeem_code db' (hash_code hmac text) user now).0 ≡ true
  generate-redeem db db' batch first user now draws found text g mem slots live mine fresh =
      let h = hash_code hmac text in
      let new = record batch { status = BatchStatus.active } in
      let (row, can) =
        generated_IsRedeemable db batch first user now h found mem slots live mine fresh in
      rw
        (
          generate_batch-ok db db' batch first draws found g,
          redeem-succeeds _ h user now row new can,
        )
        refl

-- A batch that is generated has the size that was asked for, a positive multiple of 500 up to
-- 100 000; its codes are pairwise different by hash, and each stands with its own hash.
pub generate_batch-size :
    (hmac : List ℕ → ℕ) (db db' : Db) (batch : Batch) (first : ℕ) (draws : List (List ℕ))
    (found : List Fresh)
    → generate_batch hmac db batch first draws ≡ some (ok found, db')
    → (1 ≤ batch.size)
      × (batch.size % 500 ≡ 0)
      × (batch.size ≤ 100_000)
      × (length found ≡ batch.size)
      × AreFresh hmac [] found
unfolding generate_batch is_valid_size
generate_batch-size hmac db db' batch first draws found g =
    let drawn : draw_codes hmac batch.size [] draws ≡ some found = ground arith in
    let (len, fresh) = draw_codes_sound hmac batch.size [] draws found drawn in
    (ground arith, ground arith, ground arith, len, fresh)
