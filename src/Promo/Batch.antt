-- ===== src/Promo/Batch.antt =====
-- `generate_batch` and `kill_batch`.
use betpulse.Prelude.{
  ℕ, zero, suc, ◌%◌, Bool, true, false, Option, none, some, List, [], ◌∷◌, ◌++◌, ◌==◌, ◌&&◌, ◌||◌,
  not, leb, contains, count_if, is_some, update_where, if◌then◌else◌,
}
use betpulse.Promo.Model.{
  CodeStatus, BatchStatus, Batch, Code, Db, batch_size_invalid, invalid_code, integrity_error,
  Result, ok, err, batch_of, code_of,
}
use betpulse.Promo.Codes.{hash_code}

abbrev pub batch_multiple : ℕ
batch_multiple = 500

abbrev pub batch_max : ℕ
batch_max = 100_000

-- A plaintext code and its hash.
abbrev pub Fresh : Type 0
Fresh = List ℕ × ℕ

-- `while len(plaintext) < size`: `draws` are the codes that `generate_code` gives, one after the
-- other, and `wanted` is how many are still to be found; `none` means that the draws ran out. A
-- code whose hash was seen is skipped.
unfoldable pub draw_codes : (List ℕ → ℕ) → ℕ → List ℕ → List (List ℕ) → Option (List Fresh)
draw_codes hmac zero seen draws = some []
draw_codes hmac (suc wanted) seen [] = none
draw_codes hmac (suc wanted) seen (code ∷ draws) =
    let h = hash_code hmac code in
    elim (contains seen h) [
      | true ↦ draw_codes hmac (suc wanted) seen draws
      | false ↦ elim (draw_codes hmac wanted (h ∷ seen) draws) [
        | none ↦ none
        | some found ↦ some ((code, h) ∷ found)
      ]
    ]

-- The rows of the new codes; `first_id` and its successors are their identifiers.
unfoldable pub code_rows : ℕ → Batch → List Fresh → List Code
code_rows first_id batch [] = []
code_rows first_id batch ((code, h) ∷ found) =
    record {
      id = first_id;
      batch_id = batch.id;
      code_hash = h;
      activations_used = 0;
      max_activations = batch.max_activations;
      status = CodeStatus.active;
      bound_user_id = none;
    }
    ∷ code_rows (suc first_id) batch found

-- The unique constraint on `code_hash`, against the codes of other batches.
abbrev pub any_known : Db → List Fresh → Bool
any_known db [] = false
any_known db ((code, h) ∷ found) = is_some (code_of db h) || any_known db found

abbrev add_codes : Db → Batch → ℕ → Option (List Fresh) → Option (Result (List Fresh) × Db)
add_codes db batch first_id none = none
add_codes db batch first_id (some found) =
    if any_known db found
    then some (err integrity_error, db)
    else some (
      ok found,
      record db {
        batches = batch ∷ db.batches;
        codes = code_rows first_id batch found ++ db.codes;
      },
    )

unfoldable pub is_valid_size : ℕ → Bool
is_valid_size size = not (size == 0 || not (size % batch_multiple == 0)) && leb size batch_max

-- `batch` is the new row, with the arguments of the call; it is inserted as active.
unfoldable pub generate_batch :
    (List ℕ → ℕ) → Db → Batch → ℕ → List (List ℕ) → Option (Result (List Fresh) × Db)
generate_batch hmac db batch first_id draws =
    if is_valid_size batch.size
    then add_codes db (record batch { status = BatchStatus.active }) first_id
        (draw_codes hmac batch.size [] draws)
    else some (err batch_size_invalid, db)

abbrev pub in_batch : ℕ → Code → Bool
in_batch batch_id c = c.batch_id == batch_id

abbrev pub disable_code : Code → Code
disable_code c = record c { status = CodeStatus.disabled }

abbrev pub disable_batch : Batch → Batch
disable_batch b = record b { status = BatchStatus.disabled }

unfoldable pub kill_batch : Db → ℕ → Result ℕ × Db
kill_batch db batch_id = elim (batch_of db batch_id) [
  | none ↦ (err invalid_code, db)
  | some batch ↦ (
    ok (count_if (in_batch batch_id) db.codes),
    record db {
      batches = update_where (λ b. b.id == batch_id) disable_batch db.batches;
      codes = update_where (in_batch batch_id) disable_code db.codes;
    },
  )
]
