-- ===== src/Ingest/Labels.antt =====
-- The canonical label of a season.
use betpulse.Prelude.{
  Option, ap, none, ◌++◌, ◌∙◌, subst, Bool, true, false, ℕ, suc, ◌+◌, ◌-◌, ◌*◌, ◌/◌, ◌%◌, ◌≤◌, ◌≡◌,
  true, false, some, [], ◌∷◌, arith,
}
use betpulse.Ingest.Seasons.{
  Text, is_digit, is_space, skip_spaces, digits, digit, year_text, two_years, read_label, read_two,
  read_four, Label, single, split, two_short, unreadable, or_unreadable, full, end_year,
  short_or_full, split_after, split_label, end_of, expand, label_text, canonical_season, ends_with,
}

-- The number that four digits denote.
four_digits :
    (y : ℕ)
    → 1000 ≤ y
    → y ≤ 9999
    → year_text y ≡ digit (y / 1000) ∷ digit (y / 100) ∷ digit (y / 10) ∷ digit y ∷ []
unfolding year_text
four_digits y lo hi = ground (arith, lo, hi)

digit-is_digit : (d : ℕ) → is_digit (digit d) ≡ true
digit-is_digit d = ground arith

digit-is_space : (d : ℕ) → is_space (digit d) ≡ false
digit-is_space d = ground arith

read_digit :
    (k acc d : ℕ) (rest : Text)
    → digits (suc k) acc (digit d ∷ rest) ≡ digits k (acc * 10 + d % 10) rest
read_digit k acc d rest = rw (digit-is_digit d) (ground arith)

digit_sum :
    (y : ℕ)
    → y ≤ 9999
    → (((0 + (digit (y / 1000) - 48)) * 10 + (digit (y / 100) - 48)) * 10 + (digit (y / 10) - 48))
          * 10
        + (digit y - 48)
      ≡ y
digit_sum y hi = omega (arith, hi)

read_year :
    (y : ℕ) (rest : Text)
    → y ≤ 9999
    → digits 4 0 (digit (y / 1000) ∷ digit (y / 100) ∷ digit (y / 10) ∷ digit y ∷ rest)
      ≡ some (y, rest)
read_year y rest hi = ground (
  arith,
  digit-is_digit (y / 1000),
  digit-is_digit (y / 100),
  digit-is_digit (y / 10),
  digit-is_digit y,
  digit_sum y hi,
)

-- The four digits of a year.
abbrev four : ℕ → Text
four y = digit (y / 1000) ∷ digit (y / 100) ∷ digit (y / 10) ∷ digit y ∷ []

skip_digit : (d : ℕ) (rest : Text) → skip_spaces (digit d ∷ rest) ≡ digit d ∷ rest
skip_digit d rest = ground (arith, digit-is_space d)

read_of :
    (raw text : Text) (found : ℕ × Text)
    → skip_spaces raw ≡ text
    → digits 4 0 text ≡ some found
    → read_label raw ≡ or_unreadable (read_four found)
unfolding read_label
read_of raw text found h k =
    ap
      (λ t. elim (digits 4 0 t) as (λ _. Label) [
        | none ↦ or_unreadable (read_two (digits 2 0 t))
        | some x ↦ or_unreadable (read_four x)
      ])
      h
    ∙ ap
        (λ o. elim o as (λ _. Label) [
          | none ↦ or_unreadable (read_two (digits 2 0 text))
          | some x ↦ or_unreadable (read_four x)
        ])
        k

read_single : (y : ℕ) → 1000 ≤ y → y ≤ 9999 → read_label (year_text y) ≡ single y
read_single y lo hi =
    read_of (year_text y) (four y) (y, [])
      (ap skip_spaces (four_digits y lo hi)
        ∙ skip_digit (y / 1000) (digit (y / 100) ∷ digit (y / 10) ∷ digit y ∷ []))
      (read_year y [] hi)

not_two_digits : (y : ℕ) → ends_with (digits 2 0 (four y)) ≡ none
not_two_digits y =
    ground (arith, digit-is_digit (y / 1000), digit-is_digit (y / 100), digit-is_space (y / 10))

end_of_four : (y : ℕ) → y ≤ 9999 → end_year (four y) ≡ some (full y)
end_of_four y hi =
    ap (λ o. short_or_full o (ends_with (digits 4 0 (four y)))) (not_two_digits y)
    ∙ ap (λ o. short_or_full none (ends_with o)) (read_year y [] hi)

read_split : (y : ℕ) → 1000 ≤ y → y ≤ 9998 → read_label (two_years y) ≡ split y (full (y + 1))
read_split y lo hi =
    let next : y + 1 ≤ 9999 = omega (arith, hi) in
    let tail = b'-' ∷ four (y + 1) in
    let text : two_years y ≡ four y ++ tail =
      ap (λ t. t ++ (b'-' ∷ year_text (y + 1))) (four_digits y lo (omega (arith, hi)))
      ∙ ap (λ t. four y ++ (b'-' ∷ t)) (four_digits (y + 1) (omega (arith, lo)) next) in
    read_of (two_years y) (four y ++ tail) (y, tail)
      (ap skip_spaces text
        ∙ skip_digit (y / 1000) (digit (y / 100) ∷ digit (y / 10) ∷ digit y ∷ tail))
      (read_year y tail (omega (arith, hi)))
    ∙ ap (λ t. or_unreadable (split_after y (some t)))
        (skip_digit ((y + 1) / 1000)
          (digit ((y + 1) / 100) ∷ digit ((y + 1) / 10) ∷ digit (y + 1) ∷ []))
    ∙ ap
        (λ o.
          or_unreadable (elim o as (λ _. Option Label) [ none ↦ none | some e ↦ some (split y e) ]))
        (end_of_four (y + 1) next)

-- The first year of a label.
abbrev pub start_of : Label → ℕ
start_of (single start) = start
start_of (split start e) = start
start_of (two_short start e) = 2000 + start
start_of unreadable = 0

two_years_again :
    (y : ℕ) → 1000 ≤ y → y ≤ 9998 → canonical_season (two_years y) true ≡ some (two_years y)
unfolding canonical_season
two_years_again y lo hi = ap (label_text true) (read_split y lo hi) ∙ ground arith

split_label_again :
    (split_year : Bool) (start end : ℕ) (text : Text)
    → 1000 ≤ start
    → start ≤ 9998
    → split_label split_year start end ≡ some text
    → canonical_season text split_year ≡ some text
split_label_again true start end text lo hi h =
    let same : two_years start ≡ text = ground (arith, h) in
    subst (λ t. canonical_season t true ≡ some t) same (two_years_again start lo hi)
split_label_again false start end text lo hi h = absurd (ground (arith, h))

label_text_again :
    (split_year : Bool) (label : Label) (text : Text)
    → 1000 ≤ start_of label
    → start_of label ≤ 9998
    → label_text split_year label ≡ some text
    → canonical_season text split_year ≡ some text
unfolding canonical_season
label_text_again true (single y) text lo hi h =
    let same : two_years y ≡ text = cc (h) in
    subst (λ t. canonical_season t true ≡ some t) same (two_years_again y lo hi)
label_text_again false (single y) text lo hi h =
    let same : year_text y ≡ text = cc (h) in
    subst (λ t. canonical_season t false ≡ some t) same
      (ap (label_text false) (read_single y lo (omega (arith, hi))))
label_text_again split_year (split start e) text lo hi h =
    split_label_again split_year start (end_of start e) text lo hi h
label_text_again split_year (two_short start e) text lo hi h =
    split_label_again split_year (2000 + start) (expand e (2000 + start)) text lo hi h
label_text_again split_year unreadable text lo hi h = absurd (omega (arith, lo))

-- A label that was read for a season whose first year has four digits, below 9999, is canonical: it is
-- read again, for a league of the same kind, as itself.
pub canonical_season_again :
    (raw : Text) (split_year : Bool) (text : Text)
    → 1000 ≤ start_of (read_label raw)
    → start_of (read_label raw) ≤ 9998
    → canonical_season raw split_year ≡ some text
    → canonical_season text split_year ≡ some text
unfolding canonical_season
canonical_season_again raw split_year text = label_text_again split_year (read_label raw) text
