-- ===== src/Ingest/Seasons.antt =====
-- backend/app/core/seasons.py. A label is its list of code points; `\d` is that of
-- ASCII, `\s` and the stripping of texts that of Latin-1.
use betpulse.Prelude.{
  ℕ, suc, zero, ◌+◌, ◌-◌, ◌*◌, ◌/◌, ◌%◌, Bool, true, false, Option, none, some, List, [], ◌∷◌, ◌++◌,
  ◌==◌, ◌&&◌, ◌||◌, not, leb, ltb, if◌then◌else◌,
}

abbrev pub Text : Type 0
Text = List ℕ

abbrev pub eqb_text : Text → Text → Bool
eqb_text [] [] = true
eqb_text (x ∷ xs) (y ∷ ys) = (x == y) && eqb_text xs ys
eqb_text _ _ = false

abbrev pub is_digit : ℕ → Bool
is_digit ch = leb b'0' ch && leb ch b'9'

-- The white space of Latin-1: blank, tab to carriage return, the four separators of ASCII, the next
-- line and the blank that does not break.
abbrev pub is_space : ℕ → Bool
is_space ch =
    (ch == 32) || (leb 9 ch && leb ch 13) || (leb 28 ch && leb ch 31) || (ch == 133) || (ch == 160)

abbrev pub skip_spaces : Text → Text
skip_spaces [] = []
skip_spaces (ch ∷ rest) = if is_space ch then skip_spaces rest else ch ∷ rest

-- `(\d{k})`: the number, and the rest.
abbrev pub digits : ℕ → ℕ → Text → Option (ℕ × Text)
digits zero acc text = some (acc, text)
digits (suc k) acc [] = none
digits (suc k) acc (ch ∷ rest) =
    if is_digit ch then digits k (acc * 10 + (ch - b'0')) rest else none

-- `\s*$`; `$` allows the end of the text only, since a final line feed is a space.
abbrev pub at_end : Text → Bool
at_end [] = true
at_end (ch ∷ rest) = is_space ch && at_end rest

-- A number of `k` digits to the end of the label.
abbrev pub ends_with : Option (ℕ × Text) → Option ℕ
ends_with none = none
ends_with (some (n, rest)) = if at_end rest then some n else none

abbrev pub is_separator : ℕ → Bool
is_separator ch = (ch == b'-') || (ch == b'/')

-- `\s*[-/]\s*`
abbrev pub separator : Text → Option Text
separator [] = none
separator (ch ∷ rest) = if is_separator ch then some (skip_spaces rest) else none

-- The second year of `_SPLIT`: two digits to the end, or else four.
pub data EndYear : Type 0 where
  short full : ℕ → EndYear

abbrev pub short_or_full : Option ℕ → Option ℕ → Option EndYear
short_or_full (some y) _ = some (short y)
short_or_full none (some y) = some (full y)
short_or_full none none = none

abbrev pub end_year : Text → Option EndYear
end_year text = short_or_full (ends_with (digits 2 0 text)) (ends_with (digits 4 0 text))

pub data Label : Type 0 where
  single : ℕ → Label
  split : ℕ → EndYear → Label
  two_short : ℕ → ℕ → Label
  unreadable : Label

abbrev pub split_after : ℕ → Option Text → Option Label
split_after start none = none
split_after start (some text) = elim (end_year text) [ none ↦ none | some e ↦ some (split start e) ]

abbrev pub short_after : ℕ → Option Text → Option Label
short_after start none = none
short_after start (some text) = elim (ends_with (digits 2 0 text)) [
  | none ↦ none
  | some e ↦ some (two_short start e)
]

-- `_SINGLE` and `_SPLIT`, which both begin with four digits, and `_SHORT`.
abbrev pub read_four : ℕ × Text → Option Label
read_four (start, rest) =
    if at_end rest then some (single start) else split_after start (separator (skip_spaces rest))

abbrev pub read_two : Option (ℕ × Text) → Option Label
read_two none = none
read_two (some (start, rest)) = short_after start (separator (skip_spaces rest))

abbrev pub or_unreadable : Option Label → Label
or_unreadable none = unreadable
or_unreadable (some label) = label

unfoldable pub read_label : Text → Label
read_label raw =
    let text = skip_spaces raw in
    elim (digits 4 0 text) [
      | none ↦ or_unreadable (read_two (digits 2 0 text))
      | some found ↦ or_unreadable (read_four found)
    ]

-- `_expand`
abbrev pub expand : ℕ → ℕ → ℕ
expand short_year start_year =
    let candidate = start_year - start_year % 100 + short_year in
    if ltb start_year candidate then candidate else candidate + 100

abbrev pub end_of : ℕ → EndYear → ℕ
end_of start (short y) = expand y start
end_of start (full y) = y

-- `str` of a number below 100 000, as years are here.
abbrev pub digit : ℕ → ℕ
digit d = b'0' + d % 10

unfoldable pub year_text : ℕ → Text
year_text y =
    if ltb y 10
    then digit y ∷ []
    else if ltb y 100
    then digit (y / 10) ∷ digit y ∷ []
    else if ltb y 1000
    then digit (y / 100) ∷ digit (y / 10) ∷ digit y ∷ []
    else if ltb y 10_000
    then digit (y / 1000) ∷ digit (y / 100) ∷ digit (y / 10) ∷ digit y ∷ []
    else digit (y / 10_000) ∷ digit (y / 1000) ∷ digit (y / 100) ∷ digit (y / 10) ∷ digit y ∷ []

abbrev pub two_years : ℕ → Text
two_years start = year_text start ++ (b'-' ∷ year_text (start + 1))

-- The checks after the match: consecutive years, and a league that spans two.
abbrev pub split_label : Bool → ℕ → ℕ → Option Text
split_label split_year start end =
    if not (end == start + 1) then none else if split_year then some (two_years start) else none

-- `none` is SeasonFormatError.
abbrev pub label_text : Bool → Label → Option Text
label_text split_year (single start) =
    some (if split_year then two_years start else year_text start)
label_text split_year (split start e) = split_label split_year start (end_of start e)
label_text split_year (two_short start e) =
    split_label split_year (2000 + start) (expand e (2000 + start))
label_text split_year unreadable = none

unfoldable pub canonical_season : Text → Bool → Option Text
canonical_season raw split_year = label_text split_year (read_label raw)

abbrev pub is_text : Option Text → Text → Bool
is_text none season = false
is_text (some text) season = eqb_text text season

unfoldable pub is_canonical : Text → Bool → Bool
is_canonical season split_year = is_text (canonical_season season split_year) season
