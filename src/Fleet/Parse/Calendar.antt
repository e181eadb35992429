-- ===== src/Fleet/Parse/Calendar.antt =====
-- worker/src/fleet/validation.ts: instants and dates. An instant is counted in milliseconds from the
-- first midnight of year 0, which every text of four digits for the year comes after.
use one_mail.Base.{
  ℕ, zero, suc, ◌+◌, ◌-◌, ◌*◌, ◌/◌, ◌%◌, Option, none, some, List, [], ◌∷◌, not, ◌&&◌, ◌||◌, leb,
  ◌==◌, if◌then◌else◌,
}
use one_mail.Fleet.Contracts.{Result, ok}
use one_mail.Fleet.Metrics.{day_ms}
use one_mail.Fleet.Parse.{str, Value, invalid, codes, is_digit}

-- The length of February.
abbrev february : ℕ → ℕ
february year = if not (year % 4 == 0) || (year % 100 == 0 && not (year % 400 == 0)) then 28 else 29

-- Up to July the odd months are long, from August on the even ones.
abbrev days_in_month : ℕ → ℕ → ℕ
days_in_month year month =
    if month == 2 then february year else (if leb month 7 then 30 + month % 2 else 31 - month % 2)

-- The days of a year before the month that comes after `m`.
unfoldable pub days_through : ℕ → ℕ → ℕ
days_through y zero = 0
days_through y (suc m) = days_through y m + days_in_month y (suc m)

-- The days before a year; year 0 is a leap year.
abbrev pub days_before_year : ℕ → ℕ
days_before_year zero = 0
days_before_year (suc p) = 365 * suc p + p / 4 - p / 100 + p / 400 + 1

unfoldable day_number : ℕ → ℕ → ℕ → Option ℕ
unfolding days_through
day_number y m d =
    if leb 1 m && leb m 12 && leb 1 d && leb d (days_in_month y m)
    then some (days_before_year y + days_through y (m - 1) + (d - 1))
    else none

-- So many digits, and what follows them.
unfoldable pub digits : ℕ → ℕ → List ℕ → Option (ℕ × List ℕ)
digits zero n cs = some (n, cs)
digits (suc k) n [] = none
digits (suc k) n (c ∷ cs) =
    let rest = digits k (n * 10 + (c - 48)) cs in if is_digit c then rest else none

-- One character, and what follows it.
abbrev pub mark : ℕ → List ℕ → Option (List ℕ)
mark m [] = none
mark m (c ∷ cs) = if c == m then some cs else none

infixl 5 ◌>>=◌
abbrev pub ◌>>=◌ {κ μ} : {T : Type κ} {S : Type μ} → Option T → (T → Option S) → Option S
start >>= rest = elim start [ none ↦ none | some value ↦ rest value ]

-- `\d{4}-\d{2}-\d{2}`, as the number of the day, and what follows it.
unfoldable pub read_day : List ℕ → Option (ℕ × List ℕ)
unfolding digits day_number
read_day cs = do
  (y, cs₁) ← digits 4 0 cs
  cs₂ ← mark 45 cs₁
  (m, cs₃) ← digits 2 0 cs₂
  cs₄ ← mark 45 cs₃
  (d, cs₅) ← digits 2 0 cs₄
  n ← day_number y m d
  some (n, cs₅)

-- The end of an instant: `Z`, or a point, three digits and `Z`.
abbrev read_end : ℕ → List ℕ → Option ℕ
read_end value (z ∷ []) = if z == 90 then some value else none
read_end value _ = none

abbrev read_fraction : List ℕ → Option ℕ
read_fraction [] = none
read_fraction (c ∷ cs) =
    if c == 46 then (digits 3 0 cs >>= λ e. read_end e.0 e.1) else read_end 0 (c ∷ cs)

unfoldable pub read_instant : List ℕ → Option ℕ
unfolding read_day digits
read_instant cs = do
  (n, cs₁) ← read_day cs
  cs₂ ← mark 84 cs₁
  (h, cs₃) ← digits 2 0 cs₂
  cs₄ ← mark 58 cs₃
  (i, cs₅) ← digits 2 0 cs₄
  cs₆ ← mark 58 cs₅
  (s, cs₇) ← digits 2 0 cs₆
  f ← read_fraction cs₇
  (if leb h 23 && leb i 59 && leb s 59
      then some (n * day_ms + h * 3600000 + i * 60000 + s * 1000 + f)
      else none)

-- `utcInstant`
unfoldable pub utc_instant : Value → Result ℕ
utc_instant (some (str s)) = elim (read_instant (codes s)) [ none ↦ invalid | some t ↦ ok t ]
utc_instant _ = invalid

abbrev whole_day : Option (ℕ × List ℕ) → Result ℕ
whole_day (some (n, [])) = ok n
whole_day _ = invalid

-- `utcDate`
unfoldable pub utc_date : Value → Result ℕ
utc_date (some (str s)) = whole_day (read_day (codes s))
utc_date _ = invalid
