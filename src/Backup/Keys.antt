-- ===== src/Backup/Keys.antt =====
-- worker/src/backup/keys.ts: the date in the name of a backup.
use one_mail.Base.{
  ℕ, ◌+◌, ◌-◌, ◌*◌, ◌/◌, ◌%◌, String, Option, none, some, List, [], ◌∷◌, ltb, ◌==◌, if◌then◌else◌,
}
use one_mail.Fleet.Parse.{codes}
use one_mail.Fleet.Parse.Calendar.{days_before_year, days_through, digits, mark, ◌>>=◌}

-- What follows a text at the start.
abbrev after : List ℕ → List ℕ → Option (List ℕ)
after [] cs = some cs
after (p ∷ ps) [] = none
after (p ∷ ps) (c ∷ cs) = if c == p then after ps cs else none

-- One of the kinds, and what follows it.
abbrev after_kind : List ℕ → Option (List ℕ)
after_kind cs = elim (after (codes "daily") cs) [
  | some rest ↦ some rest
  | none ↦ elim (after (codes "weekly") cs) [
    | some rest ↦ some rest
    | none ↦ after (codes "monthly") cs
  ]
]

-- `Date.UTC(year, month - 1, day)`, as the number of its day: a year below 100 is of the twentieth
-- century, and a month or day out of its range runs over into the next or the one before.
unfoldable pub utc_day : ℕ → ℕ → ℕ → ℕ
utc_day year month day =
    let months = (if ltb year 100 then year + 1900 else year) * 12 + month - 1 in
    days_before_year (months / 12) + days_through (months / 12) (months % 12) + day - 1

abbrev at_end : List ℕ → ℕ → Option ℕ
at_end [] day = some day
at_end (c ∷ cs) day = none

-- `backupKeyDate`
unfoldable pub backup_key_date : String → Option ℕ
backup_key_date key = do
  cs₁ ← after (codes "d1/") (codes key)
  cs₂ ← after_kind cs₁
  cs₃ ← mark 47 cs₂
  (year, cs₄) ← digits 4 0 cs₃
  cs₅ ← mark 45 cs₄
  (month, cs₆) ← digits 2 0 cs₅
  cs₇ ← mark 45 cs₆
  (day, cs₈) ← digits 2 0 cs₇
  cs₉ ← after (codes ".sql") cs₈
  at_end cs₉ (utc_day year month day)
