-- ===== src/Send/Capacity.antt =====
-- worker/src/mails_api/send_mail_limit_utils.ts: no interleaving of requests passes a limit.
use one_mail.Base.{
  ℕ, ◌-◌, ◌≤◌, ◌<◌, ◌≡◌, inl, inr, refl, sym, ap, subst, Option, none, some, List, [], ◌∷◌, map,
  true, Dict, get, put, get-put, ltb, All, if◌then◌else◌, nat_key, ℕ_discrete, arith,
}
use one_mail.Send.{
  Database, count_of, raise_count, lower_count, lower_counts, fired, update_rows, delete_rows,
}
use one_mail.Send.Writes.{has_room, purge}
use one_mail.Send.Rows.{Distinct}
use one_mail.Send.Effects.{
  Effect, unchanged, updates, deletes, inserts, follows, purge-cases, write-Effect,
}
use one_mail.Send.Unique.{write-Distinct}
use one_mail.Send.Slots.{slot, raise_count-count}
use one_mail.Send.History.{Write, purge_write, insert_write, write, write_all}

lower_count-le : (d : Dict ℕ ℕ) (o : Option ℕ) (k : ℕ) → count_of (lower_count d o) k ≤ count_of d k
unfolding lower_count
lower_count-le d none k = omega arith
lower_count-le d (some j) k =
    elim (get d j)
        as (λ x.
          get d j ≡ x
          → count_of (elim x [ none ↦ d | some m ↦ if ltb 0 m then put d j (m - 1) else d ]) k
            ≤ count_of d k) [
              | none ↦ λ e. omega arith
              | some m ↦ λ e. ground (arith, get-put d j k (m - 1))
            ]
      refl

lower_counts-le :
    (keys : List (Option ℕ)) (d : Dict ℕ ℕ) (k : ℕ)
    → count_of (lower_counts d keys) k ≤ count_of d k
unfolding lower_counts
lower_counts-le [] d k = omega arith
lower_counts-le (o ∷ keys) d k =
    omega (arith, lower_counts-le keys (lower_count d o) k, lower_count-le d o k)

-- An insertion with room leaves the counter of its key within the limit.
raise_count-le :
    (d : Dict ℕ ℕ) (o limit : Option ℕ) (k most : ℕ)
    → has_room d o limit ≡ true
    → (o ≡ some k → (l : ℕ) → limit ≡ some l → l ≤ most)
    → count_of d k ≤ most
    → count_of (raise_count d o) k ≤ most
raise_count-le d none limit k most r w h = omega (arith, h, raise_count-count d none k)
raise_count-le d (some j) none k most r w h = cc
raise_count-le d (some j) (some l) k most r w h = elim (ℕ_discrete j k) [
  | no n ↦
      let s : slot (some j) k ≡ 0 = ground arith in
      omega (arith, h, s, raise_count-count d (some j) k)
  | yes e ↦
      let s : slot (some j) k ≡ 1 = ground arith in
      let m : l ≤ most = w (ap some e) l refl in
      let x : count_of d k < l = subst (λ y. count_of d y < l) e (ground arith) in
      omega (arith, s, m, x, raise_count-count d (some j) k)
]

-- The limits that come with the insertions of a day are at most `most`.
abbrev pub DailyWithin : ℕ → ℕ → Write → Type 0
DailyWithin k most (insert_write q) =
    q.daily_key ≡ some k → (l : ℕ) → q.daily_limit ≡ some l → l ≤ most
DailyWithin k most _ = Unit

abbrev pub MonthlyWithin : ℕ → ℕ → Write → Type 0
MonthlyWithin k most (insert_write q) =
    q.monthly_key ≡ some k → (l : ℕ) → q.monthly_limit ≡ some l → l ≤ most
MonthlyWithin k most _ = Unit

module _ (w : Write) (k most : ℕ) where
  Effect-daily_le :
      (a b : Database)
      → Effect (λ q. w ≡ insert_write q) a b
      → DailyWithin k most w
      → count_of a.daily_counts k ≤ most
      → count_of b.daily_counts k ≤ most
  unfolding update_rows delete_rows
  Effect-daily_le a b (unchanged _ _ _ f _) v h = rw f h
  Effect-daily_le a b (updates p f _ _) v h = omega (
    arith,
    h,
    lower_counts-le (map (λ r. r.daily_key) (fired p f a.reservations)) a.daily_counts k,
  )
  Effect-daily_le a b (deletes _ _ _) v h = h
  Effect-daily_le a b (inserts q _ e _ r _) v h =
      raise_count-le a.daily_counts q.daily_key q.daily_limit k most r
        (subst (DailyWithin k most) e v) h
  Effect-daily_le a c (follows _ b _ x y) v h = Effect-daily_le b c y v (Effect-daily_le a b x v h)

  Effect-monthly_le :
      (a b : Database)
      → Effect (λ q. w ≡ insert_write q) a b
      → MonthlyWithin k most w
      → count_of a.monthly_counts k ≤ most
      → count_of b.monthly_counts k ≤ most
  unfolding update_rows delete_rows
  Effect-monthly_le a b (unchanged _ _ _ _ f) v h = rw f h
  Effect-monthly_le a b (updates p f _ _) v h = omega (
    arith,
    h,
    lower_counts-le (map (λ r. r.monthly_key) (fired p f a.reservations)) a.monthly_counts k,
  )
  Effect-monthly_le a b (deletes _ _ _) v h = h
  Effect-monthly_le a b (inserts q _ e _ _ r) v h =
      raise_count-le a.monthly_counts q.monthly_key q.monthly_limit k most r
        (subst (MonthlyWithin k most) e v) h
  Effect-monthly_le a c (follows _ b _ x y) v h =
      Effect-monthly_le b c y v (Effect-monthly_le a b x v h)

abbrev pub Fits : Database → (day month most_a_day most_a_month : ℕ) → Type 0
Fits db day month x y = (count_of db.daily_counts day ≤ x) × (count_of db.monthly_counts month ≤ y)

purge-Fits :
    (db : Database) (before batch day month x y : ℕ)
    → Fits db day month x y
    → Fits (write db (purge_write before batch)) day month x y
unfolding write purge delete_rows
purge-Fits db before batch day month x y h = h

write-Fits :
    (db : Database) (w : Write) (day month x y : ℕ)
    → Distinct db.reservations
    → DailyWithin day x w
    → MonthlyWithin month y w
    → Fits db day month x y
    → Fits (write db w) day month x y
write-Fits db w day month x y d u v h = elim (purge-cases w) [
  | inr (before, batch, e) ↦
      subst (λ z. Fits (write db z) day month x y) (sym e)
        (purge-Fits db before batch day month x y h)
  | inl e ↦
      let f = write-Effect db w d e in
      (
        Effect-daily_le w day x db (write db w) f u h.0,
        Effect-monthly_le w month y db (write db w) f v h.1,
      )
]

-- No race passes a limit: whatever the order of the writes, the counters of a day and of a month stay
-- within the limits that their reservations were asked under, provided that they were at the start.
pub write_all-Fits :
    (db : Database) (ws : List Write) (day month x y : ℕ)
    → Distinct db.reservations
    → All (DailyWithin day x) ws
    → All (MonthlyWithin month y) ws
    → Fits db day month x y
    → Fits (write_all db ws) day month x y
unfolding write_all
write_all-Fits db [] day month x y d u v h = h
write_all-Fits db (w ∷ ws) day month x y d u v h =
    write_all-Fits (write db w) ws day month x y (write-Distinct db w d) u.1 v.1
      (write-Fits db w day month x y d u.0 v.0 h)
