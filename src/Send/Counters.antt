-- ===== src/Send/Counters.antt =====
-- worker/src/mails_api/send_mail_limit_utils.ts: the counters of a day and of a month, through any
-- sequence of writes.
use one_mail.Base.{
  select, ℕ, ◌+◌, ◌≡◌, inl, inr, refl, sym, subst, Option, List, [], ◌∷◌, false, nat_key, arith,
}
use one_mail.Send.{Reservation, Database, count_of, update_rows, delete_rows}
use one_mail.Send.Writes.{Request, new_row, purge}
use one_mail.Send.Rows.{Distinct}
use one_mail.Send.Effects.{
  Effect, unchanged, updates, deletes, inserts, follows, is_purged, is_purge, purge-cases,
  write-Effect,
}
use one_mail.Send.Unique.{write-Distinct}
use one_mail.Send.Slots.{
  slots, Turns-Turned, raise_count-count, lower_counts-count, slots-select, slots-released,
  slots-append,
}
use one_mail.Send.History.{Write, purge_write, write, write_all}

abbrev pub daily : Reservation → Option ℕ
daily r = r.daily_key

abbrev pub monthly : Reservation → Option ℕ
monthly r = r.monthly_key

-- The counter of a day or a month is what its reservations hold, and `n` more.
abbrev pub Daily : Database → ℕ → ℕ → Type 0
Daily db k n = count_of db.daily_counts k ≡ slots daily k db.reservations + n

abbrev pub Monthly : Database → ℕ → ℕ → Type 0
Monthly db k n = count_of db.monthly_counts k ≡ slots monthly k db.reservations + n

module _ {Q : Request → Type 0} (k n : ℕ) where
  Effect-Daily : (a b : Database) → Effect Q a b → Daily a k n → Daily b k n
  unfolding update_rows delete_rows
  Effect-Daily a b (unchanged _ _ e f _) h = rw (e, f) h
  Effect-Daily a b (updates p f _ m) h =
      lower_counts-count daily k p f a.reservations a.daily_counts n
        (λ r i q. let v = m r i q in Turns-Turned daily k r (f r) v.turns v.same_daily) h
  Effect-Daily a b (deletes p _ r) h =
      omega
        (arith, h, slots-select daily k p a.reservations, slots-released daily k p a.reservations r)
  Effect-Daily a b (inserts q _ _ _ _ _) h = omega (
    arith,
    h,
    raise_count-count a.daily_counts q.daily_key k,
    slots-append daily k a.reservations (new_row q),
  )
  Effect-Daily a c (follows _ b _ x y) h = Effect-Daily b c y (Effect-Daily a b x h)

  Effect-Monthly : (a b : Database) → Effect Q a b → Monthly a k n → Monthly b k n
  unfolding update_rows delete_rows
  Effect-Monthly a b (unchanged _ _ e _ f) h = rw (e, f) h
  Effect-Monthly a b (updates p f _ m) h =
      lower_counts-count monthly k p f a.reservations a.monthly_counts n
        (λ r i q. let v = m r i q in Turns-Turned monthly k r (f r) v.turns v.same_monthly) h
  Effect-Monthly a b (deletes p _ r) h = omega (
    arith,
    h,
    slots-select monthly k p a.reservations,
    slots-released monthly k p a.reservations r,
  )
  Effect-Monthly a b (inserts q _ _ _ _ _) h = omega (
    arith,
    h,
    raise_count-count a.monthly_counts q.monthly_key k,
    slots-append monthly k a.reservations (new_row q),
  )
  Effect-Monthly a c (follows _ b _ x y) h = Effect-Monthly b c y (Effect-Monthly a b x h)

-- The slots of the rows that a write purges; they stay counted.
abbrev pub purged : (Reservation → Option ℕ) → ℕ → Database → Write → ℕ
purged g k db (purge_write before batch) =
    slots g k (select (is_purged before batch db) db.reservations)
purged g k db _ = 0

abbrev pub purged_all : (Reservation → Option ℕ) → ℕ → Database → List Write → ℕ
purged_all g k db [] = 0
purged_all g k db (w ∷ ws) = purged g k db w + purged_all g k (write db w) ws

purged-none :
    (g : Reservation → Option ℕ) (k : ℕ) (db : Database) (w : Write)
    → is_purge w ≡ false
    → purged g k db w ≡ 0
purged-none g k db (purge_write before batch) h = cc
purged-none g k db w h = refl

-- A purge keeps the counters, so what its rows held is now beyond the reservations.
purge-counts :
    (k n m before batch : ℕ) (db : Database)
    → Daily db k n
    → Monthly db k m
    → Daily
        (write db (purge_write before batch))
        k
        (n + purged daily k db (purge_write before batch))
      × Monthly
          (write db (purge_write before batch))
          k
          (m + purged monthly k db (purge_write before batch))
unfolding write purge delete_rows
purge-counts k n m before batch db h i =
    let p = is_purged before batch db in
    (
      omega (arith, h, slots-select daily k p db.reservations),
      omega (arith, i, slots-select monthly k p db.reservations),
    )

write-counts :
    (k n m : ℕ) (db : Database) (w : Write)
    → Distinct db.reservations
    → Daily db k n
    → Monthly db k m
    → Daily (write db w) k (n + purged daily k db w)
      × Monthly (write db w) k (m + purged monthly k db w)
write-counts k n m db w d h i = elim (purge-cases w) [
  | inr (before, batch, e) ↦
      subst
        (λ x.
          Daily (write db x) k (n + purged daily k db x)
          × Monthly (write db x) k (m + purged monthly k db x))
        (sym e) (purge-counts k n m before batch db h i)
  | inl e ↦
      let f = write-Effect db w d e in
      (
        omega (arith, Effect-Daily k n db (write db w) f h, purged-none daily k db w e),
        omega (arith, Effect-Monthly k m db (write db w) f i, purged-none monthly k db w e),
      )
]

-- However the writes of concurrent requests, of the reconciliation and of the operator follow each
-- other, the counter of each day and of each month is exact: it is the number of its reservations
-- that are not released, together with those that purges have deleted and with what was counted
-- beyond the reservations at the start.
pub write_all-Counted :
    (db : Database) (ws : List Write) (k n m : ℕ)
    → Distinct db.reservations
    → Daily db k n
    → Monthly db k m
    → Daily (write_all db ws) k (n + purged_all daily k db ws)
      × Monthly (write_all db ws) k (m + purged_all monthly k db ws)
unfolding write_all
write_all-Counted db [] k n m d h i = (omega (arith, h), omega (arith, i))
write_all-Counted db (w ∷ ws) k n m d h i =
    let (x, y) = write-counts k n m db w d h i in
    let (u, v) =
      write_all-Counted (write db w) ws k (n + purged daily k db w) (m + purged monthly k db w)
        (write-Distinct db w d) x y in
    (omega (arith, u), omega (arith, v))
