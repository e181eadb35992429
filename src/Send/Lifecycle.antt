-- ===== src/Send/Lifecycle.antt =====
-- worker/src/mails_api/send_mail_limit_utils.ts: what becomes of a reservation, and of a second
-- request under its idempotency key.
use one_mail.Base.{
  In-first, In-select, In-updated, updated, ℕ, ◌≡◌, ◌⊎◌, inl, inr, refl, sym, ◌∙◌, subst, List, [],
  ◌∷◌, true, false, not, In, if◌then◌else◌, text_key, Bool-cases,
}
use one_mail.Send.{
  Status, active, committed, released, sent, is_active, is_released, Reservation, Database,
  update_rows, delete_rows,
}
use one_mail.Send.Writes.{Request, purge}
use one_mail.Send.Rows.{Distinct}
use one_mail.Send.Effects.{
  Turns, rests, starts, succeeds, confirms, rejects, commits, releases, Effect, unchanged, updates,
  deletes, inserts, follows, is_purged, is_purged-inactive, purge-cases, write-Effect,
}
use one_mail.Send.Unique.{write-Distinct}
use one_mail.Send.History.{Write, purge_write, write, write_all}

abbrev pub Delivered : Reservation → Type 0
Delivered r = (r.dispatch_state ≡ sent) × (is_released r.status ≡ false)

Turns-Delivered : (r s : Reservation) → Turns r s → Delivered r → Delivered s
Turns-Delivered r s (rests a b) (x, y) = (b ∙ x, rw a y)
Turns-Delivered r s (starts a b c d) (x, y) = cc
Turns-Delivered r s (succeeds a b c d) (x, y) = cc
Turns-Delivered r s (confirms a b c d) (x, y) = cc
Turns-Delivered r s (rejects a b c d) (x, y) = cc
Turns-Delivered r s (commits a b c d) (x, y) = (d, rw c refl)
Turns-Delivered r s (releases a b c d) (x, y) = cc

-- A row of the table that has the id and the key of a reservation and is delivered.
abbrev pub Standing : Reservation → List Reservation → Type 0
Standing r rows =
    (s : Reservation) × In s rows
    × (s.id ≡ r.id)
    × (s.idempotency_key ≡ r.idempotency_key)
    × Delivered s

Standing-then :
    (r : Reservation) (rows more : List Reservation)
    → Standing r rows
    → ((s : Reservation) → In s rows → Delivered s → Standing s more)
    → Standing r more
Standing-then r rows more (s, i, a, b, h) f =
    let (t, j, c, d, k) = f s i h in (t, j, c ∙ a, d ∙ b, k)

-- No write but a purge deletes it.
Effect-Standing :
    {Q : Request → Type 0} (a b : Database) (r : Reservation)
    → Effect Q a b
    → In r a.reservations
    → Delivered r
    → Standing r b.reservations
unfolding update_rows delete_rows
Effect-Standing a b r (unchanged _ _ e _ _) i h = (r, subst (In r) (sym e) i, refl, refl, h)
Effect-Standing a b r (updates p f _ m) i h = elim (Bool-cases (p r)) [
  | inl e ↦
      let v = m r i e in
      (
        f r,
        subst (λ x. In (if x then f r else r) (updated p f a.reservations)) e
            (In-updated p f a.reservations r i),
        v.same_id,
        v.same_idempotency_key,
        Turns-Delivered r (f r) v.turns h,
      )
  | inr e ↦ (
    r,
    subst (λ x. In (if x then f r else r) (updated p f a.reservations)) e
        (In-updated p f a.reservations r i),
    refl,
    refl,
    h,
  )
]
Effect-Standing a b r (deletes p _ d) i h = elim (Bool-cases (p r)) [
  | inl e ↦ let x = d r i e in let y = h.1 in cc
  | inr e ↦ (r, In-select (λ s. not (p s)) a.reservations r i (rw e refl), refl, refl, h)
]
Effect-Standing a b r (inserts q _ _ _ _ _) i h = (r, In-first a.reservations _ r i, refl, refl, h)
Effect-Standing a c r (follows _ b _ x y) i h =
    Standing-then r b.reservations c.reservations (Effect-Standing a b r x i h)
      (λ s j k. Effect-Standing b c s y j k)

committed_of : (s : Status) → is_active s ≡ false → is_released s ≡ false → s ≡ committed
committed_of active a b = cc
committed_of committed a b = refl
committed_of released a b = cc

-- A purge of the sequence takes the row out of the table of its time, where it stands under the id
-- and key of the reservation, delivered and committed.
pub data Purged (r : Reservation) : Database → List Write → Type 0 where
  purged_now :
      (db : Database) (before batch : ℕ) (ws : List Write) (s : Reservation)
      → In s db.reservations
      → s.id ≡ r.id
      → s.idempotency_key ≡ r.idempotency_key
      → Delivered s
      → s.status ≡ committed
      → is_purged before batch db s ≡ true
      → Purged r db (purge_write before batch ∷ ws)
  purged_later :
      (db : Database) (w : Write) (ws : List Write)
      → Purged r (write db w) ws
      → Purged r db (w ∷ ws)

Purged-same :
    (r s : Reservation) (db : Database) (ws : List Write)
    → s.id ≡ r.id
    → s.idempotency_key ≡ r.idempotency_key
    → Purged s db ws
    → Purged r db ws
Purged-same r s db ws a b (purged_now _ before batch _ t i x y h c p) =
    purged_now db before batch _ t i (x ∙ a) (y ∙ b) h c p
Purged-same r s db ws a b (purged_later _ w _ x) =
    purged_later db w _ (Purged-same r s (write db w) _ a b x)

-- One write leaves the reservation in the table, or is the purge that deletes it.
write-Standing :
    (db : Database) (w : Write) (ws : List Write) (r : Reservation)
    → Distinct db.reservations
    → In r db.reservations
    → Delivered r
    → Standing r (write db w).reservations ⊎ Purged r db (w ∷ ws)
unfolding write purge delete_rows
write-Standing db w ws r d i h = elim (purge-cases w) [
  | inl e ↦ inl (Effect-Standing db (write db w) r (write-Effect db w d e) i h)
  | inr (before, batch, e) ↦
      subst (λ x. Standing r (write db x).reservations ⊎ Purged r db (x ∷ ws)) (sym e)
        (elim (Bool-cases (is_purged before batch db r)) [
          | inl p ↦
              let c = committed_of r.status (is_purged-inactive before batch db d r i p) h.1 in
              inr (purged_now db before batch ws r i refl refl h c p)
          | inr p ↦ inl (
            r,
            In-select (λ s. not (is_purged before batch db s)) db.reservations r i (rw p refl),
            refl,
            refl,
            h,
          )
        ])
]

-- A mail that a provider has taken never gives its slot back: through any sequence of writes its
-- reservation stands in the table under its id and idempotency key, sent and not released, or one of
-- the purges of the sequence deletes it from the table of its time, where it is committed.
pub write_all-Delivered :
    (db : Database) (ws : List Write) (r : Reservation)
    → Distinct db.reservations
    → In r db.reservations
    → Delivered r
    → Standing r (write_all db ws).reservations ⊎ Purged r db ws
unfolding write_all
write_all-Delivered db [] r d i h = inl (r, i, refl, refl, h)
write_all-Delivered db (w ∷ ws) r d i h = elim (write-Standing db w ws r d i h) [
  | inr p ↦ inr p
  | inl (s, j, a, b, k) ↦ elim (write_all-Delivered (write db w) ws s (write-Distinct db w d) j k) [
    | inr p ↦ inr (purged_later db w ws (Purged-same r s (write db w) ws a b p))
    | inl (t, l, x, y, m) ↦ inl (t, l, x ∙ a, y ∙ b, m)
  ]
]
