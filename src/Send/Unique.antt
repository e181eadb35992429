-- ===== src/Send/Unique.antt =====
-- worker/src/mails_api/send_mail_limit_utils.ts: the primary key and the unique index hold in every
-- state that writes reach.
use one_mail.Base.{
  In-updated_inv, updated, ℕ, ◌≡◌, inl, inr, refl, sym, subst, List, [], ◌∷◌, Bool, true, false,
  not, In, if◌then◌else◌, text_key, Bool-cases,
}
use one_mail.Send.{Reservation, Database, update_rows, delete_rows}
use one_mail.Send.Writes.{purge, Request}
use one_mail.Send.Rows.{clashes, Distinct, Distinct-select, Distinct-append}
use one_mail.Send.Effects.{
  Moves, Effect, unchanged, updates, deletes, inserts, follows, purge-cases, write-Effect,
}
use one_mail.Send.History.{Write, purge_write, write, write_all}

-- What an update makes of a row.
abbrev pub image : (Reservation → Bool) → (Reservation → Reservation) → Reservation → Reservation
image p f r = if p r then f r else r

abbrev pub Moving : (Reservation → Bool) → (Reservation → Reservation) → List Reservation → Type 0
Moving p f rows = (r : Reservation) → In r rows → p r ≡ true → Moves r (f r)

image-keeps :
    (p : Reservation → Bool) (f : Reservation → Reservation) (r : Reservation)
    → (p r ≡ true → Moves r (f r))
    → ((image p f r).id ≡ r.id) × ((image p f r).idempotency_key ≡ r.idempotency_key)
image-keeps p f r m = elim (Bool-cases (p r)) [
  | inl e ↦ rw e ((m e).same_id, (m e).same_idempotency_key)
  | inr e ↦ rw e (refl, refl)
]

image-clashes :
    (r s r' s' : Reservation)
    → (r'.id ≡ r.id) × (r'.idempotency_key ≡ r.idempotency_key)
    → (s'.id ≡ s.id) × (s'.idempotency_key ≡ s.idempotency_key)
    → clashes r s ≡ false
    → clashes r' s' ≡ false
image-clashes r s r' s' a b h = rw (a.0, a.1, b.0, b.1) h

Distinct-updated :
    (p : Reservation → Bool) (f : Reservation → Reservation) (rows : List Reservation)
    → Moving p f rows
    → Distinct rows
    → Distinct (updated p f rows)
Distinct-updated p f [] m d = tt
Distinct-updated p f (r ∷ rows) m d = (
  (λ s' i.
      let (s, j, e) = In-updated_inv p f rows s' i in
      subst (λ x. clashes (image p f r) x ≡ false) e
        (image-clashes r s (image p f r) (image p f s) (image-keeps p f r (m r (inl refl)))
          (image-keeps p f s (m s (inr j))) (d.0 s j))),
  Distinct-updated p f rows (λ s j. m s (inr j)) d.1,
)

pub Effect-Distinct :
    {Q : Request → Type 0} (a b : Database)
    → Effect Q a b
    → Distinct a.reservations
    → Distinct b.reservations
unfolding update_rows delete_rows
Effect-Distinct a b (unchanged _ _ e _ _) d = subst Distinct (sym e) d
Effect-Distinct a b (updates p f _ m) d = Distinct-updated p f a.reservations m d
Effect-Distinct a b (deletes p _ _) d = Distinct-select (λ r. not (p r)) a.reservations d
Effect-Distinct a b (inserts q _ _ t _ _) d = Distinct-append a.reservations _ d t
Effect-Distinct a c (follows _ b _ x y) d = Effect-Distinct b c y (Effect-Distinct a b x d)

purge-Distinct :
    (before batch : ℕ) (db : Database)
    → Distinct db.reservations
    → Distinct (write db (purge_write before batch)).reservations
unfolding write purge delete_rows
purge-Distinct before batch db d = Distinct-select _ db.reservations d

pub write-Distinct :
    (db : Database) (w : Write) → Distinct db.reservations → Distinct (write db w).reservations
write-Distinct db w d = elim (purge-cases w) [
  | inl e ↦ Effect-Distinct db (write db w) (write-Effect db w d e) d
  | inr (before, batch, e) ↦
      subst (λ x. Distinct (write db x).reservations) (sym e) (purge-Distinct before batch db d)
]

-- However the writes of requests, of the scheduled reconciliation and of the operator follow each
-- other, no two reservations share their id or their idempotency key.
pub write_all-Distinct :
    (db : Database) (ws : List Write)
    → Distinct db.reservations
    → Distinct (write_all db ws).reservations
unfolding write_all
write_all-Distinct db [] d = d
write_all-Distinct db (w ∷ ws) d = write_all-Distinct (write db w) ws (write-Distinct db w d)
