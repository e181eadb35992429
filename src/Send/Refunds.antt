-- ===== src/Send/Refunds.antt =====
-- worker/src/mails_api: the refund of a balance after the operator has rejected a mail.
use one_mail.Base.{
  select, updated, ℕ, zero, suc, ◌+◌, ◌≡◌, refl, sym, ap, ◌∙◌, subst, String, some, List, [], ◌∷◌,
  Bool, true, false, ◌&&◌, get, put, get-put_self, any, length, ◌==◌, text_key, arith,
}
use one_mail.Send.{Reservation, Sender, Database, fired, lower_counts, update_rows}
use one_mail.Send.Writes.{same_key}
use one_mail.Send.Balance.{
  refund_send_balance, is_refundable, is_joined, is_marked, as_refunded, refund_joined,
  refund_resolved,
}

-- An update that takes no row changes nothing.
updated-none :
    (p : Reservation → Bool) (f : Reservation → Reservation) (rows : List Reservation)
    → ((r : Reservation) → p r ≡ false)
    → (updated p f rows ≡ rows) × (fired p f rows ≡ []) × (length (select p rows) ≡ 0)
updated-none p f [] h = (refl, refl, refl)
updated-none p f (r ∷ rows) h =
    let (a, b, c) = updated-none p f rows h in rw (h r) (ap (◌∷◌ r) a, b, c)

update_rows-none :
    (p : Reservation → Bool) (f : Reservation → Reservation) (db : Database)
    → ((r : Reservation) → p r ≡ false)
    → update_rows p f db ≡ (db, 0)
unfolding update_rows lower_counts
update_rows-none p f db h = let (a, b, c) = updated-none p f db.reservations h in rw (a, b, c) refl

-- The refund again and again, as an operator may ask for it.
abbrev pub refund_times : ℕ → (id address address_id : String) → ℕ → Database → Database
refund_times zero id address address_id now db = db
refund_times (suc n) id address address_id now db =
    refund_times n id address address_id now (refund_resolved id address address_id now db).0

module _ (id address address_id : String) (now : ℕ) where
  -- A released reservation with a balance to refund, whose address is the one that its id has, and
  -- whose address is not named by that id.
  abbrev pub Refundable : Database → Type 0
  Refundable db =
      (any (λ r. is_refundable id address_id r && is_joined db r) db.reservations ≡ true)
      × (same_key (get db.addresses address_id) (some address_id) ≡ false)

  refund_joined-adds :
      (db : Database)
      → any (λ r. is_refundable id address_id r && is_joined db r) db.reservations ≡ true
      → refund_joined id address address_id db ≡ refund_send_balance address db
  unfolding refund_joined
  refund_joined-adds db h = rw h refl

  refund_send_balance-addresses :
      (db : Database) → (refund_send_balance address db).addresses ≡ db.addresses
  unfolding refund_send_balance
  refund_send_balance-addresses db = ground arith

  refund_resolved-unmarked :
      (db : Database)
      → Refundable db
      → refund_resolved id address address_id now db ≡ (refund_send_balance address db, false)
  unfolding refund_resolved
  refund_resolved-unmarked db (h, n) =
      let db₁ = refund_joined id address address_id db in
      let j = refund_joined-adds db h in
      let a : db₁.addresses ≡ db.addresses =
        ap (λ x. x.addresses) j ∙ refund_send_balance-addresses db in
      let f : same_key (get db₁.addresses address_id) (some address_id) ≡ false = rw a n in
      let m : (r : Reservation) → is_marked id address address_id db₁ r ≡ false =
        λ r. ground (arith, f) in
      let e = update_rows-none (is_marked id address address_id db₁) (as_refunded now) db₁ m in
      ap (λ (x : Database × ℕ). (x.0, x.1 == 1)) e ∙ ap (λ x. (x, false)) j

  refund_send_balance-lem :
      (db : Database) (s : Sender)
      → get db.senders address ≡ some s
      → Refundable db
      → (get (refund_send_balance address db).senders address
          ≡ some (record s { balance = s.balance + 1 }))
        × Refundable (refund_send_balance address db)
        × ((refund_send_balance address db).reservations ≡ db.reservations)
  unfolding refund_send_balance
  refund_send_balance-lem db s e h =
      let x = record db {
        senders = put db.senders address (record s { balance = s.balance + 1 });
      } in
      let q : refund_send_balance address db ≡ x = rw (refund_send_balance, e) refl in
      rw q (get-put_self db.senders address _, h, refl)

  -- The sender has the balance, the reservations are those, and another refund answers no.
  abbrev pub Refunded : ℕ → Sender → List Reservation → Database → Type 0
  Refunded total s rows db =
      (get db.senders address ≡ some (record s { balance = total }))
      × (db.reservations ≡ rows)
      × ((refund_resolved id address address_id now db).1 ≡ false)

  -- The refund of a rejected mail is not once only: while the address of a reservation is not named by
  -- its own id, each of any number of refunds adds one to the balance of the sender, answers that
  -- nothing was refunded, and leaves the reservations as they were.
  pub refund_times-balance :
      (n : ℕ) (db : Database) (s : Sender)
      → get db.senders address ≡ some s
      → Refundable db
      → Refunded (s.balance + n) s db.reservations (refund_times n id address address_id now db)
  refund_times-balance zero db s e h =
      let z : s.balance + 0 ≡ s.balance = omega arith in
      (rw z e, refl, ap (λ x. x.1) (refund_resolved-unmarked db h))
  refund_times-balance (suc n) db s e h =
      let q : (refund_resolved id address address_id now db).0 ≡ refund_send_balance address db =
        ap (λ x. x.0) (refund_resolved-unmarked db h) in
      let (a, b, c) = refund_send_balance-lem db s e h in
      let (x, y, z) =
        refund_times-balance n (refund_send_balance address db)
          (record s { balance = s.balance + 1 }) a b in
      let p : s.balance + suc n ≡ s.balance + 1 + n = omega arith in
      subst
        (λ d.
          Refunded (s.balance + suc n) s db.reservations
            (refund_times n id address address_id now d))
        (sym q) (simp p (x, y ∙ c, z))
