-- ===== src/Send/Replays.antt =====
-- worker/src/mails_api/send_mail_limit_utils.ts: a second request under an idempotency key.
use one_mail.Base.{
  In-updated, updated, ℕ, ◌≡◌, inl, inr, refl, ap, ◌∙◌, subst, String, Option, some, List, [], ◌∷◌,
  true, false, ◌||◌, In, find, includes, if◌then◌else◌, text_key, arith, Bool-cases,
}
use one_mail.Send.{
  released, is_committed, is_released, is_sent, Reservation, Database, select_ids, update_rows,
}
use one_mail.Send.Writes.{Request, same_key, is_expired, with_status, release_expired}
use one_mail.Send.Rows.{Distinct, select_ids-holds}
use one_mail.Send.Effects.{release_expired-Effect}
use one_mail.Send.Unique.{Effect-Distinct}
use one_mail.Send.Limits.{
  Reserved, replay_sent, replay_unknown, conflict, with_key, same_hash, replay, look_up,
  reserve_slot,
}
use one_mail.Send.History.{Write}

same_key_self : (a : Option String) (key : String) → a ≡ some key → same_key a (some key) ≡ true
same_key_self a key e = ground arith

find-key :
    (rows : List Reservation) (r : Reservation) (key : String)
    → Distinct rows
    → In r rows
    → r.idempotency_key ≡ some key
    → find (λ (s : Reservation). same_key s.idempotency_key (some key)) rows ≡ some r
find-key [] r key d i e = elim i [ ]
find-key (s ∷ rows) r key d (inl p) e =
    let m = same_key_self s.idempotency_key key (ap (λ x. x.idempotency_key) p ∙ e) in
    rw m (ap some p)
find-key (s ∷ rows) r key d (inr i) e =
    let c : same_key s.idempotency_key r.idempotency_key ≡ false = ground (arith, d.0 r i) in
    let n = subst (λ k. same_key s.idempotency_key k ≡ false) e c in
    rw n (find-key rows r key d.1 i e)

-- A row that has not expired is not touched by the release of expired rows.
release_expired-keeps :
    (now batch : ℕ) (db : Database) (r : Reservation)
    → Distinct db.reservations
    → In r db.reservations
    → is_expired now r ≡ false
    → In r (release_expired now batch db).0.reservations
unfolding release_expired update_rows
release_expired-keeps now batch db r d i n =
    let ids = select_ids (is_expired now) (λ s. s.expires_at) batch db.reservations in
    let p = λ (s : Reservation). includes ids s.id in
    elim (Bool-cases (p r)) [
      | inl e ↦
          let h =
            select_ids-holds (is_expired now) (λ s. s.expires_at) batch db.reservations d r i e in
          cc
      | inr e ↦
          subst
            (λ b.
              In (if b then with_status released now r else r)
                (updated p (with_status released now) db.reservations))
            e (In-updated p (with_status released now) db.reservations r i)
    ]

-- The answer for a key that a reservation holds.
abbrev pub answer_for : Reservation → Option String → Reserved
answer_for r hash =
    if same_hash r.request_hash hash
    then (if is_committed r.status || is_sent r.dispatch_state
        then replay_sent r.id
        else replay_unknown r.id)
    else conflict

replay-held :
    (r : Reservation) (hash : Option String)
    → is_released r.status ≡ false
    → replay r hash ≡ some (answer_for r hash)
unfolding replay
replay-held r hash h = ground arith

look_up-held :
    (q : Request) (db : Database) (r : Reservation) (key : String)
    → q.idempotency_key ≡ some key
    → with_key (some key) db ≡ some r
    → is_released r.status ≡ false
    → look_up q db ≡ (db, some (answer_for r q.request_hash))
unfolding look_up
look_up-held q db r key a b c = simp (look_up, a, b, replay-held r q.request_hash c) refl

-- A mail is reserved once for an idempotency key: while a reservation holds the key, neither released
-- nor expired, another request under the key never makes a second one. It is a conflict where the
-- request is another, and otherwise the answer tells whether the mail was sent; the table is
-- changed by the release of expired rows alone.
pub reserve_slot-replays :
    (db : Database) (r : Reservation) (q : Request) (key : String) (started : ℕ)
    (others : List Write)
    → Distinct db.reservations
    → In r db.reservations
    → r.idempotency_key ≡ some key
    → q.idempotency_key ≡ some key
    → is_released r.status ≡ false
    → is_expired started r ≡ false
    → reserve_slot started others q db
      ≡ ((release_expired started 100 db).0, answer_for r q.request_hash)
unfolding reserve_slot
reserve_slot-replays db r q key started others d i a b c n =
    let db₁ = (release_expired started 100 db).0 in
    let d₁ = Effect-Distinct db db₁ (release_expired-Effect {Q = λ q. Unit} started 100 db d) d in
    let j = release_expired-keeps started 100 db r d i n in
    let f = find-key db₁.reservations r key d₁ j a in
    let h = look_up-held q db₁ r key b f c in
    rw (reserve_slot, h) (ap (λ x. (x.0, answer_for r q.request_hash)) h)
