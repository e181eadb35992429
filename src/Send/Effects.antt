-- ===== src/Send/Effects.antt =====
-- worker/src/mails_api: what a write does to the reservations and the counters.
use one_mail.Base.{
  ℕ, ◌≡◌, ◌⊎◌, inl, inr, refl, String, [], ◌∷◌, ◌++◌, Bool, true, false, ◌&&◌, any, includes, In,
  text_key, arith, Bool-cases,
}
use one_mail.Send.{
  Status, active, committed, released, Dispatch, pending, unknown, sent, is_active, is_released,
  is_pending, is_unknown, is_sent, Reservation, Database, raise_count, update_rows, delete_rows,
  select_ids,
}
use one_mail.Send.Writes.{
  Request, new_row, has_room, in_phase, is_expired, was_sent, is_purgeable, as_confirmed,
  lacks_balance, with_balance, is_released_row, with_status, with_dispatch, release_expired,
  promote_sent, confirm_sent, reject_unknown, settle, advance_dispatch, mark_balance_reserved,
  delete_released, insert_reservation,
}
use one_mail.Send.Balance.{
  ensure_default_send_balance, reserve_send_balance, refund_send_balance, refund_joined,
  refund_resolved, is_refundable, is_joined, is_marked, as_refunded,
}
use one_mail.Send.Rows.{clashes, Distinct, select_ids-holds}
use one_mail.Send.History.{
  Write, release_expired_write, purge_write, promote_sent_write, confirm_sent_write,
  reject_unknown_write, settle_write, dispatch_started_write, dispatch_succeeded_write,
  mark_balance_write, refund_resolved_write, delete_released_write, insert_write,
  ensure_balance_write, reserve_balance_write, refund_balance_write, write,
}

-- The phases of a reservation, and the moves between them.
pub data Turns (r s : Reservation) : Type 0 where
  rests : s.status ≡ r.status → s.dispatch_state ≡ r.dispatch_state → Turns r s
  starts :
      r.status ≡ active
      → r.dispatch_state ≡ pending
      → s.status ≡ active
      → s.dispatch_state ≡ unknown
      → Turns r s
  succeeds :
      r.status ≡ active
      → r.dispatch_state ≡ unknown
      → s.status ≡ active
      → s.dispatch_state ≡ sent
      → Turns r s
  confirms :
      r.status ≡ active
      → r.dispatch_state ≡ unknown
      → s.status ≡ committed
      → s.dispatch_state ≡ sent
      → Turns r s
  rejects :
      r.status ≡ active
      → r.dispatch_state ≡ unknown
      → s.status ≡ active
      → s.dispatch_state ≡ pending
      → Turns r s
  commits :
      r.status ≡ active
      → r.dispatch_state ≡ sent
      → s.status ≡ committed
      → s.dispatch_state ≡ sent
      → Turns r s
  releases :
      r.status ≡ active
      → r.dispatch_state ≡ pending
      → s.status ≡ released
      → s.dispatch_state ≡ pending
      → Turns r s

-- A move keeps what identifies a reservation and the counters that it holds.
pub record Moves (r s : Reservation) : Type 0 where
  pub same_id : s.id ≡ r.id
  pub same_idempotency_key : s.idempotency_key ≡ r.idempotency_key
  pub same_request : s.request_hash ≡ r.request_hash
  pub same_daily : s.daily_key ≡ r.daily_key
  pub same_monthly : s.monthly_key ≡ r.monthly_key
  pub turns : Turns r s

-- The steps that writes consist of; an insertion is one of the requests in `Q`.
pub data Effect (Q : Request → Type 0) : Database → Database → Type 0 where
  unchanged :
      (a b : Database)
      → b.reservations ≡ a.reservations
      → b.daily_counts ≡ a.daily_counts
      → b.monthly_counts ≡ a.monthly_counts
      → Effect Q a b
  updates :
      (p : Reservation → Bool) (f : Reservation → Reservation) (a : Database)
      → ((r : Reservation) → In r a.reservations → p r ≡ true → Moves r (f r))
      → Effect Q a (update_rows p f a).0
  deletes :
      (p : Reservation → Bool) (a : Database)
      → ((r : Reservation) → In r a.reservations → p r ≡ true → is_released r.status ≡ true)
      → Effect Q a (delete_rows p a).0
  inserts :
      (q : Request) (a : Database)
      → Q q
      → any (λ r. clashes r (new_row q)) a.reservations ≡ false
      → has_room a.daily_counts q.daily_key q.daily_limit ≡ true
      → has_room a.monthly_counts q.monthly_key q.monthly_limit ≡ true
      → Effect Q a (record a {
        reservations = a.reservations ++ (new_row q ∷ []);
        daily_counts = raise_count a.daily_counts q.daily_key;
        monthly_counts = raise_count a.monthly_counts q.monthly_key;
      })
  follows : (a b c : Database) → Effect Q a b → Effect Q b c → Effect Q a c

active_of : (s : Status) → is_active s ≡ true → s ≡ active
active_of active h = refl
active_of committed h = cc
active_of released h = cc

pending_of : (d : Dispatch) → is_pending d ≡ true → d ≡ pending
pending_of pending h = refl
pending_of unknown h = cc
pending_of sent h = cc

unknown_of : (d : Dispatch) → is_unknown d ≡ true → d ≡ unknown
unknown_of unknown h = refl
unknown_of pending h = cc
unknown_of sent h = cc

sent_of : (d : Dispatch) → is_sent d ≡ true → d ≡ sent
sent_of sent h = refl
sent_of pending h = cc
sent_of unknown h = cc

-- A row that a write by id and dispatch state takes.
phase_of :
    (id : String) (d : Dispatch) (r : Reservation)
    → in_phase id d r ≡ true
    → (r.status ≡ active) × (r.dispatch_state ≡ d)
phase_of id pending r h =
    (active_of r.status (ground arith), pending_of r.dispatch_state (ground arith))
phase_of id unknown r h =
    (active_of r.status (ground arith), unknown_of r.dispatch_state (ground arith))
phase_of id sent r h = (active_of r.status (ground arith), sent_of r.dispatch_state (ground arith))

moved :
    (r : Reservation) (status : Status) (state : Dispatch) (now : ℕ)
    → Turns r (record r { status = status; dispatch_state = state; updated_at = now })
    → Moves r (record r { status = status; dispatch_state = state; updated_at = now })
moved r status state now t = record {
  same_id = refl;
  same_idempotency_key = refl;
  same_request = refl;
  same_daily = refl;
  same_monthly = refl;
  turns = t;
}

module _ {Q : Request → Type 0} where
  pub release_expired-Effect :
      (now batch : ℕ) (db : Database)
      → Distinct db.reservations
      → Effect Q db (release_expired now batch db).0
  unfolding release_expired
  release_expired-Effect now batch db v =
      let ids = select_ids (is_expired now) (λ r. r.expires_at) batch db.reservations in
      updates (λ r. includes ids r.id) (with_status released now) db
        λ r i h.
          let c =
            select_ids-holds (is_expired now) (λ r. r.expires_at) batch db.reservations v r i h in
          let a : r.status ≡ active = active_of r.status (ground arith) in
          let b : r.dispatch_state ≡ pending = pending_of r.dispatch_state (ground arith) in
          moved r released r.dispatch_state now (releases a b refl b)

  promote_sent-Effect : (now : ℕ) (db : Database) → Effect Q db (promote_sent now db).0
  unfolding promote_sent
  promote_sent-Effect now db = updates was_sent (with_status committed now) db λ r i h.
      let a : r.status ≡ active = active_of r.status (ground arith) in
      let b : r.dispatch_state ≡ sent = sent_of r.dispatch_state (ground arith) in
      moved r committed r.dispatch_state now (commits a b refl b)

  -- The writes by id and state.
  phase-Effect :
      (id : String) (d : Dispatch) (f : Reservation → Reservation) (db : Database)
      → ((r : Reservation) → r.status ≡ active → r.dispatch_state ≡ d → Moves r (f r))
      → Effect Q db (update_rows (in_phase id d) f db).0
  phase-Effect id d f db m =
      updates (in_phase id d) f db λ r i h. let (a, b) = phase_of id d r h in m r a b

  confirm_sent-Effect :
      (id : String) (now : ℕ) (db : Database) → Effect Q db (confirm_sent id now db).0
  unfolding confirm_sent
  confirm_sent-Effect id now db =
      phase-Effect id unknown (as_confirmed now) db
        λ r a b. moved r committed sent now (confirms a b refl refl)

  reject_unknown-Effect :
      (id : String) (now : ℕ) (db : Database) → Effect Q db (reject_unknown id now db).0
  unfolding reject_unknown
  reject_unknown-Effect id now db =
      let db₁ = (update_rows (in_phase id unknown) (with_dispatch pending now) db).0 in
      follows db db₁ _
        (phase-Effect id unknown (with_dispatch pending now) db
          λ r a b. moved r r.status pending now (rejects a b a refl))
        (phase-Effect id pending (with_status released now) db₁
          λ r a b. moved r released r.dispatch_state now (releases a b refl b))

  settle-Effect :
      (id : String) (commits_it : Bool) (now : ℕ) (db : Database)
      → Effect Q db (settle id commits_it now db).0
  unfolding settle
  settle-Effect id true now db =
      phase-Effect id sent (with_status committed now) db
        λ r a b. moved r committed r.dispatch_state now (commits a b refl b)
  settle-Effect id false now db =
      phase-Effect id pending (with_status released now) db
        λ r a b. moved r released r.dispatch_state now (releases a b refl b)

  advance-Effect :
      (id : String) (now : ℕ) (db : Database)
      → Effect Q db (advance_dispatch id false pending now db).0
        × Effect Q db (advance_dispatch id true unknown now db).0
  unfolding advance_dispatch
  advance-Effect id now db = (
    (phase-Effect id pending (with_dispatch unknown now) db
        λ r a b. moved r r.status unknown now (starts a b a refl)),
    (phase-Effect id unknown (with_dispatch sent now) db
        λ r a b. moved r r.status sent now (succeeds a b a refl)),
  )

  mark_balance-Effect :
      (id address address_id : String) (now : ℕ) (db : Database)
      → Effect Q db (mark_balance_reserved id address address_id now db).0
  unfolding mark_balance_reserved
  mark_balance-Effect id address address_id now db =
      updates (lacks_balance id) (with_balance address address_id now) db λ r i h. record {
        same_id = refl;
        same_idempotency_key = refl;
        same_request = refl;
        same_daily = refl;
        same_monthly = refl;
        turns = rests refl refl;
      }

  delete_released-Effect : (id : String) (db : Database) → Effect Q db (delete_released id db).0
  unfolding delete_released
  delete_released-Effect id db = deletes (is_released_row id) db λ r i h. ground arith

  insert-Effect : (q : Request) (db : Database) → Q q → Effect Q db (insert_reservation q db).0
  unfolding insert_reservation
  insert-Effect q db h =
      let daily = has_room db.daily_counts q.daily_key q.daily_limit in
      let monthly = has_room db.monthly_counts q.monthly_key q.monthly_limit in
      elim (Bool-cases (daily && monthly)) [
        | inr e ↦ rw e (unchanged db db refl refl refl)
        | inl e ↦ elim (Bool-cases (any (λ r. clashes r (new_row q)) db.reservations)) [
          | inl t ↦ rw (e, t) (unchanged db db refl refl refl)
          | inr t ↦ rw (e, t) (inserts q db h t (ground arith) (ground arith))
        ]
      ]

  -- A write to the balances alone.
  balance-Effect :
      (db : Database) (address : String) (default : ℕ)
      → Effect Q db (ensure_default_send_balance default address db)
        × Effect Q db (reserve_send_balance address db).0
        × Effect Q db (refund_send_balance address db)
  unfolding ensure_default_send_balance reserve_send_balance refund_send_balance
  balance-Effect db address default = (
    unchanged db _ (ground arith) (ground arith) (ground arith),
    unchanged db _ (ground arith) (ground arith) (ground arith),
    unchanged db _ (ground arith) (ground arith) (ground arith),
  )

  refund_resolved-Effect :
      (id address address_id : String) (now : ℕ) (db : Database)
      → Effect Q db (refund_resolved id address address_id now db).0
  unfolding refund_resolved refund_joined
  refund_resolved-Effect id address address_id now db =
      let db₁ = refund_joined id address address_id db in
      let start : Effect Q db db₁ =
        elim (Bool-cases
          (any (λ r. is_refundable id address_id r && is_joined db r) db.reservations)) [
            | inl e ↦ rw e (balance-Effect db address 0).2
            | inr e ↦ rw e (unchanged db db refl refl refl)
          ] in
      follows db db₁ _ start (
        updates (is_marked id address address_id db₁) (as_refunded now) db₁ λ r i h. record {
          same_id = refl;
          same_idempotency_key = refl;
          same_request = refl;
          same_daily = refl;
          same_monthly = refl;
          turns = rests refl refl;
        })

-- The rows that a purge deletes.
abbrev pub is_purged : ℕ → ℕ → Database → Reservation → Bool
is_purged before batch db r =
    includes (select_ids (is_purgeable before) (λ s. s.updated_at) batch db.reservations) r.id

-- A purge takes no active row.
pub is_purged-inactive :
    (before batch : ℕ) (db : Database)
    → Distinct db.reservations
    → (r : Reservation) → In r db.reservations
    → is_purged before batch db r ≡ true
    → is_active r.status ≡ false
is_purged-inactive before batch db v r i h =
    let c =
      select_ids-holds (is_purgeable before) (λ s. s.updated_at) batch db.reservations v r i h in
    ground arith

abbrev pub is_purge : Write → Bool
is_purge (purge_write before batch) = true
is_purge _ = false

pub purge-cases :
    (w : Write)
    → (is_purge w ≡ false) ⊎ ((before : ℕ) × (batch : ℕ) × (w ≡ purge_write before batch))
purge-cases (purge_write before batch) = inr (before, batch, refl)
purge-cases w = inl refl

pub write-Effect :
    (db : Database) (w : Write)
    → Distinct db.reservations
    → is_purge w ≡ false
    → Effect (λ q. w ≡ insert_write q) db (write db w)
unfolding write
write-Effect db (release_expired_write now batch) v h = release_expired-Effect now batch db v
write-Effect db (purge_write before batch) v h = cc
write-Effect db (promote_sent_write now) v h = promote_sent-Effect now db
write-Effect db (confirm_sent_write id now) v h = confirm_sent-Effect id now db
write-Effect db (reject_unknown_write id now) v h = reject_unknown-Effect id now db
write-Effect db (settle_write id commits_it now) v h = settle-Effect id commits_it now db
write-Effect db (dispatch_started_write id now) v h = (advance-Effect id now db).0
write-Effect db (dispatch_succeeded_write id now) v h = (advance-Effect id now db).1
write-Effect db (mark_balance_write id address address_id now) v h =
    mark_balance-Effect id address address_id now db
write-Effect db (refund_resolved_write id address address_id now) v h =
    refund_resolved-Effect id address address_id now db
write-Effect db (delete_released_write id) v h = delete_released-Effect id db
write-Effect db (insert_write q) v h = insert-Effect q db refl
write-Effect db (ensure_balance_write default address) v h = (balance-Effect db address default).0
write-Effect db (reserve_balance_write address) v h = (balance-Effect db address 0).1
write-Effect db (refund_balance_write address) v h = (balance-Effect db address 0).2
