-- ===== src/Send/Writes.antt =====
-- worker/src/mails_api/send_mail_limit_utils.ts and send_balance.ts: each write to the database as
-- one step. A batch of D1 is one transaction, so it is one step too.
use one_mail.Base.{
  ℕ, ◌+◌, ◌*◌, String, Option, none, some, [], ◌∷◌, ◌++◌, Bool, true, false, not, ◌&&◌, ◌||◌, Dict,
  any, includes, ltb, leb, ◌===◌, if◌then◌else◌, text_key, nat_key,
}
use one_mail.Send.{
  Status, active, committed, released, Dispatch, pending, unknown, sent, is_active, is_committed,
  is_released, is_pending, is_sent, same_dispatch, Reservation, Database, count_of, raise_count,
  select_ids, update_rows, delete_rows,
}

-- What a write answers: the rows that it changed, or the failure of a uniqueness constraint.
pub data Answer : Type 0 where
  changes : ℕ → Answer
  constraint : Answer

-- `RESERVATION_TTL_MS`
abbrev pub reservation_ttl_ms : ℕ
reservation_ttl_ms = 15 * 60 * 1000

abbrev pub with_status : Status → ℕ → Reservation → Reservation
with_status status now r = record r { status = status; updated_at = now }

abbrev pub with_dispatch : Dispatch → ℕ → Reservation → Reservation
with_dispatch state now r = record r { dispatch_state = state; updated_at = now }

-- The rows of an id that are active and in a state of the dispatch.
abbrev pub in_phase : String → Dispatch → Reservation → Bool
in_phase id state r = r.id === id && is_active r.status && same_dispatch state r.dispatch_state

abbrev pub is_expired : ℕ → Reservation → Bool
is_expired now r = is_active r.status && is_pending r.dispatch_state && leb r.expires_at now

-- `releaseExpiredReservations`
unfoldable pub release_expired : ℕ → ℕ → Database → Database × ℕ
release_expired now batch db =
    let ids = select_ids (is_expired now) (λ r. r.expires_at) batch db.reservations in
    update_rows (λ r. includes ids r.id) (with_status released now) db

abbrev pub was_sent : Reservation → Bool
was_sent r = is_active r.status && is_sent r.dispatch_state

-- The first write of `reconcileSendMailLimitReservations`.
unfoldable pub promote_sent : ℕ → Database → Database × ℕ
promote_sent now db = update_rows was_sent (with_status committed now) db

abbrev pub is_purgeable : ℕ → Reservation → Bool
is_purgeable before r = (is_released r.status || is_committed r.status) && ltb r.updated_at before

-- Its last write.
unfoldable pub purge : ℕ → ℕ → Database → Database × ℕ
purge before batch db =
    let ids = select_ids (is_purgeable before) (λ r. r.updated_at) batch db.reservations in
    delete_rows (λ r. includes ids r.id) db

abbrev pub as_confirmed : ℕ → Reservation → Reservation
as_confirmed now r = record r { dispatch_state = sent; status = committed; updated_at = now }

-- The writes of `resolveUnknownSendMailReservation`.
unfoldable pub confirm_sent : String → ℕ → Database → Database × ℕ
confirm_sent id now db = update_rows (in_phase id unknown) (as_confirmed now) db

unfoldable pub reject_unknown : String → ℕ → Database → Database × ℕ
reject_unknown id now db =
    update_rows (in_phase id pending) (with_status released now)
      (update_rows (in_phase id unknown) (with_dispatch pending now) db).0

-- `updateReservationStatus`
unfoldable pub settle : String → Bool → ℕ → Database → Database × ℕ
settle id commits now db =
    update_rows (in_phase id (if commits then sent else pending))
      (with_status (if commits then committed else released) now) db

-- `updateDispatchState`: to `unknown` or to `sent`.
unfoldable pub advance_dispatch : String → Bool → Dispatch → ℕ → Database → Database × ℕ
advance_dispatch id succeeds expected now db =
    update_rows (in_phase id expected) (with_dispatch (if succeeds then sent else unknown) now) db

abbrev pub lacks_balance : String → Reservation → Bool
lacks_balance id r = r.id === id && is_active r.status && not r.balance_reserved

abbrev pub with_balance : String → String → ℕ → Reservation → Reservation
with_balance address address_id now r = record r {
  sender_address = some address;
  sender_address_id = some address_id;
  balance_reserved = true;
  balance_refunded = false;
  updated_at = now;
}

-- `markBalanceReserved`
unfoldable pub mark_balance_reserved : String → String → String → ℕ → Database → Database × ℕ
mark_balance_reserved id address address_id now db =
    update_rows (lacks_balance id) (with_balance address address_id now) db

abbrev pub is_released_row : String → Reservation → Bool
is_released_row id r = r.id === id && is_released r.status

-- A released row gives its idempotency key back.
unfoldable pub delete_released : String → Database → Database × ℕ
delete_released id db = delete_rows (is_released_row id) db

-- The columns that an insertion gives.
pub record Request : Type 0 where
  pub id : String
  pub daily_key : Option ℕ
  pub monthly_key : Option ℕ
  pub daily_limit : Option ℕ
  pub monthly_limit : Option ℕ
  pub now : ℕ
  pub idempotency_key : Option String
  pub request_hash : Option String

-- `? IS NULL OR count < ?`: a comparison with no limit is not true.
abbrev pub has_room : Dict ℕ ℕ → Option ℕ → Option ℕ → Bool
has_room counts none limit = true
has_room counts (some key) none = false
has_room counts (some key) (some limit) = ltb (count_of counts key) limit

abbrev pub same_key : Option String → Option String → Bool
same_key (some a) (some b) = a === b
same_key _ _ = false

abbrev pub new_row : Request → Reservation
new_row q = record {
  id = q.id;
  daily_key = q.daily_key;
  monthly_key = q.monthly_key;
  daily_limit = q.daily_limit;
  monthly_limit = q.monthly_limit;
  status = active;
  created_at = q.now;
  updated_at = q.now;
  expires_at = q.now + reservation_ttl_ms;
  dispatch_state = pending;
  idempotency_key = q.idempotency_key;
  request_hash = q.request_hash;
  sender_address = none;
  sender_address_id = none;
  balance_reserved = false;
  balance_refunded = false;
}

-- `INSERT INTO send_mail_limit_reservations … SELECT … WHERE`, with the primary key, the unique
-- index on the idempotency key and the trigger.
unfoldable pub insert_reservation : Request → Database → Database × Answer
insert_reservation q db =
    let taken =
      any (λ (r : Reservation). r.id === q.id || same_key r.idempotency_key q.idempotency_key)
        db.reservations in
    if has_room db.daily_counts q.daily_key q.daily_limit
      && has_room db.monthly_counts q.monthly_key q.monthly_limit
    then (if taken then (db, constraint) else (
      record db {
        reservations = db.reservations ++ (new_row q ∷ []);
        daily_counts = raise_count db.daily_counts q.daily_key;
        monthly_counts = raise_count db.monthly_counts q.monthly_key;
      },
      changes 1,
    ))
    else (db, changes 0)
