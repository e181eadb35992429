-- ===== src/Send.antt =====
-- worker/src/mails_api: the tables that decide whether a mail may be sent. The schema and triggers
-- of `send_mail_limit_reservations` and the counters of `settings` are those of
-- send_mail_limit_utils.ts, `address_sender` and `address` those of send_balance.ts.
pub mod Writes
pub mod Balance
pub mod Limits
pub mod History
pub mod Rows
pub mod Effects
pub mod Unique
pub mod Slots
pub mod Counters
pub mod Capacity
pub mod Lifecycle
pub mod Replays
pub mod Refunds
pub mod Reroutes
mod Tests
use one_mail.Base.{
  select, updated, order_by, limit_to, ℕ, zero, suc, ◌+◌, ◌-◌, ◌*◌, ◌/◌, ◌%◌, String, Option, none,
  some, List, [], ◌∷◌, Bool, true, false, not, ◌&&◌, ◌||◌, Dict, get, put, any, includes, map, ltb,
  leb, ◌==◌, ◌===◌, if◌then◌else◌, length, held, text_key, nat_key,
}
use one_mail.Fleet.Parse.{codes}

pub data Status : Type 0 where
  active committed released : Status

pub data Dispatch : Type 0 where
  pending unknown sent : Dispatch

abbrev pub is_active : Status → Bool
is_active active = true
is_active _ = false

abbrev pub is_committed : Status → Bool
is_committed committed = true
is_committed _ = false

abbrev pub is_released : Status → Bool
is_released released = true
is_released _ = false

abbrev pub is_pending : Dispatch → Bool
is_pending pending = true
is_pending _ = false

abbrev pub is_unknown : Dispatch → Bool
is_unknown unknown = true
is_unknown _ = false

abbrev pub is_sent : Dispatch → Bool
is_sent sent = true
is_sent _ = false

abbrev pub same_dispatch : Dispatch → Dispatch → Bool
same_dispatch pending d = is_pending d
same_dispatch unknown d = is_unknown d
same_dispatch sent d = is_sent d

-- A row of `send_mail_limit_reservations`. A daily key is the number of its day, a monthly key that
-- of its month; the two flags of the balance are 0 or 1 in the table.
pub record Reservation : Type 0 where
  pub id : String
  pub daily_key : Option ℕ
  pub monthly_key : Option ℕ
  pub daily_limit : Option ℕ
  pub monthly_limit : Option ℕ
  pub status : Status
  pub created_at : ℕ
  pub updated_at : ℕ
  pub expires_at : ℕ
  pub dispatch_state : Dispatch
  pub idempotency_key : Option String
  pub request_hash : Option String
  pub sender_address : Option String
  pub sender_address_id : Option String
  pub balance_reserved : Bool
  pub balance_refunded : Bool

-- A row of `address_sender`, under its address.
pub record Sender : Type 0 where
  pub balance : ℕ
  pub enabled : Bool

-- The counters of `settings` are the numbers of their texts, in an index for each prefix of the
-- keys. `addresses` are the names of `address` under their ids.
pub record Database : Type 0 where
  pub reservations : List Reservation
  pub daily_counts : Dict ℕ ℕ
  pub monthly_counts : Dict ℕ ℕ
  pub senders : Dict String Sender
  pub addresses : Dict String String

abbrev pub count_of : Dict ℕ ℕ → ℕ → ℕ
count_of counts key = held (λ n. n) (get counts key)

-- The trigger of an insertion: a missing counter is created.
unfoldable pub raise_count : Dict ℕ ℕ → Option ℕ → Dict ℕ ℕ
raise_count counts none = counts
raise_count counts (some key) = put counts key (count_of counts key + 1)

-- The trigger of a release, on one counter.
unfoldable pub lower_count : Dict ℕ ℕ → Option ℕ → Dict ℕ ℕ
lower_count counts none = counts
lower_count counts (some key) = elim (get counts key) [
  | none ↦ counts
  | some n ↦ if ltb 0 n then put counts key (n - 1) else counts
]

unfoldable pub lower_counts : Dict ℕ ℕ → List (Option ℕ) → Dict ℕ ℕ
unfolding lower_count
lower_counts counts [] = counts
lower_counts counts (key ∷ keys) = lower_counts (lower_count counts key) keys

-- The condition of the trigger of a release.
abbrev pub fires : Reservation → Reservation → Bool
fires old new = is_active old.status && is_released new.status && is_pending old.dispatch_state

-- The order of texts, by their characters.
abbrev pub codes_before : List ℕ → List ℕ → Bool
codes_before cs [] = false
codes_before [] (d ∷ ds) = true
codes_before (c ∷ cs) (d ∷ ds) = ltb c d || (c == d && codes_before cs ds)

-- `ORDER BY time, id`
unfoldable pub row_before : (Reservation → ℕ) → Reservation → Reservation → Bool
row_before time r s =
    ltb (time r) (time s) || (time r == time s && codes_before (codes r.id) (codes s.id))

-- `SELECT id … WHERE p ORDER BY time, id LIMIT n`
unfoldable pub select_ids :
    (Reservation → Bool) → (Reservation → ℕ) → ℕ → List Reservation → List String
unfolding order_by row_before
select_ids p time n rows = map (λ r. r.id) (limit_to n (order_by (row_before time) (select p rows)))

-- The rows of an update for which the trigger of a release fires.
abbrev pub fired :
    (Reservation → Bool) → (Reservation → Reservation) → List Reservation → List Reservation
fired p f rows = select (λ r. p r && fires r (f r)) rows

-- `UPDATE send_mail_limit_reservations SET f WHERE p`, and the rows that it changed. A trigger writes
-- counters only, so all of them run after the rows.
unfoldable pub update_rows :
    (Reservation → Bool) → (Reservation → Reservation) → Database → Database × ℕ
unfolding lower_counts
update_rows p f db =
    let keys = fired p f db.reservations in
    (
      record db {
        reservations = updated p f db.reservations;
        daily_counts = lower_counts db.daily_counts (map (λ r. r.daily_key) keys);
        monthly_counts = lower_counts db.monthly_counts (map (λ r. r.monthly_key) keys);
      },
      length (select p db.reservations),
    )

-- `DELETE FROM send_mail_limit_reservations WHERE p`
unfoldable pub delete_rows : (Reservation → Bool) → Database → Database × ℕ
delete_rows p db = (
  record db { reservations = select (λ r. not (p r)) db.reservations },
  length (select p db.reservations),
)
