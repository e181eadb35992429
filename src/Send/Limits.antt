-- ===== src/Send/Limits.antt =====
-- worker/src/mails_api/send_mail_limit_utils.ts: the configuration of the limits, and the
-- reservation of a slot before a mail is handed to a provider.
use one_mail.Base.{
  ℕ, ◌+◌, ◌-◌, ◌*◌, ◌/◌, ◌%◌, String, Option, none, some, List, Bool, true, false, not, ◌&&◌, ◌||◌,
  find, ltb, leb, ◌==◌, ◌===◌, if◌then◌else◌, text_key, nat_key,
}
use one_mail.Fleet.Parse.Calendar.{◌>>=◌}
use one_mail.Quota.Coordinator.{utc_date_of}
use one_mail.Unified.ShardMap.{trim}
use one_mail.Send.{
  is_active, is_committed, is_released, is_unknown, is_sent, Reservation, Database, count_of,
}
use one_mail.Send.Writes.{
  Answer, changes, constraint, Request, same_key, release_expired, promote_sent, purge,
  confirm_sent, reject_unknown, delete_released, insert_reservation,
}
use one_mail.Send.History.{Write, write_all}

-- A limit as it is stored: nothing, -1, a whole number from 0 on, or another value.
pub data RawLimit : Type 0 where
  missing minus_one unusable : RawLimit
  whole : ℕ → RawLimit

-- A value that is an object; `none` stands for a flag that is no Boolean.
pub record RawConfig : Type 0 where
  pub raw_daily_enabled : Option Bool
  pub raw_monthly_enabled : Option Bool
  pub raw_daily_limit : RawLimit
  pub raw_monthly_limit : RawLimit

-- A limit that was read: -1 or a number.
pub data Limit : Type 0 where
  unlimited : Limit
  at_most : ℕ → Limit

pub record SendMailLimitConfig : Type 0 where
  pub daily_enabled : Bool
  pub monthly_enabled : Bool
  pub daily_limit : Option Limit
  pub monthly_limit : Option Limit

abbrev pub parse_limit_value : RawLimit → Option Limit
parse_limit_value minus_one = some unlimited
parse_limit_value (whole n) = some (at_most n)
parse_limit_value _ = none

abbrev is_limit : Option Limit → Bool
is_limit none = false
is_limit (some l) = true

abbrev is_missing : RawLimit → Bool
is_missing missing = true
is_missing _ = false

abbrev is_valid_limit : Bool → RawLimit → Bool
is_valid_limit enabled raw =
    if enabled
    then is_limit (parse_limit_value raw)
    else is_missing raw || is_limit (parse_limit_value raw)

abbrev checked_config : Bool → SendMailLimitConfig → Option SendMailLimitConfig
checked_config valid c = if valid then some c else none

-- `parseSendMailLimitConfig`; a value that is no object is `none`.
unfoldable pub parse_send_mail_limit_config : Option RawConfig → Option SendMailLimitConfig
parse_send_mail_limit_config raw = do
  r ← raw
  daily ← r.raw_daily_enabled
  monthly ← r.raw_monthly_enabled
  checked_config
      (is_valid_limit daily r.raw_daily_limit && is_valid_limit monthly r.raw_monthly_limit)
      (record {
        daily_enabled = daily;
        monthly_enabled = monthly;
        daily_limit = parse_limit_value r.raw_daily_limit;
        monthly_limit = parse_limit_value r.raw_monthly_limit;
      })

-- `getSendMailLimitConfigToSave`
unfoldable pub get_send_mail_limit_config_to_save : Option RawConfig → Option SendMailLimitConfig
unfolding parse_send_mail_limit_config
get_send_mail_limit_config_to_save raw = do
  c ← parse_send_mail_limit_config raw
  some (record {
    daily_enabled = c.daily_enabled;
    monthly_enabled = c.monthly_enabled;
    daily_limit = if c.daily_enabled then c.daily_limit else none;
    monthly_limit = if c.monthly_enabled then c.monthly_limit else none;
  })

-- The row of `settings` with the configuration, as the query reads it: a failure, no row, or the
-- value that `JSON.parse` gives.
pub data Stored : Type 0 where
  unreadable absent : Stored
  stored : Option RawConfig → Stored

-- `getStrictSendMailLimitConfig`: `none` is an exception.
unfoldable pub get_strict_config : Stored → Option (Option SendMailLimitConfig)
unfolding get_send_mail_limit_config_to_save
get_strict_config unreadable = none
get_strict_config absent = some none
get_strict_config (stored raw) = elim (get_send_mail_limit_config_to_save raw) [
  | none ↦ none
  | some c ↦ some (some c)
]

abbrev effective : Bool → Option Limit → Option ℕ
effective true (some (at_most n)) = some n
effective _ _ = none

abbrev pub daily_limit_of : Option SendMailLimitConfig → Option ℕ
daily_limit_of none = none
daily_limit_of (some c) = effective c.daily_enabled c.daily_limit

abbrev pub monthly_limit_of : Option SendMailLimitConfig → Option ℕ
monthly_limit_of none = none
monthly_limit_of (some c) = effective c.monthly_enabled c.monthly_limit

-- `getDailyCountKey`: the day, counted from the first of year 0.
abbrev pub daily_count_key : ℕ → ℕ
daily_count_key now = utc_date_of now

-- `getMonthlyCountKey`: the year times twelve plus the month from 0 on. The year is counted from
-- March, so that a leap day is the last one of its year.
unfoldable pub monthly_count_key : ℕ → ℕ
monthly_count_key now =
    let z = utc_date_of now - 60 in
    let day = z % 146097 in
    let year = (day - day / 1460 + day / 36524 - day / 146096) / 365 in
    let rest = day - (365 * year + year / 4 - year / 100) in
    (z / 146097 * 400 + year) * 12 + (5 * rest + 2) / 153 + 2

abbrev key_for : Option ℕ → ℕ → Option ℕ
key_for none key = none
key_for (some limit) key = some key

-- What `reserveSendMailLimit` returns or throws.
pub data Reserved : Type 0 where
  reserved replay_sent replay_unknown : (id : String) → Reserved
  conflict over_daily over_monthly failed : Reserved

-- `options.idempotencyKey?.trim() || null`, `options.requestHash || null`
abbrev pub non_empty : Option String → Option String
non_empty none = none
non_empty (some s) = if s === "" then none else some s

abbrev pub trimmed : Option String → Option String
trimmed none = none
trimmed (some s) = non_empty (some (trim s))

abbrev pub same_hash : Option String → Option String → Bool
same_hash none none = true
same_hash (some a) (some b) = a === b
same_hash _ _ = false

-- `WHERE idempotency_key = ?`
abbrev pub with_key : Option String → Database → Option Reservation
with_key key db = find (λ (r : Reservation). same_key r.idempotency_key key) db.reservations

-- The answer for a row that holds the key; `none` where the row is released.
unfoldable pub replay : Reservation → Option String → Option Reserved
replay r hash =
    if not (same_hash r.request_hash hash)
    then some conflict
    else if is_committed r.status || is_sent r.dispatch_state
    then some (replay_sent r.id)
    else if is_unknown r.dispatch_state || is_active r.status
    then some (replay_unknown r.id)
    else none

-- The answer for the row that made the insertion fail.
abbrev replay_taken : Reservation → Option String → Reserved
replay_taken r hash =
    if not (same_hash r.request_hash hash)
    then conflict
    else if is_committed r.status || is_sent r.dispatch_state
    then replay_sent r.id
    else replay_unknown r.id

abbrev pub is_over : Option ℕ → ℕ → Bool
is_over none n = false
is_over (some limit) n = leb limit n

-- The counter of a key; the limit is there whenever it is read.
abbrev counted : Option ℕ → (ℕ → ℕ) → ℕ
counted none f = 0
counted (some key) f = f key

-- What follows the insertion.
unfoldable pub conclude : Request → Database × Answer → Database × Reserved
conclude q (db, changes n) =
    if ltb 0 n
    then (db, reserved q.id)
    else if is_over q.daily_limit (counted q.daily_key (count_of db.daily_counts))
    then (db, over_daily)
    else if is_over q.monthly_limit (counted q.monthly_key (count_of db.monthly_counts))
    then (db, over_monthly)
    else (db, failed)
conclude q (db, constraint) = elim q.idempotency_key [
  | none ↦ (db, failed)
  | some key ↦ elim (with_key (some key) db) [
    | none ↦ (db, failed)
    | some r ↦ (db, replay_taken r q.request_hash)
  ]
]

-- The lookup by the key: the row that holds it, if any, answers or is deleted.
unfoldable pub look_up : Request → Database → Database × Option Reserved
unfolding replay delete_released
look_up q db = elim q.idempotency_key [
  | none ↦ (db, none)
  | some key ↦ elim (with_key (some key) db) [
    | none ↦ (db, none)
    | some r ↦ elim (replay r q.request_hash) [
      | some a ↦ (db, some a)
      | none ↦ ((delete_released r.id db).0, none)
    ]
  ]
]

-- `reserveSendMailLimit` with the columns at hand; other requests write between the lookup and the
-- insertion, while the release of expired rows, the lookup and its deletion are one step here.
unfoldable pub reserve_slot : ℕ → List Write → Request → Database → Database × Reserved
unfolding release_expired look_up conclude insert_reservation write_all
reserve_slot started others q db =
    let (db₁, answer) = look_up q (release_expired started 100 db).0 in
    elim answer [
      | some a ↦ (db₁, a)
      | none ↦ conclude q (insert_reservation q (write_all db₁ others))
    ]

unfoldable pub request_of :
    String → Option SendMailLimitConfig → ℕ → Option String → Option String → Request
unfolding monthly_count_key
request_of id config now key hash = record {
  id = id;
  daily_key = key_for (daily_limit_of config) (daily_count_key now);
  monthly_key = key_for (monthly_limit_of config) (monthly_count_key now);
  daily_limit = daily_limit_of config;
  monthly_limit = monthly_limit_of config;
  now = now;
  idempotency_key = trimmed key;
  request_hash = non_empty hash;
}

abbrev lacks_hash : Option String → Option String → Bool
lacks_hash (some key) none = true
lacks_hash _ _ = false

-- `reserveSendMailLimit`
unfoldable pub reserve_send_mail_limit :
    Stored
    → ℕ
    → ℕ
    → List Write
    → String
    → Option String
    → Option String
    → Database
    → Database × Reserved
unfolding get_strict_config reserve_slot request_of
reserve_send_mail_limit settings started now others id key hash db =
    elim (get_strict_config settings) [
      | none ↦ (db, failed)
      | some config ↦
          if lacks_hash (trimmed key) (non_empty hash)
          then (db, conflict)
          else reserve_slot started others (request_of id config now key hash) db
    ]

-- `reconcileSendMailLimitReservations`, with `RESERVATION_TERMINAL_RETENTION_MS`
unfoldable pub reconcile : ℕ → ℕ → Database → Database × ℕ × ℕ
unfolding promote_sent release_expired purge
reconcile now batch db =
    let (db₁, _) = promote_sent now db in
    let (db₂, n) = release_expired now batch db₁ in
    let (db₃, m) = purge (now - 7 * 24 * 60 * 60 * 1000) batch db₂ in (db₃, n, m)

pub data Resolution : Type 0 where
  resolved_sent already_resolved not_found : Resolution
  resolved_released : (refund : Option (Option String × Option String)) → Resolution

abbrev refund_of : Reservation → Option (Option String × Option String)
refund_of r =
    if r.balance_reserved && not r.balance_refunded
    then some (r.sender_address, r.sender_address_id)
    else none

-- `resolveUnknownSendMailReservation`: the operator says what became of a mail. Other requests write
-- between its query and its own write.
unfoldable pub resolve_unknown : String → Bool → ℕ → List Write → Database → Database × Resolution
unfolding confirm_sent reject_unknown write_all
resolve_unknown id was_sent now others db =
    elim (find (λ (r : Reservation). r.id === id) db.reservations) [
      | none ↦ (db, not_found)
      | some r ↦
          if is_released r.status && r.balance_reserved && not r.balance_refunded && not was_sent
          then (db, resolved_released (some (r.sender_address, r.sender_address_id)))
          else if not (is_active r.status) || not (is_unknown r.dispatch_state)
          then (db, already_resolved)
          else let db₁ = write_all db others in
            let (db₂, n) =
              if was_sent then confirm_sent id now db₁ else reject_unknown id now db₁ in
            (
              db₂,
              (if not (n == 1)
                  then already_resolved
                  else if was_sent
                  then resolved_sent
                  else resolved_released (refund_of r)),
            )
    ]
