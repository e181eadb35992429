-- ===== src/Quota/Coordinator.antt =====
-- worker/src/core/d1_quota_coordinator_do.ts: the durable object that counts the deltas of a shard.
-- A date is the number of its day, counted from the first day of year 0, so that dates compare as
-- their texts do; `none` stands for what `validUtcDate` refuses. A field of a body is `none` when
-- it is missing or of another type.
pub mod Cleanup
pub mod Handle
pub mod Counting
pub mod Steps
pub mod Retention
pub mod Ledger
pub mod Pace
use one_mail.Base.{
  ap, ◌≡◌, ℕ, zero, suc, ◌+◌, ◌-◌, ◌*◌, ◌/◌, String, Option, none, some, List, [], ◌∷◌, Bool, true,
  false, not, ◌&&◌, ◌||◌, Dict, get, put, delete, Key, ltb, leb, ◌==◌, ◌===◌, if◌then◌else◌, length,
  text_key, text_dec, nat_key, ℕ_discrete, arith,
}
use one_mail.Fleet.Contracts.{or_else}
use one_mail.Fleet.Metrics.{day_ms}
use one_mail.Fleet.Placement.{lt_text}
use one_mail.Fleet.Validation.{max_safe_integer}

abbrev pub flush_interval_ms : ℕ
flush_interval_ms = 300000

abbrev retention_days : ℕ
retention_days = 3

-- The day of 1970-01-01.
abbrev epoch_day : ℕ
epoch_day = 719528

abbrev pub utc_date_of : ℕ → ℕ
utc_date_of ms = ms / day_ms + epoch_day

-- `CoordinatorState`
pub record QuotaState : Type 0 where
  pub shard_id : String
  pub utc_date : ℕ
  pub rows_read : ℕ
  pub rows_written : ℕ
  pub flushed_at : ℕ
  pub flush_count : ℕ
  pub last_kv_snapshot_at : ℕ

pub record QuotaSnapshot : Type 0 where
  pub shard_id : String
  pub utc_date : ℕ
  pub rows_read : ℕ
  pub rows_written : ℕ
  pub flushed_at : ℕ
  pub flush_count : ℕ

pub record DeltaRequest : Type 0 where
  pub is_delta : Bool
  pub shard_id : Option String
  pub utc_date : Option ℕ
  pub delta_id : Option String
  pub rows_read : Option ℕ
  pub rows_written : Option ℕ
  pub now : Option ℕ

pub data QuotaRequest : Type 0 where
  get_quota : (utc_date : Option ℕ) (shard_id : String) → QuotaRequest
  post_delta : Option DeltaRequest → QuotaRequest
  other_method : QuotaRequest

-- The namespace of `D1_QUOTA_KV`: not bound, or how it takes the next `put`.
pub data KvBinding : Type 0 where
  unbound accepts rejects : KvBinding

abbrev pub is_bound : KvBinding → Bool
is_bound KvBinding.unbound = false
is_bound _ = true

pub data Answer : Type 0 where
  invalid_identity invalid_delta future_date expired method_not_allowed overflowed failed : Answer
  -- The exception that a `GET` lets through.
  thrown : Answer
  -- An alarm has no answer.
  silent : Answer
  shown : (available : Bool) → QuotaSnapshot → Answer
  counted : (duplicate : Bool) (snapshot today : QuotaSnapshot) → Answer

abbrev pub Marker : Type 0
Marker = ℕ × String

pub marker-fst : {m n : Marker} → m ≡ n → m.0 ≡ n.0
marker-fst e = ap (λ x. x.0) e

pub marker-snd : {m n : Marker} → m ≡ n → m.1 ≡ n.1
marker-snd e = ap (λ x. x.1) e

pub marker-pair : (m n : Marker) → m.0 ≡ n.0 → m.1 ≡ n.1 → m ≡ n
marker-pair m n p q = ground arith

unfoldable pub marker_dec : Discrete Marker
marker_dec (a, s) (b, t) = elim (ℕ_discrete a b) [
  | no n ↦ no (λ e. n (marker-fst e))
  | yes y ↦ elim (text_dec s t) [
    | no n ↦ no (λ e. n (marker-snd e))
    | yes z ↦ yes (marker-pair (a, s) (b, t) y z)
  ]
]

instance abbrev pub marker_key : Key Marker
marker_key = record { same = marker_dec }

-- The storage of the object, an index for each prefix of its keys, and its alarm.
pub record Coordinator : Type 0 where
  pub retention_floor : Option ℕ
  pub last_attempt : Option ℕ
  pub alarm : Option ℕ
  pub states : Dict ℕ QuotaState
  pub deltas : Dict Marker Bool

pub data Outcome {ℓ} (A : Type ℓ) : Type ℓ where
  done : A → Outcome A
  -- `CounterOverflowError`
  overflow : Outcome A
  -- any other exception
  fault : Outcome A

infixl 5 ◌>>◌ ◌>>=◌
abbrev pub ◌>>=◌ {κ μ} : {T : Type κ} {S : Type μ} → Outcome T → (T → Outcome S) → Outcome S
start >>= rest = elim start [ overflow ↦ overflow | fault ↦ fault | done value ↦ rest value ]

abbrev pub ◌>>◌ {μ} : {S : Type μ} → Outcome (Unit {0}) → Outcome S → Outcome S
check >> rest = check >>= (λ _. rest)

abbrev pub overflow_if : Bool → Outcome (Unit {0})
overflow_if true = overflow
overflow_if false = done tt

abbrev pub fault_if : Bool → Outcome (Unit {0})
fault_if true = fault
fault_if false = done tt

-- `isSafeCounter`
abbrev pub is_safe_counter : ℕ → Bool
is_safe_counter n = leb n max_safe_integer

abbrev pub empty_state : String → ℕ → QuotaState
empty_state shard date = record {
  shard_id = shard;
  utc_date = date;
  rows_read = 0;
  rows_written = 0;
  flushed_at = 0;
  flush_count = 0;
  last_kv_snapshot_at = 0;
}

abbrev pub public_snapshot : QuotaState → QuotaSnapshot
public_snapshot s = record {
  shard_id = s.shard_id;
  utc_date = s.utc_date;
  rows_read = s.rows_read;
  rows_written = s.rows_written;
  flushed_at = s.flushed_at;
  flush_count = s.flush_count;
}

abbrev pub has_safe_counters : QuotaState → Bool
has_safe_counters s =
    is_safe_counter s.rows_read
    && is_safe_counter s.rows_written
    && is_safe_counter s.flushed_at
    && is_safe_counter s.flush_count
    && is_safe_counter s.last_kv_snapshot_at

unfoldable pub checked_state : Option QuotaState → String → ℕ → Outcome QuotaState
checked_state none shard date = done (empty_state shard date)
checked_state (some s) shard date =
    if not (s.shard_id === shard) || not (s.utc_date == date) || not (has_safe_counters s)
    then fault
    else done s

unfoldable pub retention_floor_at : Coordinator → ℕ → ℕ
retention_floor_at c now =
    let wall_floor = utc_date_of now - (retention_days - 1) in
    elim c.retention_floor [
      | none ↦ wall_floor
      | some persisted ↦ if ltb wall_floor persisted then persisted else wall_floor
    ]

abbrev pub next_midnight_alarm : ℕ → ℕ
next_midnight_alarm now = (now / day_ms + 1) * day_ms + 1000

-- An alarm that is set stays.
abbrev pub ensure_alarm : Coordinator → ℕ → Coordinator
ensure_alarm c now = record c { alarm = some (or_else c.alarm (next_midnight_alarm now)) }
