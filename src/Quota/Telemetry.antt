-- ===== src/Quota/Telemetry.antt =====
-- worker/src/core/d1_quota.ts: the module state of an isolate, and how rows are recorded in it.
-- Dates and safe counters are those of the coordinator.
pub mod Flush
pub mod Books
pub mod Balance
pub mod React
use one_mail.Base.{
  ℕ, ◌+◌, ◌-◌, String, Option, none, some, List, [], ◌∷◌, Bool, true, false, not, ◌&&◌, ◌||◌, Dict,
  get, put, delete, any, ltb, leb, ◌==◌, ◌===◌, if◌then◌else◌, text_key, nat_key,
}
use one_mail.Fleet.Contracts.{or_else}
use one_mail.Quota.Coordinator.{QuotaSnapshot, is_safe_counter, utc_date_of}
use one_mail.Quota.Coordinator.Handle.{max}

pub record QuotaDelta : Type 0 where
  pub rows_read : ℕ
  pub rows_written : ℕ

abbrev pub no_rows : QuotaDelta
no_rows = record { rows_read = 0; rows_written = 0 }

-- An entry of `coordinatorDeltaByDate`.
pub record Batch : Type 0 where
  pub id : String
  pub delta : QuotaDelta

-- `accountingIssues`
pub record Issues : Type 0 where
  pub invalid_meta : Bool
  pub counter_overflow : Bool
  pub expired_delta : Bool

-- Where the flush in flight waits, with what it has read so far.
pub data Phase : Type 0 where
  idle : Phase
  -- for the coordinator's snapshot, with nothing to deliver
  asking : (date : ℕ) → Phase
  -- for the coordinator's answer to a batch
  delivering : (date : ℕ) → Batch → Phase
  -- for today's snapshot, with nothing to write
  reading_today : (today : ℕ) → Phase
  -- for today's snapshot, before that of the bucket
  reading_first : (date today : ℕ) → QuotaDelta → Phase
  reading_bucket : (date : ℕ) → QuotaDelta → Option QuotaSnapshot → Phase
  writing : (date : ℕ) → QuotaDelta → (next : QuotaSnapshot) → Option QuotaSnapshot → Phase

-- The variables of the module. A `Map` keeps the order in which its keys came.
pub record Isolate : Type 0 where
  pub pending : Dict ℕ QuotaDelta
  pub known : Dict ℕ QuotaSnapshot
  pub last_attempt : Option ℕ
  pub last_write : Option ℕ
  pub batches : Dict ℕ Batch
  pub issues : Issues
  pub missing : List ℕ
  pub phase : Phase

-- The bindings, and the shard id that `resolveShardId` finds.
pub record Bindings : Type 0 where
  pub has_kv : Bool
  pub has_coordinator : Bool
  pub shard_id : String

abbrev pub checked_sum : ℕ → ℕ → Option ℕ
checked_sum a b =
    if is_safe_counter a && is_safe_counter b && is_safe_counter (a + b) then some (a + b) else none

-- `addQuotaDelta`: `none` is its exception, before anything is written.
unfoldable pub add_quota_delta : QuotaDelta → QuotaDelta → Option QuotaDelta
add_quota_delta target extra = elim (checked_sum target.rows_read extra.rows_read) [
  | none ↦ none
  | some r ↦ elim (checked_sum target.rows_written extra.rows_written) [
    | none ↦ none
    | some w ↦ some (record { rows_read = r; rows_written = w })
  ]
]

-- `metaCounter`: a counter that is no safe integer counts as zero and is an issue.
abbrev meta_counter : Isolate → Option ℕ → Isolate × ℕ
meta_counter s none = (record s { issues = record s.issues { invalid_meta = true } }, 0)
meta_counter s (some n) =
    if is_safe_counter n
    then (s, n)
    else (record s { issues = record s.issues { invalid_meta = true } }, 0)

unfoldable pub record_quota : Isolate → ℕ → QuotaDelta → Isolate
record_quota s now delta =
    let date = utc_date_of now in
    let bucket = or_else (get s.pending date) no_rows in
    if delta.rows_read == 0 && delta.rows_written == 0
    then s
    else elim (add_quota_delta bucket delta) [
      | none ↦ record s {
        pending = put s.pending date bucket;
        issues = record s.issues { counter_overflow = true };
      }
      | some sum ↦ record s { pending = put s.pending date sum }
    ]

-- `recordD1Quota(resultDelta(result))`, with the counters of the result's meta.
unfoldable pub record_result : Isolate → ℕ → Option ℕ → Option ℕ → Isolate
record_result s now reads writes =
    let (s₁, r) = meta_counter s reads in
    let (s₂, w) = meta_counter s₁ writes in
    record_quota s₂ now (record { rows_read = r; rows_written = w })

abbrev pub empty_snapshot : String → ℕ → QuotaSnapshot
empty_snapshot shard date = record {
  shard_id = shard;
  utc_date = date;
  rows_read = 0;
  rows_written = 0;
  flushed_at = 0;
  flush_count = 0;
}

-- What a text holds: nothing, no snapshot, or one with the version that it names.
pub data Raw : Type 0 where
  nothing unreadable : Raw
  holds : (v : ℕ) → QuotaSnapshot → Raw

abbrev pub fits : String → ℕ → ℕ → QuotaSnapshot → Bool
fits shard date v p =
    v == 1
    && p.shard_id === shard
    && p.utc_date == date
    && is_safe_counter p.rows_read
    && is_safe_counter p.rows_written
    && is_safe_counter p.flushed_at
    && is_safe_counter p.flush_count

abbrev without : ℕ → List ℕ → List ℕ
without d [] = []
without d (x ∷ xs) = let rest = without d xs in if x == d then rest else x ∷ rest

-- `parseSnapshot`; no snapshot is its exception.
unfoldable pub parse_snapshot : Isolate → Raw → String → ℕ → Isolate × Option QuotaSnapshot
parse_snapshot s nothing shard date =
    (record s { missing = date ∷ without date s.missing }, some (empty_snapshot shard date))
parse_snapshot s unreadable shard date = (s, none)
parse_snapshot s (holds v p) shard date =
    if fits shard date v p
    then (record s { missing = without date s.missing }, some p)
    else (s, none)

-- `{ ...stored, rows_read: Math.max(…), … }`
abbrev pub joined : QuotaSnapshot → QuotaSnapshot → QuotaSnapshot
joined stored known = record stored {
  rows_read = max stored.rows_read known.rows_read;
  rows_written = max stored.rows_written known.rows_written;
  flushed_at = max stored.flushed_at known.flushed_at;
  flush_count = max stored.flush_count known.flush_count;
}

unfoldable pub remember_snapshot : Isolate → QuotaSnapshot → Isolate × QuotaSnapshot
remember_snapshot s stored =
    let snapshot : QuotaSnapshot = elim (get s.known stored.utc_date) [
      | none ↦ stored
      | some k ↦ joined stored k
    ] in
    (record s { known = put s.known stored.utc_date snapshot }, snapshot)

-- `readSnapshot`, when the namespace has given a text.
unfoldable pub read_snapshot_of : Isolate → Raw → String → ℕ → Isolate × Option QuotaSnapshot
read_snapshot_of s raw shard date =
    let (s₁, parsed) = parse_snapshot s raw shard date in
    elim parsed [
      | none ↦ (s₁, none)
      | some p ↦ let (s₂, q) = remember_snapshot s₁ p in (s₂, some q)
    ]
