-- ===== src/Quota/Telemetry/Flush.antt =====
-- worker/src/core/d1_quota.ts: the flush, from one await to the next. Other calls may come while it
-- waits; only one flush is under way, which all callers share.
use one_mail.Base.{
  ℕ, ◌+◌, ◌-◌, String, Option, none, some, List, [], ◌∷◌, Bool, true, false, not, ◌&&◌, ◌||◌, Dict,
  get, put, delete, ltb, ◌==◌, if◌then◌else◌, nat_key,
}
use one_mail.Fleet.Contracts.{or_else}
use one_mail.Quota.Coordinator.{QuotaSnapshot, utc_date_of, flush_interval_ms}
use one_mail.Quota.Telemetry.{
  QuotaDelta, Batch, Phase, idle, asking, delivering, reading_today, reading_first, reading_bucket,
  writing, Isolate, Bindings, checked_sum, record_quota, Raw, nothing, unreadable, holds,
  parse_snapshot, remember_snapshot, read_snapshot_of,
}

abbrev pub attempt_interval_ms : ℕ
attempt_interval_ms = 30000

-- What the callers of a flush are given: still nothing, a snapshot, or an exception.
pub data Flow : Type 0 where
  waiting : Flow
  returns : QuotaSnapshot → Flow
  raises : Flow

abbrev pub within : Option ℕ → ℕ → ℕ → Bool
within none interval now = false
within (some at) interval now = ltb now (at + interval)

abbrev pub first_key {ℓ} : {V : Type ℓ} → List (ℕ × V) → Option ℕ
first_key [] = none
first_key ((k, v) ∷ d) = some k

abbrev goes_on : Isolate → Phase → Isolate × Flow
goes_on s p = (record s { phase = p }, waiting)

abbrev ends : Isolate → Flow → Isolate × Flow
ends s f = (record s { phase = idle }, f)

-- `commitCoordinatedFlush` up to its request; `id` is the fresh id of a new batch.
unfoldable pub start_coordinated : Isolate → ℕ → String → Isolate × Flow
start_coordinated s date id = elim (get s.pending date) [
  | none ↦ goes_on s (asking date)
  | some pending ↦
      let batch = or_else (get s.batches date) (record { id = id; delta = pending }) in
      goes_on (record s { batches = put s.batches date batch }) (delivering date batch)
]

-- `commitFlush` up to its first await.
unfoldable pub start_commit : Bindings → Isolate → ℕ → String → Isolate × Flow
start_commit env s now id =
    let today = utc_date_of now in
    let first = first_key s.pending in
    if env.has_coordinator
    then start_coordinated s (or_else first today) id
    else if within s.last_write flush_interval_ms now
    then goes_on s (reading_today today)
    else elim first [
      | none ↦ goes_on s (reading_today today)
      | some date ↦
          let delta = or_else (get s.pending date) (record { rows_read = 0; rows_written = 0 }) in
          if date == today
          then goes_on s (reading_bucket date delta none)
          else goes_on s (reading_first date today delta)
    ]

-- `flushD1Quota`: a flush that is in flight is shared.
unfoldable pub flush_quota : Bindings → Isolate → ℕ → String → Isolate × Flow
flush_quota env s now id =
    if not env.has_kv && not env.has_coordinator
    then (s, waiting)
    else elim s.phase [ idle ↦ start_commit env s now id | _ ↦ (s, waiting) ]

abbrev pub is_idle : Phase → Bool
is_idle idle = true
is_idle _ = false

abbrev pub is_nil {ℓ} : {A : Type ℓ} → List A → Bool
is_nil [] = true
is_nil (x ∷ xs) = false

unfoldable pub maybe_flush_quota : Bindings → Isolate → ℕ → String → Isolate × Flow
maybe_flush_quota env s now id =
    if (not env.has_kv && not env.has_coordinator) || is_nil s.pending || not (is_idle s.phase)
    then (s, waiting)
    else if within s.last_write flush_interval_ms now
    then (s, waiting)
    else if within s.last_attempt attempt_interval_ms now
    then (s, waiting)
    else flush_quota env (record s { last_attempt = some now }) now id

-- The rows of a bucket that has been delivered or written: what came since stays in it.
abbrev pub drained : QuotaDelta → QuotaDelta → QuotaDelta
drained bucket delta = record {
  rows_read = bucket.rows_read - delta.rows_read;
  rows_written = bucket.rows_written - delta.rows_written;
}

unfoldable pub drain : Dict ℕ QuotaDelta → ℕ → QuotaDelta → Dict ℕ QuotaDelta
drain pending date delta = elim (get pending date) [
  | none ↦ pending
  | some bucket ↦
      let left = drained bucket delta in
      if left.rows_read == 0 && left.rows_written == 0
      then delete pending date
      else put pending date left
]

-- The answers of the coordinator, as `coordinatorSnapshot` tells them apart: no answer or one that
-- is no snapshot, the refusal of an expired delta, or a snapshot (`available` as a `GET` says).
pub data CoordinatorReply : Type 0 where
  broken expired : CoordinatorReply
  answers : (available : Bool) → Raw → CoordinatorReply

-- The snapshot of an answer: one must be there and fit.
abbrev pub answered : Isolate → Raw → String → ℕ → Isolate × Option QuotaSnapshot
answered s nothing shard date = (s, none)
answered s unreadable shard date = (s, none)
answered s (holds v p) shard date = parse_snapshot s (holds v p) shard date

unfoldable pub delivered : Isolate → ℕ → ℕ → Batch → QuotaSnapshot → Isolate × Flow
delivered s now date batch p =
    let s₁ = record s {
      pending = drain s.pending date batch.delta;
      batches = delete s.batches date;
      last_write = some now;
    } in
    let (s₂, q) = remember_snapshot s₁ p in ends s₂ (returns q)

-- The rest of `commitCoordinatedFlush`.
unfoldable pub coordinator_replies : Bindings → Isolate → ℕ → CoordinatorReply → Isolate × Flow
coordinator_replies env s now reply = elim s.phase [
  | delivering date batch ↦ elim reply [
    | broken ↦ ends s raises
    | expired ↦
        ends
          (record s {
            issues = record s.issues { expired_delta = true };
            pending = delete s.pending date;
            batches = delete s.batches date;
          })
          raises
    | answers available raw ↦
        let (s₁, parsed) = answered s raw env.shard_id date in
        elim parsed [ none ↦ ends s₁ raises | some p ↦ delivered s₁ now date batch p ]
  ]
  | asking date ↦ elim reply [
    | broken ↦ ends s raises
    | expired ↦ ends s raises
    | answers available raw ↦
        let (s₁, parsed) = answered s raw env.shard_id date in
        elim parsed [
          | none ↦ ends s₁ raises
          | some p ↦
              let (s₂, q) = remember_snapshot s₁ p in
              ends (if available then s₂ else record s₂ { missing = date ∷ s₂.missing }) (returns q)
        ]
  ]
  | _ ↦ (s, waiting)
]

abbrev pub next_snapshot : Bindings → ℕ → QuotaSnapshot → QuotaDelta → ℕ → Option QuotaSnapshot
next_snapshot env date current delta now = elim (checked_sum current.rows_read delta.rows_read) [
  | none ↦ none
  | some r ↦ elim (checked_sum current.rows_written delta.rows_written) [
    | none ↦ none
    | some w ↦ elim (checked_sum current.flush_count 1) [
      | none ↦ none
      | some n ↦ some (record {
        shard_id = env.shard_id;
        utc_date = date;
        rows_read = r;
        rows_written = w;
        flushed_at = now;
        flush_count = n;
      })
    ]
  ]
]

-- The answer of a flush that ends: today's snapshot if it was read apart.
abbrev pub answer_today : Isolate → Option QuotaSnapshot → QuotaSnapshot → Isolate × Flow
answer_today s none current = ends s (returns current)
answer_today s (some t) current = let (s₁, q) = remember_snapshot s t in ends s₁ (returns q)

-- `commitFlush` when the snapshot of its bucket has come.
unfoldable pub bucket_read :
    Bindings → Isolate → ℕ → ℕ → QuotaDelta → Option QuotaSnapshot → QuotaSnapshot → Isolate × Flow
bucket_read env s now date delta today read =
    let (s₁, current) = remember_snapshot s read in
    if ltb 0 current.flush_count && ltb now (current.flushed_at + flush_interval_ms)
    then answer_today s₁ today current
    else elim (next_snapshot env date current delta now) [
      | none ↦ ends s₁ raises
      | some next ↦ goes_on s₁ (writing date delta next today)
    ]

-- The text that the namespace gives, or its exception.
unfoldable pub kv_gives : Bindings → Isolate → ℕ → Option Raw → Isolate × Flow
kv_gives env s now text = elim s.phase [
  | reading_today today ↦ elim text [
    | none ↦ ends s raises
    | some raw ↦
        let (s₁, read) = read_snapshot_of s raw env.shard_id today in
        elim read [ none ↦ ends s₁ raises | some p ↦ ends s₁ (returns p) ]
  ]
  | reading_first date today delta ↦ elim text [
    | none ↦ ends s raises
    | some raw ↦
        let (s₁, read) = read_snapshot_of s raw env.shard_id today in
        elim read [
          | none ↦ ends s₁ raises
          | some p ↦ goes_on s₁ (reading_bucket date delta (some p))
        ]
  ]
  | reading_bucket date delta today ↦ elim text [
    | none ↦ ends s raises
    | some raw ↦
        let (s₁, read) = read_snapshot_of s raw env.shard_id date in
        elim read [ none ↦ ends s₁ raises | some p ↦ bucket_read env s₁ now date delta today p ]
  ]
  | _ ↦ (s, waiting)
]

-- The namespace has taken the snapshot, or has thrown.
unfoldable pub kv_puts : Isolate → ℕ → Bool → Isolate × Flow
kv_puts s now taken = elim s.phase [
  | writing date delta next today ↦
      if not taken
      then ends s raises
      else let (s₁, committed) = remember_snapshot (record s { last_write = some now }) next in
        answer_today (record s₁ { pending = drain s₁.pending date delta }) today committed
  | _ ↦ (s, waiting)
]

-- What happens to an isolate, one after the other.
pub data Signal : Type 0 where
  records : (now : ℕ) → QuotaDelta → Signal
  flushes maybe_flushes : (now : ℕ) (id : String) → Signal
  replied : (now : ℕ) → CoordinatorReply → Signal
  given : (now : ℕ) → Option Raw → Signal
  put_done : (now : ℕ) (taken : Bool) → Signal

unfoldable pub react : Bindings → Isolate → Signal → Isolate × Flow
react env s (records now delta) = (record_quota s now delta, waiting)
react env s (flushes now id) = flush_quota env s now id
react env s (maybe_flushes now id) = maybe_flush_quota env s now id
react env s (replied now reply) = coordinator_replies env s now reply
react env s (given now text) = kv_gives env s now text
react env s (put_done now taken) = kv_puts s now taken

unfoldable pub react_all : Bindings → Isolate → List Signal → Isolate
react_all env s [] = s
react_all env s (e ∷ es) = react_all env (react env s e).0 es
