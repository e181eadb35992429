-- ===== src/Quota/Coordinator/Handle.antt =====
-- worker/src/core/d1_quota_coordinator_do.ts: `handle`, and the calls that the chain orders.
use one_mail.Base.{
  ℕ, ◌+◌, String, Option, none, some, List, [], ◌∷◌, Bool, true, false, not, ◌&&◌, ◌||◌, get, put,
  ltb, leb, ◌==◌, ◌===◌, if◌then◌else◌, text_key, nat_key,
}
use one_mail.Fleet.Contracts.{or_else}
use one_mail.Fleet.Parse.{codes, units}
use one_mail.Quota.Coordinator.{
  is_bound, Answer, Marker, marker_key, Coordinator, Outcome, done, overflow, fault, ◌>>=◌, ◌>>◌,
  overflow_if, fault_if, is_safe_counter, empty_state, public_snapshot, checked_state,
  retention_floor_at, ensure_alarm, QuotaState, QuotaSnapshot, DeltaRequest, QuotaRequest,
  get_quota, post_delta, other_method, KvBinding, flush_interval_ms, utc_date_of,
}
use one_mail.Quota.Coordinator.Cleanup.{cleanup}

-- The value of the transactions of `handle`.
pub record Counted : Type 0 where
  pub state : QuotaState
  pub duplicate : Bool
  pub snapshot_due : Bool

-- A body that passed the checks.
pub record Delta : Type 0 where
  pub shard_id : String
  pub utc_date : ℕ
  pub delta_id : String
  pub rows_read : ℕ
  pub rows_written : ℕ

unfoldable pub is_due : Coordinator → KvBinding → ℕ → ℕ → Bool
is_due c kv last now = is_bound kv && (last == 0 || leb (last + flush_interval_ms) now)

abbrev pub is_marked : Coordinator → Marker → Bool
is_marked c k = or_else (get c.deltas k) false

abbrev pub summed : QuotaState → Delta → QuotaState
summed current b = record current {
  rows_read = current.rows_read + b.rows_read;
  rows_written = current.rows_written + b.rows_written;
}

-- A delta without its marker.
unfoldable pub add_delta : Coordinator → Delta → QuotaState → Bool → Outcome (Coordinator × Counted)
add_delta c b current due =
    let next = summed current b in
    do
      overflow_if (
          not (is_safe_counter next.rows_read)
          || not (is_safe_counter next.rows_written)
          || not (is_safe_counter (next.flush_count + 1)))
      done (
        record c {
          deltas = put c.deltas (b.utc_date, b.delta_id) true;
          states = put c.states b.utc_date next;
        },
        record { state = next; duplicate = false; snapshot_due = due },
      )

-- The transaction that counts a delta.
unfoldable pub count_delta : Coordinator → ℕ → KvBinding → Delta → Outcome (Coordinator × Counted)
count_delta c now kv b = do
  current ← checked_state (get c.states b.utc_date) b.shard_id b.utc_date
  let last = or_else c.last_attempt current.last_kv_snapshot_at
  fault_if (not (is_safe_counter last))
  let due = is_due c kv last now
  overflow_if (due && not (is_safe_counter (current.flush_count + 1)))
  (if is_marked c (b.utc_date, b.delta_id)
      then done (c, record { state = current; duplicate = true; snapshot_due = due })
      else add_delta c b current due)

pub record Publication : Type 0 where
  pub at : ℕ
  pub snapshot : QuotaSnapshot

abbrev pub max : ℕ → ℕ → ℕ
max a b = if leb a b then b else a

abbrev pub published : QuotaState → ℕ → QuotaSnapshot
published s now = record (public_snapshot s) { flushed_at = now; flush_count = s.flush_count + 1 }

-- What follows the first transaction: a publication slot is taken before the snapshot is sent.
unfoldable pub publish :
    Coordinator → ℕ → KvBinding → ℕ → Counted → Coordinator × Outcome Counted × List Publication
publish c now kv date r = elim (r.snapshot_due) [
  | false ↦ (c, done r, [])
  | true ↦
      let c' = record c { last_attempt = some now } in
      let sent : Publication = record { at = now; snapshot = published r.state now } in
      elim kv [
        | KvBinding.unbound ↦ (c, done r, [])
        | KvBinding.rejects ↦ (c', fault, sent ∷ [])
        | KvBinding.accepts ↦
            let current = or_else (get c.states date) r.state in
            let updated = record current {
              flushed_at = now;
              flush_count = max current.flush_count (r.state.flush_count + 1);
              last_kv_snapshot_at = max current.last_kv_snapshot_at now;
            } in
            (
              record c' { states = put c.states date updated },
              done (record { state = updated; duplicate = r.duplicate; snapshot_due = false }),
              sent ∷ [],
            )
      ]
]

abbrev valid_shard : Option String → Option String
valid_shard none = none
valid_shard (some s) = if s === "" then none else some s

-- `validId`
abbrev valid_id : Option String → Option String
valid_id none = none
valid_id (some s) = if leb 8 (units (codes s)) && leb (units (codes s)) 200 then some s else none

abbrev safe_field : Option ℕ → Option ℕ
safe_field none = none
safe_field (some n) = if is_safe_counter n then some n else none

abbrev valid_now : Option ℕ → Option (Unit {0})
valid_now none = none
valid_now (some n) = if ltb 0 n && leb n 8640000000000000 then some tt else none

infixl 5 ◌>>?◌
abbrev ◌>>?◌ {κ μ} : {T : Type κ} {S : Type μ} → Option T → (T → Option S) → Option S
start >>? rest = elim start [ none ↦ none | some value ↦ rest value ]

-- The checks on a body.
unfoldable pub valid_delta : Option DeltaRequest → Option Delta
valid_delta none = none
valid_delta (some b) =
    if not b.is_delta
    then none
    else b.utc_date >>? λ date. valid_id b.delta_id >>? λ id. valid_shard b.shard_id >>? λ shard.
        safe_field b.rows_read >>? λ reads. safe_field b.rows_written >>? λ writes.
        valid_now b.now >>? λ _. some (record {
          shard_id = shard;
          utc_date = date;
          delta_id = id;
          rows_read = reads;
          rows_written = writes;
        })

-- What a call leaves: the storage, the answer and what it sent to the namespace.
pub record Turn : Type 0 where
  pub after : Coordinator
  pub answer : Answer
  pub sent : List Publication

abbrev answered : Coordinator → Answer → Turn
answered c a = record { after = c; answer = a; sent = [] }

unfoldable pub read_quota : Coordinator → ℕ → Option ℕ → String → Answer
read_quota c now none shard = Answer.invalid_identity
read_quota c now (some date) shard =
    let stored = get c.states date in
    if shard === ""
    then Answer.invalid_identity
    else if ltb (utc_date_of now) date
    then Answer.future_date
    else if ltb date (retention_floor_at c now)
    then Answer.expired
    else elim (checked_state stored shard date) [
      | done s ↦ Answer.shown (elim stored [ none ↦ false | some _ ↦ true ]) (public_snapshot s)
      | overflow ↦ Answer.thrown
      | fault ↦ Answer.thrown
    ]

-- The state of the day of the answer.
abbrev today_state : Coordinator → ℕ → Delta → QuotaState → QuotaState
today_state c now b state =
    if utc_date_of now == b.utc_date
    then state
    else or_else (get c.states (utc_date_of now)) (empty_state b.shard_id (utc_date_of now))

-- A valid delta.
unfoldable pub settle : Coordinator → ℕ → KvBinding → Delta → Turn
settle c now kv b =
    if ltb (utc_date_of now) b.utc_date
    then answered c Answer.future_date
    else if ltb b.utc_date (retention_floor_at c now)
    then answered c Answer.expired
    else elim (count_delta c now kv b) [
      | overflow ↦ answered c Answer.overflowed
      | fault ↦ answered c Answer.failed
      | done (c', r) ↦
          let (c'', o, sent) = publish c' now kv b.utc_date r in
          elim o [
            | overflow ↦ record { after = c''; answer = Answer.overflowed; sent = sent }
            | fault ↦ record { after = c''; answer = Answer.failed; sent = sent }
            | done result ↦ record {
              after = c'';
              answer =
                  Answer.counted result.duplicate (public_snapshot result.state)
                    (public_snapshot (today_state c'' now b result.state));
              sent = sent;
            }
          ]
    ]

unfoldable pub handle : Coordinator → ℕ → KvBinding → QuotaRequest → Turn
handle c now kv (get_quota date shard) =
    let c' = ensure_alarm c now in answered c' (read_quota c' now date shard)
handle c now kv other_method = answered (ensure_alarm c now) Answer.method_not_allowed
handle c now kv (post_delta body) =
    let c' = ensure_alarm c now in
    elim (valid_delta body) [
      | none ↦ answered c' Answer.invalid_delta
      | some b ↦ settle c' now kv b
    ]

-- What the object is called with, each on the chain after the other.
pub data Event : Type 0 where
  fetch : (now : ℕ) → KvBinding → QuotaRequest → Event
  alarm : (now : ℕ) → Event

unfoldable pub respond : Coordinator → Event → Turn
respond c (fetch now kv q) = handle c now kv q
respond c (alarm now) = record { after = cleanup c now; answer = Answer.silent; sent = [] }

unfoldable pub respond_all : Coordinator → List Event → Coordinator
respond_all c [] = c
respond_all c (e ∷ es) = respond_all (respond c e).after es
