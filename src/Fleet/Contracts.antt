-- ===== src/Fleet/Contracts.antt =====
-- worker/src/fleet/contracts.ts: the data that the registry keeps and exchanges, and its errors.
-- An epoch or revision is the number that its decimal text stands for (the text is canonical). An
-- instant is a count of milliseconds and a date a count of days, both from one midnight that lies
-- before them all; the code takes only differences, days and five-minute buckets of them.
use one_mail.Base.{ℕ, String, Option, none, some, List, Dict, Bool, ◌≡◌, refl, ◌⊎◌, inl, inr}

pub data FleetMode : Type 0 where
  legacy_static observe allocate rebalance : FleetMode

pub data ShardState : Type 0 where
  prepared healthy draining degraded exhausted disabled : ShardState

pub data RouteState : Type 0 where
  active frozen deleting : RouteState

pub data Confidence : Type 0 where
  authoritative partial stale : Confidence

pub data Source : Type 0 where
  cloudflare_graphql application_meta reconciled : Source

pub record Shard : Type 0 where
  pub shard_id : String
  pub account_key : String
  pub base_url : String
  pub state : ShardState
  pub schema_version : ℕ
  pub protocol_version : ℕ
  pub storage_limit_bytes : ℕ
  pub observed_size_bytes : ℕ
  pub database_id : String
  pub credential_ref : String

pub record CloudAccount : Type 0 where
  pub account_key : String
  pub provider_account_id : String
  pub enabled : Bool
  pub credential_ref : String
  pub daily_read_limit : ℕ
  pub daily_write_limit : ℕ
  pub worker_request_limit : ℕ
  pub metrics_observed_at : Option ℕ

pub record MailboxRoute : Type 0 where
  pub mail_account_id : String
  pub owner_shard_id : String
  pub epoch : ℕ
  pub state : RouteState
  pub migration_id : Option String
  pub updated_at : ℕ

pub record MetricSnapshot : Type 0 where
  pub account_key : String
  pub utc_date : ℕ
  pub observed_at : ℕ
  pub source : Source
  pub rows_read : ℕ
  pub rows_written : ℕ
  pub worker_requests : ℕ
  pub confidence : Confidence
  pub shard_sizes : Dict String ℕ

pub record MetricReport : Type 0 where
  pub snapshot : MetricSnapshot
  pub projected_rows_read : ℕ
  pub projected_rows_written : ℕ
  pub projected_worker_requests : ℕ

pub record MetricSeries : Type 0 where
  pub report : MetricReport
  pub consecutive_valid_samples : ℕ
  pub baseline : Option MetricReport

pub record ResourceBudget : Type 0 where
  pub reserved_read : ℕ
  pub reserved_write : ℕ
  pub reserved_worker_requests : ℕ
  pub reserved_bytes : ℕ

pub record FleetConfig : Type 0 where
  pub accounts : List CloudAccount
  pub shards : List Shard
  pub primary_shard_id : String
  pub required_schema_version : ℕ
  pub required_protocol_version : ℕ
  pub allocation_budget : ResourceBudget
  pub max_mailboxes : ℕ

pub record PendingAllocation : Type 0 where
  pub operation_id : String
  pub mail_account_id : String
  pub owner_shard_id : String
  pub epoch : ℕ
  pub created_at : ℕ

pub data ErrorCode : Type 0 where
  invalid_request not_configured config_conflict mode_disabled : ErrorCode
  unknown_mailbox missing_owner mailbox_deleted mailbox_not_empty : ErrorCode
  no_capacity stale_metrics revision_conflict idempotency_conflict : ErrorCode
  gate_mismatch counter_overflow registry_limit registry_unavailable : ErrorCode

-- `FleetError`
pub record FleetError : Type 0 where
  pub code : ErrorCode
  pub status : ℕ
  pub retryable : Bool

-- What a handler returns, or the exception that it throws.
pub data Result {κ} (T : Type κ) : Type κ where
  err : (thrown : FleetError) → Result T
  ok : (value : T) → Result T

infixl 5 ◌>>◌ ◌>>=◌
-- The rest of a handler: an exception skips it.
abbrev pub ◌>>=◌ {κ μ} : {T : Type κ} {S : Type μ} → Result T → (T → Result S) → Result S
start >>= rest = elim start [ err thrown ↦ err thrown | ok value ↦ rest value ]

abbrev pub ◌>>◌ {μ} : {S : Type μ} → Result (Unit {0}) → Result S → Result S
check >> rest = check >>= (λ _. rest)

-- What a handler that returned went through.
pub >>=-eq-ok {κ μ} :
    {T : Type κ} {S : Type μ} (start : Result T) (rest : T → Result S) {end : S}
    → (start >>= rest) ≡ ok end
    → (value : T) × (start ≡ ok value) × (rest value ≡ ok end)
>>=-eq-ok (err thrown) rest returned = cc
>>=-eq-ok (ok value) rest returned = (value, refl, returned)

pub Result-cases {κ} :
    {T : Type κ} (r : Result T)
    → ((value : T) × (r ≡ ok value)) ⊎ ((thrown : FleetError) × (r ≡ err thrown))
Result-cases (err thrown) = inr (thrown, refl)
Result-cases (ok value) = inl (value, refl)

-- `throw new FleetError(code, status, retryable)`
abbrev pub fail {ℓ} : {A : Type ℓ} → ErrorCode → ℕ → Bool → Result A
fail c s r = err (record { code = c; status = s; retryable = r })

-- `if (test) throw …`
abbrev pub raise_if : Bool → ErrorCode → ℕ → Bool → Result (Unit {0})
raise_if test c s r = elim test [ Bool.true ↦ fail c s r | Bool.false ↦ ok tt ]

-- `value ?? fallback`
abbrev pub or_else {ℓ} : {A : Type ℓ} → Option A → A → A
or_else none d = d
or_else (some a) d = a

pub ShardState-discrete : Discrete ShardState
ShardState-discrete = hlevel

pub RouteState-discrete : Discrete RouteState
RouteState-discrete = hlevel

-- The request bodies, after their validation.
pub record ImportEntry : Type 0 where
  pub route : MailboxRoute
  pub user_key : String

pub record Gate : Type 0 where
  pub owner_shard_id : String
  pub epoch : ℕ

-- What each path of the registry takes beside the fields of a `MutationRequest`.
pub data Action : Type 0 where
  configures : FleetConfig → Action
  imports : List ImportEntry → Action
  allocates : (mail_account_id user_key : String) → Action
  confirms : (mail_account_id operation_id : String) → Gate → Action
  measures : MetricReport → Action
  tombstones : (mail_account_id : String) → Action

pub record Command : Type 0 where
  pub expected_revision : ℕ
  pub idempotency_key : String
  pub action : Action
