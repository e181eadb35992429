-- ===== src/Fleet/Registry.antt =====
-- worker/src/fleet/registry_do.ts: what the durable object stores, and the helpers of its handlers.
-- The keys of the storage that share a prefix are one index here; `meta` is the object that a
-- transaction reads first, changes on the way and writes back at its end.
pub mod Configure
pub mod Import
pub mod Allocate
pub mod Tombstone
pub mod Service
pub mod History
pub mod Inversion
pub mod Capacity
pub mod Lifecycle
pub mod Permanence
pub mod Commands
pub mod Receipts
pub mod Owners
pub mod Ownership
pub mod Reads
use one_mail.Base.{
  ℕ, zero, suc, ◌-◌, String, Option, none, some, List, [], ◌∷◌, Bool, true, false, ◌&&◌, ◌||◌, Dict,
  get, put, delete, any, ltb, leb, ◌==◌, ◌===◌, if◌then◌else◌, text_key,
}
use one_mail.Fleet.Contracts.{
  FleetMode, MailboxRoute, MetricSeries, ResourceBudget, FleetConfig, PendingAllocation,
  missing_owner, mode_disabled, not_configured, Result, ok, fail, or_else, ◌>>=◌,
}
use one_mail.Fleet.Validation.{safe_add}
use one_mail.Fleet.Placement.{lt_text}

-- `RegistryMeta`
pub record Meta : Type 0 where
  pub revision : ℕ
  pub updated_at : ℕ
  pub config : Option FleetConfig
  pub mailbox_count : ℕ
  pub operation_count : ℕ

pub record MailboxRecord : Type 0 where
  pub user_key : String
  pub route : Option MailboxRoute
  pub pending : Option PendingAllocation
  pub deleted : Bool
  pub epoch : ℕ

-- The value of a `registry:reservation:` key, whose state is always "held".
pub record Reservation : Type 0 where
  pub account_key : String
  pub shard_id : String
  pub operation_id : String
  pub utc_date : ℕ
  pub demand : ResourceBudget

-- The body of an answer, without its revision.
pub data Response : Type 0 where
  configured : Response
  imported : ℕ → Response
  sampled : ℕ → Response
  routed : MailboxRoute → Response
  pending_at : PendingAllocation → Response
  was_deleted : (mail_account_id : String) (epoch : ℕ) → Response
  tombstoned :
      (mail_account_id : String) (epoch : ℕ) (owner_shard_id : Option String) (updated_at : ℕ)
      → Response

pub record Reply : Type 0 where
  pub response : Response
  pub revision : ℕ

pub record OperationRecord : Type 0 where
  pub fingerprint : String
  pub reply : Reply
  pub created_at : ℕ

-- An audit key, `<now>:<idempotency key>`; its value is the key of the operation.
pub record AuditEntry : Type 0 where
  pub at : ℕ
  pub idempotency_key : String

pub record Store : Type 0 where
  pub routes : Dict String MailboxRoute
  pub mailboxes : Dict String MailboxRecord
  pub metrics : Dict String MetricSeries
  pub operations : Dict String OperationRecord
  pub audit : List AuditEntry
  pub usage : Dict String ℕ
  pub affinity : Dict String (Dict String ℕ)
  pub budgets : Dict String ResourceBudget
  pub reserved_bytes : Dict String ℕ
  pub reservations : Dict String Reservation

-- A transaction under way: its copy of the storage, and the object `meta`.
pub record Txn : Type 0 where
  pub store : Store
  pub meta : Meta

-- Between transactions: `meta` is missing until the first command has been carried out.
pub record Registry : Type 0 where
  pub store : Store
  pub meta : Option Meta

abbrev pub empty_meta : ℕ → Meta
empty_meta now = record {
  revision = 0;
  updated_at = now;
  config = none;
  mailbox_count = 0;
  operation_count = 0;
}

abbrev pub empty_store : Store
empty_store = record {
  routes = [];
  mailboxes = [];
  metrics = [];
  operations = [];
  audit = [];
  usage = [];
  affinity = [];
  budgets = [];
  reserved_bytes = [];
  reservations = [];
}

abbrev pub retention_ms : ℕ
retention_ms = 2592000000

abbrev pub max_operations : ℕ
max_operations = 200000

unfoldable pub require_config : Meta → Result FleetConfig
require_config meta = elim meta.config [ none ↦ fail not_configured 503 true | some c ↦ ok c ]

abbrev pub is_owner : FleetConfig → String → Bool
is_owner config owner = any (λ s. s.shard_id === owner) config.shards

unfoldable pub assert_owner : FleetConfig → String → Result (Unit {0})
assert_owner config owner = if is_owner config owner then ok tt else fail missing_owner 503 true

unfoldable pub require_allocation_mode : FleetMode → Result (Unit {0})
require_allocation_mode FleetMode.allocate = ok tt
require_allocation_mode FleetMode.rebalance = ok tt
require_allocation_mode _ = fail mode_disabled 409 false

unfoldable pub increment_usage : Store → String → Result Store
increment_usage s shard = do
  n ← safe_add (or_else (get s.usage shard) 0 ∷ 1 ∷ [])
  ok (record s { usage = put s.usage shard n })

unfoldable pub add_affinity : Store → String → String → Result Store
add_affinity s user shard =
    let shards = or_else (get s.affinity user) [] in
    do
      n ← safe_add (or_else (get shards shard) 0 ∷ 1 ∷ [])
      ok (record s { affinity = put s.affinity user (put shards shard n) })

abbrev pub is_empty {ℓ} : {A : Type ℓ} → List A → Bool
is_empty [] = true
is_empty (_ ∷ _) = false

unfoldable pub remove_affinity : Store → String → String → Store
remove_affinity s user shard =
    let shards = or_else (get s.affinity user) [] in
    let count = or_else (get shards shard) 0 in
    let left = if leb count 1 then delete shards shard else put shards shard (count - 1) in
    record s {
      affinity = if is_empty left then delete s.affinity user else put s.affinity user left;
    }

-- The storage lists its keys in order.
unfoldable pub put_audit : List AuditEntry → AuditEntry → List AuditEntry
put_audit [] e = e ∷ []
put_audit (d ∷ ds) e =
    if ltb d.at e.at || (d.at == e.at && lt_text d.idempotency_key e.idempotency_key)
    then d ∷ put_audit ds e
    else if d.at == e.at && d.idempotency_key === e.idempotency_key
    then e ∷ ds
    else e ∷ d ∷ ds

abbrev same_entry : AuditEntry → AuditEntry → Bool
same_entry d e = d.at == e.at && d.idempotency_key === e.idempotency_key

unfoldable pub remove_audit : List AuditEntry → AuditEntry → List AuditEntry
remove_audit [] e = []
remove_audit (d ∷ ds) e = let rest = remove_audit ds e in if same_entry d e then rest else d ∷ rest

-- `txn.list({ prefix, end: cutoff, limit: n })`
unfoldable pub list_before : ℕ → ℕ → List AuditEntry → List AuditEntry
list_before n cutoff [] = []
list_before zero cutoff (e ∷ es) = []
list_before (suc n) cutoff (e ∷ es) = elim (ltb e.at cutoff) [
  | true ↦ e ∷ list_before n cutoff es
  | false ↦ list_before (suc n) cutoff es
]

unfoldable pub drop_operation : Txn → AuditEntry → Txn
unfolding remove_audit
drop_operation t e = record {
  store = record t.store {
    operations = delete t.store.operations e.idempotency_key;
    audit = remove_audit t.store.audit e;
  };
  meta = record t.meta { operation_count = t.meta.operation_count - 1 };
}

unfoldable pub drop_operations : Txn → List AuditEntry → Txn
drop_operations t [] = t
drop_operations t (e ∷ es) = drop_operations (drop_operation t e) es

unfoldable pub prune_operations : Txn → ℕ → Txn
unfolding list_before drop_operation drop_operations
prune_operations t now = drop_operations t (list_before 100 (now - retention_ms) t.store.audit)
