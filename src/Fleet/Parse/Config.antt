-- ===== src/Fleet/Parse/Config.antt =====
-- worker/src/fleet/validation.ts: shards, routes, budgets and the configuration. `parse_url` is the
-- URL parser of the platform.
use one_mail.Base.{
  ℕ, String, Option, none, some, List, [], ◌∷◌, map, Bool, true, false, not, ◌&&◌, ◌||◌, Dict, get,
  delete, any, includes, leb, ◌==◌, ◌===◌, if◌then◌else◌, text_key,
}
use Prim.Native.String.{◌++◌ as concat}
use one_mail.Fleet.Contracts.{
  Shard, ShardState, CloudAccount, MailboxRoute, ResourceBudget, FleetConfig, Result, ok, ◌>>=◌,
  ◌>>◌,
}
use one_mail.Fleet.Validation.{max_mailboxes_limit}
use one_mail.Fleet.Parse.{
  Json, null, str, Value, invalid, valid_if, any_record, record_of, codes, units, id, counter,
  epoch, enumeration, flag, items, map_result, distinct, states, route_states,
}
use one_mail.Fleet.Parse.Calendar.{utc_instant}

-- The parts of a URL that the code reads.
pub record Url : Type 0 where
  pub protocol : String
  pub username : String
  pub password : String
  pub search : String
  pub hash : String
  pub pathname : String
  pub port : String
  pub origin : String

-- A list of at most one value for each field that may be null.
abbrev or_null {ℓ} : {A : Type ℓ} → (Value → Result A) → Value → Result (Option A)
or_null read (some null) = ok none
or_null read v = read v >>= λ a. ok (some a)

unfoldable pub route : Value → Result MailboxRoute
route v = do
  r ←
      record_of
        ("mail_account_id" ∷ "owner_shard_id" ∷ "epoch" ∷ "state" ∷ "migration_id" ∷ "updated_at"
          ∷ [])
        v
  mailbox ← id (get r "mail_account_id")
  owner ← id (get r "owner_shard_id")
  e ← epoch (get r "epoch")
  s ← enumeration route_states (get r "state")
  migration ← or_null id (get r "migration_id")
  at ← utc_instant (get r "updated_at")
  ok (record {
    mail_account_id = mailbox;
    owner_shard_id = owner;
    epoch = e;
    state = s;
    migration_id = migration;
    updated_at = at;
  })

unfoldable pub resource_budget : Value → Result ResourceBudget
resource_budget v = do
  r ←
      record_of
        ("reserved_read" ∷ "reserved_write" ∷ "reserved_worker_requests" ∷ "reserved_bytes" ∷ []) v
  a ← counter false (get r "reserved_read")
  b ← counter false (get r "reserved_write")
  c ← counter false (get r "reserved_worker_requests")
  d ← counter false (get r "reserved_bytes")
  ok (record {
    reserved_read = a;
    reserved_write = b;
    reserved_worker_requests = c;
    reserved_bytes = d;
  })

abbrev pub account_fields : List String
account_fields =
    "account_key" ∷ "provider_account_id" ∷ "enabled" ∷ "credential_ref" ∷ "daily_read_limit"
    ∷ "daily_write_limit" ∷ "worker_request_limit" ∷ "metrics_observed_at" ∷ []

unfoldable pub cloud_account : Json → Result CloudAccount
cloud_account v = do
  r ← record_of account_fields (some v)
  key ← id (get r "account_key")
  provider ← id (get r "provider_account_id")
  on ← flag (get r "enabled")
  credential ← id (get r "credential_ref")
  reads ← counter true (get r "daily_read_limit")
  writes ← counter true (get r "daily_write_limit")
  requests ← counter true (get r "worker_request_limit")
  observed ← or_null utc_instant (get r "metrics_observed_at")
  ok (record {
    account_key = key;
    provider_account_id = provider;
    enabled = on;
    credential_ref = credential;
    daily_read_limit = reads;
    daily_write_limit = writes;
    worker_request_limit = requests;
    metrics_observed_at = observed;
  })

-- `PublicShard`
pub record PublicShard : Type 0 where
  pub shard_id : String
  pub account_key : String
  pub base_url : String
  pub state : ShardState
  pub schema_version : ℕ
  pub protocol_version : ℕ
  pub storage_limit_bytes : ℕ
  pub observed_size_bytes : ℕ

abbrev is_origin : Url → Bool
is_origin u =
    u.protocol === "https:"
    && u.username === ""
    && u.password === ""
    && u.search === ""
    && u.hash === ""
    && u.pathname === "/"
    && u.port === ""

abbrev pub is_empty {ℓ} : {A : Type ℓ} → List A → Bool
is_empty [] = true
is_empty (x ∷ xs) = false

-- The tests on the lists as a whole.
unfoldable pub is_consistent : List CloudAccount → List Shard → Bool
is_consistent accounts shards =
    not (is_empty accounts)
    && not (is_empty shards)
    && distinct (map (λ a. a.account_key) accounts)
    && distinct (map (λ a. a.provider_account_id) accounts)
    && distinct (map (λ s. s.shard_id) shards)
    && distinct (map (λ s. concat s.account_key (concat ":" s.database_id)) shards)
    && distinct (map (λ s. s.base_url) shards)
    && not (any (λ s. not (includes (map (λ a. a.account_key) accounts) s.account_key)) shards)

abbrev pub is_missing : ResourceBudget → Bool
is_missing b =
    b.reserved_read == 0
    || b.reserved_write == 0
    || b.reserved_worker_requests == 0
    || b.reserved_bytes == 0

abbrev pub config_fields : List String
config_fields =
    "accounts" ∷ "shards" ∷ "primary_shard_id" ∷ "required_schema_version"
    ∷ "required_protocol_version" ∷ "allocation_budget" ∷ "max_mailboxes" ∷ []

unfoldable pub config_accounts : Dict String Json → Result (List CloudAccount)
config_accounts r = items 12 (get r "accounts") >>= λ vs. map_result cloud_account vs

-- The rest, once both lists are read.
unfoldable pub config_with : Dict String Json → List CloudAccount → List Shard → Result FleetConfig
config_with r accounts shards = do
  valid_if (is_consistent accounts shards)
  primary ← id (get r "primary_shard_id")
  valid_if (any (λ s. s.shard_id === primary) shards)
  limit ← counter true (get r "max_mailboxes")
  valid_if (leb limit max_mailboxes_limit)
  budget ← resource_budget (get r "allocation_budget")
  valid_if (not (is_missing budget))
  schema ← counter true (get r "required_schema_version")
  protocol ← counter true (get r "required_protocol_version")
  ok (record {
    accounts = accounts;
    shards = shards;
    primary_shard_id = primary;
    required_schema_version = schema;
    required_protocol_version = protocol;
    allocation_budget = budget;
    max_mailboxes = limit;
  })

abbrev pub shard_fields : List String
shard_fields =
    "shard_id" ∷ "account_key" ∷ "base_url" ∷ "state" ∷ "schema_version" ∷ "protocol_version"
    ∷ "storage_limit_bytes" ∷ "observed_size_bytes" ∷ []

module _ (parse_url : String → Option Url) where
  unfoldable pub origin : Value → Result String
  origin (some (str s)) =
      if leb (units (codes s)) 256
      then elim (parse_url s) [
        | none ↦ invalid
        | some u ↦ if is_origin u then ok u.origin else invalid
      ]
      else invalid
  origin _ = invalid

  -- `publicShard`, of fields that were taken apart.
  unfoldable pub public_shard_of : Dict String Json → Result PublicShard
  public_shard_of r = do
    i ← id (get r "shard_id")
    a ← id (get r "account_key")
    u ← origin (get r "base_url")
    s ← enumeration states (get r "state")
    v ← counter true (get r "schema_version")
    p ← counter true (get r "protocol_version")
    limit ← counter true (get r "storage_limit_bytes")
    size ← counter false (get r "observed_size_bytes")
    ok (record {
      shard_id = i;
      account_key = a;
      base_url = u;
      state = s;
      schema_version = v;
      protocol_version = p;
      storage_limit_bytes = limit;
      observed_size_bytes = size;
    })

  unfoldable pub public_shard : Value → Result PublicShard
  public_shard v = record_of shard_fields v >>= λ r. public_shard_of r

  -- A shard of a configuration: the public fields, and two more.
  unfoldable pub shard : Json → Result Shard
  shard v = do
    r ← any_record (some v)
    let others = delete (delete r "database_id") "credential_ref"
    valid_if (not (any (λ e. not (includes shard_fields e.0)) others))
    p ← public_shard_of others
    d ← id (get r "database_id")
    c ← id (get r "credential_ref")
    ok (record {
      shard_id = p.shard_id;
      account_key = p.account_key;
      base_url = p.base_url;
      state = p.state;
      schema_version = p.schema_version;
      protocol_version = p.protocol_version;
      storage_limit_bytes = p.storage_limit_bytes;
      observed_size_bytes = p.observed_size_bytes;
      database_id = d;
      credential_ref = c;
    })

  unfoldable pub config_shards : Dict String Json → Result (List Shard)
  config_shards r = items 12 (get r "shards") >>= λ vs. map_result shard vs

  unfoldable pub fleet_config : Value → Result FleetConfig
  fleet_config v = record_of config_fields v >>= λ r.
      config_accounts r >>= λ accounts. config_shards r >>= λ shards. config_with r accounts shards
