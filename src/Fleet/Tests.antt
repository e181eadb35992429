-- ===== src/Fleet/Tests.antt =====
-- The registry of worker/src/fleet on a small fleet: two accounts with a shard each, beside the
-- primary one.
use one_mail.Base.{
  same-ne, ℕ, ◌+◌, ◌*◌, ◌≡◌, ◌≢◌, refl, String, none, some, List, [], ◌∷◌, true, false, get, put,
  delete, put_all, text_dec, In, arith, text_key,
}
use one_mail.Fleet.Contracts.{
  missing_owner, ShardState, RouteState, Confidence, Source, FleetMode, Shard, CloudAccount,
  MailboxRoute, MetricSeries, FleetConfig, Command, configures, imports, tombstones, ok, fail,
  idempotency_conflict,
}
use one_mail.Fleet.Validation.{safe_add, next_epoch}
use one_mail.Fleet.Metrics.{is_current, day_ms}
use one_mail.Fleet.Placement.{
  PlacementInput, placed, choose_placement, decide_placement, scan, absorb, judge, measured,
  is_usable, score_shard, maximum_from, select, choose, lt_text,
}
use one_mail.Fleet.Placement.Sound.{Qualifies}
use one_mail.Fleet.Placement.Chosen.{HasAllLimits, choose_placement-Qualifies}
use one_mail.Fleet.Registry.{
  MailboxRecord, Registry, Reply, configured, put_audit, prune_operations, require_config,
  assert_owner, increment_usage, add_affinity, remove_affinity,
}
use one_mail.Fleet.Registry.Configure.{configure, keeps_used_shards}
use one_mail.Fleet.Registry.Import.{import_routes, import_entries, import_entry}
use one_mail.Fleet.Registry.Tombstone.{tombstone, owner_of}
use one_mail.Fleet.Registry.Reads.{serve_all-missing_owner}
use one_mail.Fleet.Registry.Service.{
  read_route, read_snapshot, execute, commit, run_command, transact, serve, serve_all,
}
use one_mail.Fleet.Registry.History.{begin, initial}
use one_mail.Fleet.Registry.Capacity.{Bounded, serve_all-Bounded}
use one_mail.Fleet.Registry.Permanence.{Life, serve_all-Life, serve_all-owner, serve_all-deleted}
use one_mail.Fleet.Registry.Commands.{Answers, transact-Answers, transact_conflict}
use one_mail.Fleet.Registry.Receipts.{transact_again}
use one_mail.Fleet.Registry.{OperationRecord}

abbrev account : String → CloudAccount
account key = record {
  account_key = key;
  provider_account_id = key;
  enabled = true;
  credential_ref = "c";
  daily_read_limit = 1000;
  daily_write_limit = 1000;
  worker_request_limit = 1000;
  metrics_observed_at = none;
}

abbrev shard : String → String → Shard
shard id key = record {
  shard_id = id;
  account_key = key;
  base_url = id;
  state = ShardState.healthy;
  schema_version = 1;
  protocol_version = 1;
  storage_limit_bytes = 1000;
  observed_size_bytes = 0;
  database_id = id;
  credential_ref = "c";
}

abbrev config : FleetConfig
config = record {
  accounts = account "a" ∷ account "b" ∷ [];
  shards = shard "p" "a" ∷ shard "s" "a" ∷ shard "t" "b" ∷ [];
  primary_shard_id = "p";
  required_schema_version = 1;
  required_protocol_version = 1;
  allocation_budget = record {
    reserved_read = 10;
    reserved_write = 10;
    reserved_worker_requests = 10;
    reserved_bytes = 10;
  };
  max_mailboxes = 2;
}

abbrev now : ℕ
now = 1000 * day_ms + 600000

abbrev series : String → String → ℕ → MetricSeries
series key id used = record {
  report = record {
    snapshot = record {
      account_key = key;
      utc_date = 1000;
      observed_at = 1000 * day_ms + 600000;
      source = Source.cloudflare_graphql;
      rows_read = used;
      rows_written = used;
      worker_requests = used;
      confidence = Confidence.authoritative;
      shard_sizes = (id, used) ∷ [];
    };
    projected_rows_read = used;
    projected_rows_written = used;
    projected_worker_requests = used;
  };
  consecutive_valid_samples = 3;
  baseline = none;
}

abbrev input : PlacementInput
input = record {
  config = config;
  metrics = ("a", series "a" "s" 500) ∷ ("b", series "b" "t" 100) ∷ [];
  account_reservations = [];
  shard_reserved_bytes = [];
  affinity_shards = [];
  now = now;
}

input_placed : choose_placement input ≡ ok (placed "t" "b" 110000)
unfolding choose_placement decide_placement scan absorb judge measured is_usable is_current
    score_shard maximum_from safe_add select choose lt_text get put put_all text_dec
input_placed = refl

config-HasAllLimits : HasAllLimits config
config-HasAllLimits = omega arith

choose_placement-Qualifies_example :
    (sh : Shard) × (a : CloudAccount) × In sh config.shards
    × (sh.shard_id ≡ "t")
    × (a.account_key ≡ "b")
    × Qualifies input sh a
choose_placement-Qualifies_example =
    choose_placement-Qualifies input "t" "b" 110000 config-HasAllLimits input_placed

abbrev digest : Command → String
digest c = c.idempotency_key

abbrev route : MailboxRoute
route = record {
  mail_account_id = "m";
  owner_shard_id = "s";
  epoch = 7;
  state = RouteState.active;
  migration_id = none;
  updated_at = 5;
}

abbrev configuring : Command
configuring = record { expected_revision = 0; idempotency_key = "k0"; action = configures config }

abbrev importing : Command
importing = record {
  expected_revision = 1;
  idempotency_key = "k1";
  action = imports (record { route = route; user_key = "u" } ∷ []);
}

abbrev burying : Command
burying = record { expected_revision = 2; idempotency_key = "k2"; action = tombstones "m" }

abbrev history : List (Command × ℕ × FleetMode)
history = (configuring, now, FleetMode.observe) ∷ (importing, now, FleetMode.observe) ∷ []

abbrev burial : List (Command × ℕ × FleetMode)
burial = (burying, now, FleetMode.observe) ∷ []

abbrev known : Registry
known = serve_all digest initial history

abbrev mailbox : MailboxRecord
mailbox = record { user_key = "u"; route = some route; pending = none; deleted = false; epoch = 7 }

known_mailbox : get known.store.mailboxes "m" ≡ some mailbox
unfolding serve_all serve transact run_command next_epoch execute configure keeps_used_shards
    import_routes import_entries import_entry require_config assert_owner increment_usage
    add_affinity safe_add prune_operations commit put_audit get put put_all delete text_dec lt_text
known_mailbox = refl

serve_all-Bounded_example : Bounded (begin (serve_all digest initial history) 0)
serve_all-Bounded_example = serve_all-Bounded digest history

serve_all-Life_example :
    (m' : MailboxRecord) × (get (serve_all digest known burial).store.mailboxes "m" ≡ some m')
    × Life mailbox
        (get known.store.routes "m")
        m'
        (get (serve_all digest known burial).store.routes "m")
serve_all-Life_example = serve_all-Life digest known burial "m" mailbox known_mailbox

serve_all-owner_example :
    (m' : MailboxRecord) × (get (serve_all digest known burial).store.mailboxes "m" ≡ some m')
    × (owner_of m' ≡ some "s")
serve_all-owner_example = serve_all-owner digest known burial "m" "s" mailbox known_mailbox refl

-- Two kinds of commands, told apart.
abbrev by_kind : Command → String
by_kind c = elim c.action [ configures _ ↦ "configure" | _ ↦ "other" ]

abbrev started : Registry
started = serve by_kind initial configuring now FleetMode.observe

abbrev start_reply : Reply
start_reply = record { response = configured; revision = 1 }

started_ok : transact by_kind initial configuring now FleetMode.observe ≡ ok (started, start_reply)
unfolding serve transact run_command next_epoch execute configure keeps_used_shards prune_operations
    commit put_audit get put put_all delete text_dec lt_text
started_ok = refl

transact-Answers_example : Answers by_kind initial configuring started start_reply
transact-Answers_example =
    transact-Answers by_kind initial configuring now FleetMode.observe started start_reply
      started_ok

-- The repetition comes a week later, after a command that fails and one that is carried out.
abbrev meanwhile : List (Command × ℕ × FleetMode)
meanwhile =
    (
      record { expected_revision = 0; idempotency_key = "k1"; action = tombstones "m" },
      now + 604800000,
      FleetMode.observe,
    )
    ∷ (
      record { expected_revision = 1; idempotency_key = "k2"; action = tombstones "m" },
      now + 604800000,
      FleetMode.observe,
    )
    ∷ []

abbrev started_record : OperationRecord
started_record = record { fingerprint = by_kind configuring; reply = start_reply; created_at = now }

started_stored : get started.store.operations "k0" ≡ some started_record
unfolding get text_dec serve transact run_command next_epoch prune_operations execute configure
    keeps_used_shards commit put
started_stored = refl

transact_again_example :
    transact by_kind
      (serve_all by_kind started meanwhile)
      configuring
      (now + 604800001)
      FleetMode.allocate
    ≡ ok (serve_all by_kind started meanwhile, start_reply)
unfolding serve_all
transact_again_example =
    transact_again by_kind [] meanwhile configuring now FleetMode.observe started start_reply
      started_record (now + 604800001) FleetMode.allocate started_ok started_stored
      (omega arith, (omega arith, tt))

abbrev clashing : Command
clashing = record { expected_revision = 1; idempotency_key = "k0"; action = tombstones "m" }

other_kind : by_kind clashing ≢ by_kind configuring
unfolding text_dec
other_kind = same-ne (by_kind clashing) (by_kind configuring) refl

transact_conflict_example :
    transact by_kind started clashing now FleetMode.observe ≡ fail idempotency_conflict 409 false
transact_conflict_example =
    transact_conflict by_kind initial configuring clashing now FleetMode.observe started start_reply
      started_ok refl other_kind now FleetMode.observe

abbrev buried : Registry
buried = serve_all digest known burial

abbrev buried_mailbox : MailboxRecord
buried_mailbox = record mailbox { deleted = true; epoch = 8 }

buried_mailbox_found : get buried.store.mailboxes "m" ≡ some buried_mailbox
unfolding serve_all serve transact run_command next_epoch execute configure keeps_used_shards
    import_routes import_entries import_entry require_config assert_owner increment_usage
    add_affinity safe_add prune_operations commit put_audit get put put_all delete text_dec lt_text
    tombstone remove_affinity
buried_mailbox_found = refl

serve_all-deleted_example :
    (get (serve_all digest buried burial).store.mailboxes "m" ≡ some buried_mailbox)
    × (get (serve_all digest buried burial).store.routes "m" ≡ get buried.store.routes "m")
serve_all-deleted_example =
    serve_all-deleted digest buried burial "m" buried_mailbox buried_mailbox_found refl

serve_all-missing_owner_example :
    (read_route (serve_all digest initial history) "m" now ≢ fail missing_owner 503 true)
    × (read_snapshot (serve_all digest initial history) now ≢ fail missing_owner 503 true)
serve_all-missing_owner_example = serve_all-missing_owner digest history "m" now
