-- ===== src/Fleet/Registry/Service.antt =====
-- worker/src/fleet/registry_do.ts: `execute`, the transaction of a command, `plan`, `read`, and the
-- answers of `fetch`. `digest` is the hash of a command's path and canonical text (SHA-256 in the
-- program).
use one_mail.Base.{
  ℕ, ◌+◌, String, Option, none, some, List, [], ◌∷◌, map, true, false, not, Dict, get, put, put_all,
  ◌||◌, any, leb, ltb, ◌==◌, ◌===◌, if◌then◌else◌, length, text_key,
}
use one_mail.Fleet.Contracts.{
  FleetMode, MailboxRoute, Shard, PendingAllocation, Action, Command, configures, imports,
  allocates, confirms, measures, tombstones, idempotency_conflict, revision_conflict,
  registry_limit, unknown_mailbox, mailbox_deleted, missing_owner, invalid_request, Result, ok, err,
  fail, raise_if, or_else, ◌>>=◌, ◌>>◌,
}
use one_mail.Fleet.Validation.{next_epoch}
use one_mail.Fleet.Placement.{PlacementDecision}
use one_mail.Fleet.Registry.{
  Response, Reply, Txn, Registry, empty_meta, max_operations, require_config, is_owner,
  assert_owner, put_audit, prune_operations,
}
use one_mail.Fleet.Registry.Configure.{configure, metrics, shard_index}
use one_mail.Fleet.Registry.Import.{import_routes}
use one_mail.Fleet.Registry.Allocate.{allocate, confirm, placement_for}
use one_mail.Fleet.Registry.Tombstone.{tombstone, owner_of}

-- `modeOf`
unfoldable pub mode_of : Option String → Result FleetMode
mode_of none = ok FleetMode.legacy_static
mode_of (some v) =
    if v === "" || v === "legacy-static"
    then ok FleetMode.legacy_static
    else if v === "observe"
    then ok FleetMode.observe
    else if v === "allocate"
    then ok FleetMode.allocate
    else if v === "rebalance"
    then ok FleetMode.rebalance
    else fail invalid_request 400 false

unfoldable pub execute : Txn → String → Action → ℕ → FleetMode → Result (Txn × Response)
execute t key (configures config) now mode = configure t config
execute t key (imports entries) now mode = import_routes t entries
execute t key (measures report) now mode = metrics t report now
execute t key (allocates mailbox user) now mode = allocate t mailbox user key now mode
execute t key (confirms mailbox operation gate) now mode = confirm t mailbox operation gate now mode
execute t key (tombstones mailbox) now mode = tombstone t mailbox now

-- What is written when the handler has returned.
unfoldable pub commit : String → String → ℕ → ℕ → Txn × Response → Registry × Reply
commit fingerprint key revision now (t, response) =
    let reply : Reply = record { response = response; revision = revision } in
    (
      record {
        store = record t.store {
          operations =
              put t.store.operations key
                (record { fingerprint = fingerprint; reply = reply; created_at = now });
          audit = put_audit t.store.audit (record { at = now; idempotency_key = key });
        };
        meta = some (record t.meta {
          revision = revision;
          updated_at = now;
          operation_count = t.meta.operation_count + 1;
        });
      },
      reply,
    )

-- A command that no operation record answers.
unfoldable pub run_command : Registry → String → Command → ℕ → FleetMode → Result (Registry × Reply)
run_command r fingerprint c now mode =
    let meta = or_else r.meta (empty_meta now) in
    do
      raise_if (not (meta.revision == c.expected_revision)) revision_conflict 409 true
      revision ← next_epoch meta.revision
      let t = prune_operations (record { store = r.store; meta = meta }) now
      raise_if (leb max_operations t.meta.operation_count) registry_limit 503 true
      done ← execute t c.idempotency_key c.action now mode
      ok (commit fingerprint c.idempotency_key revision now done)

-- The transaction of `fetch`: a replay comes before the comparison of revisions.
unfoldable pub transact :
    (Command → String) → Registry → Command → ℕ → FleetMode → Result (Registry × Reply)
transact digest r c now mode = elim (get r.store.operations c.idempotency_key) [
  | none ↦ run_command r (digest c) c now mode
  | some previous ↦
      if previous.fingerprint === digest c
      then ok (r, previous.reply)
      else fail idempotency_conflict 409 false
]

unfoldable pub plan : Registry → ℕ → List String → ℕ → Result (ℕ × PlacementDecision)
plan r expected affinity now =
    let meta = or_else r.meta (empty_meta now) in
    do
      config ← require_config meta
      raise_if (not (meta.revision == expected)) revision_conflict 409 true
      raise_if (any (λ s. not (is_owner config s)) affinity) invalid_request 400 false
      decision ← placement_for r.store config affinity now
      ok (meta.revision, decision)

-- The answer of `/route`: the revision, the route and the pending allocation.
pub record RouteAnswer : Type 0 where
  pub revision : ℕ
  pub route : Option MailboxRoute
  pub pending : Option PendingAllocation

unfoldable pub read_route : Registry → String → ℕ → Result RouteAnswer
read_route r mailbox now =
    let meta = or_else r.meta (empty_meta now) in
    do
      config ← require_config meta
      elim (get r.store.mailboxes mailbox) [
        | none ↦ fail unknown_mailbox 404 false
        | some m ↦ do
          raise_if m.deleted mailbox_deleted 409 false
          elim (owner_of m) [
            | none ↦ fail missing_owner 503 true
            | some owner ↦
                assert_owner config owner
                >> ok (record { revision = meta.revision; route = m.route; pending = m.pending })
          ]
      ]

pub record SnapshotAnswer : Type 0 where
  pub revision : ℕ
  pub published_at : ℕ
  pub mailbox_routes : Dict String MailboxRoute
  pub shards : Dict String Shard

-- The routes under the mailbox that each names; the listing stops one past the limit.
unfoldable pub read_snapshot : Registry → ℕ → Result SnapshotAnswer
read_snapshot r now =
    let meta = or_else r.meta (empty_meta now) in
    do
      config ← require_config meta
      raise_if (ltb config.max_mailboxes (length r.store.routes)) registry_limit 503 false
      raise_if (any (λ e. not (is_owner config e.1.owner_shard_id)) r.store.routes) missing_owner
          503 true
      ok (record {
        revision = meta.revision;
        published_at = meta.updated_at;
        mailbox_routes = put_all (λ r. r.mail_account_id) [] (map (λ e. e.1) r.store.routes);
        shards = shard_index config.shards;
      })

-- A failed transaction writes nothing.
unfoldable pub serve : (Command → String) → Registry → Command → ℕ → FleetMode → Registry
serve digest r c now mode = elim (transact digest r c now mode) [ ok (r', reply) ↦ r' | err e ↦ r ]

-- The registry after a history of commands, each with its time and mode.
unfoldable pub serve_all : (Command → String) → Registry → List (Command × ℕ × FleetMode) → Registry
serve_all digest r [] = r
serve_all digest r ((c, now, mode) ∷ cs) = serve_all digest (serve digest r c now mode) cs
