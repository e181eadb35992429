-- ===== src/Fleet/Registry/Allocate.antt =====
-- worker/src/fleet/registry_do.ts: `placementFor`, `allocate` and `confirm`.
use one_mail.Base.{
  ℕ, ◌+◌, String, Option, none, some, List, [], ◌∷◌, map, Bool, true, false, not, ◌||◌, Dict, get,
  put, leb, ◌==◌, ◌===◌, text_key,
}
use one_mail.Fleet.Contracts.{
  FleetMode, RouteState, MailboxRoute, MetricSeries, ResourceBudget, FleetConfig, PendingAllocation,
  Gate, mailbox_deleted, config_conflict, registry_limit, unknown_mailbox, gate_mismatch, Result,
  ok, fail, raise_if, or_else, ◌>>=◌, ◌>>◌,
}
use one_mail.Fleet.Validation.{safe_add}
use one_mail.Fleet.Metrics.{date_of}
use one_mail.Fleet.Placement.{PlacementDecision, placed, refused, empty_budget, choose_placement}
use one_mail.Fleet.Registry.{
  MailboxRecord, Store, Txn, Response, routed, pending_at, require_config, assert_owner,
  require_allocation_mode, increment_usage, add_affinity,
}

-- The series of the configured accounts, under the account that each names.
gather_metrics :
    Dict String MetricSeries → List String → Dict String MetricSeries → Dict String MetricSeries
gather_metrics stored [] found = found
gather_metrics stored (k ∷ ks) found = gather_metrics stored ks (elim (get stored k) [
  | none ↦ found
  | some series ↦ put found series.report.snapshot.account_key series
])

unfoldable pub placement_for : Store → FleetConfig → List String → ℕ → Result PlacementDecision
unfolding gather_metrics
placement_for s config affinity now = choose_placement (record {
  config = config;
  metrics = gather_metrics s.metrics (map (λ a. a.account_key) config.accounts) [];
  account_reservations = s.budgets;
  shard_reserved_bytes = s.reserved_bytes;
  affinity_shards = affinity;
  now = now;
})

unfoldable pub add_budget : ResourceBudget → ResourceBudget → Result ResourceBudget
add_budget before demand = do
  r ← safe_add (before.reserved_read ∷ demand.reserved_read ∷ [])
  w ← safe_add (before.reserved_write ∷ demand.reserved_write ∷ [])
  q ← safe_add (before.reserved_worker_requests ∷ demand.reserved_worker_requests ∷ [])
  b ← safe_add (before.reserved_bytes ∷ demand.reserved_bytes ∷ [])
  ok (record {
    reserved_read = r;
    reserved_write = w;
    reserved_worker_requests = q;
    reserved_bytes = b;
  })

-- The rest of `allocate` for a mailbox that the registry does not know, on the chosen shard.
unfoldable pub reserve :
    Txn
    → FleetConfig
    → (mailbox user operation shard account : String) → ℕ
    → Result (Txn × Response)
reserve t config mailbox user operation shard account now =
    let s = t.store in
    let demand = config.allocation_budget in
    let pending : PendingAllocation = record {
      operation_id = operation;
      mail_account_id = mailbox;
      owner_shard_id = shard;
      epoch = 1;
      created_at = now;
    } in
    do
      budget ← add_budget (or_else (get s.budgets account) empty_budget) demand
      bytes ← safe_add (or_else (get s.reserved_bytes shard) 0 ∷ demand.reserved_bytes ∷ [])
      counted ←
          increment_usage
            (record s {
              budgets = put s.budgets account budget;
              reserved_bytes = put s.reserved_bytes shard bytes;
              reservations = put s.reservations mailbox (record {
                account_key = account;
                shard_id = shard;
                operation_id = operation;
                utc_date = date_of now;
                demand = demand;
              });
              mailboxes = put s.mailboxes mailbox (record {
                user_key = user;
                route = none;
                pending = some pending;
                deleted = false;
                epoch = 1;
              });
            })
            shard
      s' ← add_affinity counted user shard
      ok (
        record { store = s'; meta = record t.meta { mailbox_count = t.meta.mailbox_count + 1 } },
        pending_at pending,
      )

unfoldable pub allocate_new :
    Txn → FleetConfig → (mailbox user operation : String) → ℕ → Result (Txn × Response)
allocate_new t config mailbox user operation now = do
  raise_if (leb config.max_mailboxes t.meta.mailbox_count) registry_limit 409 false
  decision ←
      placement_for t.store config (map (λ e. e.0) (or_else (get t.store.affinity user) [])) now
  elim decision [
    | refused code ↦ fail code 503 true
    | placed shard account score ↦ reserve t config mailbox user operation shard account now
  ]

-- A mailbox that is there answers for itself; one without route and pending is allocated anew.
allocate_on :
    Txn
    → FleetConfig
    → (mailbox user operation : String) → ℕ
    → Option MailboxRecord
    → Result (Txn × Response)
allocate_on t config mailbox user operation now none =
    allocate_new t config mailbox user operation now
allocate_on t config mailbox user operation now (some m) = do
  raise_if m.deleted mailbox_deleted 409 false
  raise_if (not (m.user_key === user)) config_conflict 409 false
  elim m.route [
    | some route ↦ ok (t, routed route)
    | none ↦ elim m.pending [
      | some pending ↦ ok (t, pending_at pending)
      | none ↦ allocate_new t config mailbox user operation now
    ]
  ]

unfoldable pub allocate :
    Txn → (mailbox user operation : String) → ℕ → FleetMode → Result (Txn × Response)
unfolding allocate_on
allocate t mailbox user operation now mode = do
  require_allocation_mode mode
  config ← require_config t.meta
  allocate_on t config mailbox user operation now (get t.store.mailboxes mailbox)

abbrev mismatches : PendingAllocation → String → Gate → Bool
mismatches p operation gate =
    not (p.operation_id === operation)
    || not (p.owner_shard_id === gate.owner_shard_id)
    || not (p.epoch == gate.epoch)

confirm_on :
    Txn
    → FleetConfig
    → (mailbox operation : String) → Gate
    → ℕ
    → MailboxRecord
    → Option PendingAllocation
    → Result (Txn × Response)
confirm_on t config mailbox operation gate now m none = fail gate_mismatch 409 false
confirm_on t config mailbox operation gate now m (some p) =
    let route : MailboxRoute = record {
      mail_account_id = mailbox;
      owner_shard_id = p.owner_shard_id;
      epoch = p.epoch;
      state = RouteState.active;
      migration_id = none;
      updated_at = now;
    } in
    do
      raise_if (mismatches p operation gate) gate_mismatch 409 false
      assert_owner config p.owner_shard_id
      elim m.route [
        | some r ↦ ok (t, routed r)
        | none ↦ ok (
          record t {
            store = record t.store {
              mailboxes = put t.store.mailboxes mailbox (record m { route = some route });
              routes = put t.store.routes mailbox route;
            };
          },
          routed route,
        )
      ]

unfoldable pub confirm :
    Txn → (mailbox operation : String) → Gate → ℕ → FleetMode → Result (Txn × Response)
unfolding confirm_on
confirm t mailbox operation gate now mode = do
  require_allocation_mode mode
  config ← require_config t.meta
  elim (get t.store.mailboxes mailbox) [
    | none ↦ fail unknown_mailbox 404 false
    | some m ↦
        raise_if m.deleted mailbox_deleted 409 false
        >> confirm_on t config mailbox operation gate now m m.pending
  ]
