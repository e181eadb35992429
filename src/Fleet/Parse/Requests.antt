-- ===== src/Fleet/Parse/Requests.antt =====
-- worker/src/fleet/validation.ts: the bodies of the requests, and the snapshot that a client reads.
use one_mail.Base.{
  ℕ, String, Option, none, some, List, [], ◌∷◌, map, Bool, true, false, not, ◌&&◌, Dict, get, leb,
  ◌==◌, ◌===◌, if◌then◌else◌, length, text_key,
}
use one_mail.Fleet.Contracts.{
  MailboxRoute, MetricReport, ImportEntry, Action, Command, configures, imports, allocates,
  confirms, measures, tombstones, mailbox_not_empty, missing_owner, Result, ok, fail, ◌>>=◌, ◌>>◌,
}
use one_mail.Fleet.Validation.{max_mailboxes_limit}
use one_mail.Fleet.Parse.{
  Json, null, bool, num, str, arr, Value, no_items, valid_if, any_record, record_of, id, counter,
  epoch, enumeration, items, map_result, distinct, sources, confidences,
}
use one_mail.Fleet.Parse.Calendar.{utc_instant, utc_date}
use one_mail.Fleet.Parse.Config.{Url, PublicShard, public_shard, route, fleet_config}

abbrev is_true : Value → Bool
is_true (some (bool true)) = true
is_true _ = false

abbrev is_text : String → Value → Bool
is_text s (some (str t)) = t === s
is_text s _ = false

-- `mutation`, with what the request asks for.
abbrev command : Dict String Json → Result Action → Result Command
command r action = do
  revision ← epoch (get r "expected_revision")
  key ← id (get r "idempotency_key")
  a ← action
  ok (record { expected_revision = revision; idempotency_key = key; action = a })

unfoldable pub import_entry_of : Json → Result ImportEntry
import_entry_of v = do
  e ← record_of ("route" ∷ "user_key" ∷ "gate_confirmed" ∷ []) (some v)
  valid_if (is_true (get e "gate_confirmed"))
  r ← route (get e "route")
  u ← id (get e "user_key")
  ok (record { route = r; user_key = u })

abbrev is_nil {ℓ} : {A : Type ℓ} → List A → Bool
is_nil [] = true
is_nil (x ∷ xs) = false

unfoldable pub import_request : Value → Result Command
import_request v = do
  r ← record_of ("expected_revision" ∷ "idempotency_key" ∷ "mailboxes" ∷ []) v
  vs ← items 100 (get r "mailboxes")
  entries ← map_result import_entry_of vs
  valid_if (not (is_nil entries) && distinct (map (λ e. e.route.mail_account_id) entries))
  command r (ok (imports entries))

unfoldable pub allocate_request : Value → Result Command
allocate_request v = do
  r ←
      record_of
        ("expected_revision" ∷ "idempotency_key" ∷ "mail_account_id" ∷ "user_key" ∷ "known_empty"
          ∷ [])
        v
  (if is_true (get r "known_empty") then ok tt else fail mailbox_not_empty 409 false)
  command r
      (id (get r "mail_account_id") >>= λ m. id (get r "user_key") >>= λ u. ok (allocates m u))

unfoldable pub confirm_request : Value → Result Command
confirm_request v = do
  r ←
      record_of
        ("expected_revision" ∷ "idempotency_key" ∷ "mail_account_id" ∷ "operation_id" ∷ "gate" ∷ [])
        v
  g ← record_of ("owner_shard_id" ∷ "epoch" ∷ "mode" ∷ []) (get r "gate")
  valid_if (is_text "active" (get g "mode"))
  command r (
      id (get r "mail_account_id") >>= λ m. id (get r "operation_id") >>= λ o.
      id (get g "owner_shard_id") >>= λ w.
      epoch (get g "epoch") >>= λ e. ok (confirms m o (record { owner_shard_id = w; epoch = e })))

unfoldable pub tombstone_request : Value → Result Command
tombstone_request v = do
  r ← record_of ("expected_revision" ∷ "idempotency_key" ∷ "mail_account_id" ∷ []) v
  command r (id (get r "mail_account_id") >>= λ m. ok (tombstones m))

-- An entry of `shard_sizes`: the name is an id, too.
abbrev size_of : String × Json → Result (String × ℕ)
size_of (key, bytes) = id (some (str key)) >>= λ k. counter false (some bytes) >>= λ n. ok (k, n)

abbrev is_projected : MetricReport → Bool
is_projected r =
    leb r.snapshot.rows_read r.projected_rows_read
    && leb r.snapshot.rows_written r.projected_rows_written
    && leb r.snapshot.worker_requests r.projected_worker_requests

unfoldable pub metric_report : Value → Result MetricReport
metric_report v = do
  r ←
      record_of
        ("snapshot" ∷ "projected_rows_read" ∷ "projected_rows_written" ∷ "projected_worker_requests"
          ∷ [])
        v
  s ←
      record_of
        ("account_key" ∷ "utc_date" ∷ "observed_at" ∷ "source" ∷ "rows_read" ∷ "rows_written"
          ∷ "worker_requests" ∷ "confidence" ∷ "shard_sizes" ∷ [])
        (get r "snapshot")
  sizes ← any_record (get s "shard_sizes")
  valid_if (leb (length sizes) 12)
  shard_sizes ← map_result size_of sizes
  key ← id (get s "account_key")
  date ← utc_date (get s "utc_date")
  at ← utc_instant (get s "observed_at")
  source ← enumeration sources (get s "source")
  reads ← counter false (get s "rows_read")
  writes ← counter false (get s "rows_written")
  requests ← counter false (get s "worker_requests")
  confidence ← enumeration confidences (get s "confidence")
  projected_reads ← counter false (get r "projected_rows_read")
  projected_writes ← counter false (get r "projected_rows_written")
  projected_requests ← counter false (get r "projected_worker_requests")
  let report : MetricReport = record {
    snapshot = record {
      account_key = key;
      utc_date = date;
      observed_at = at;
      source = source;
      rows_read = reads;
      rows_written = writes;
      worker_requests = requests;
      confidence = confidence;
      shard_sizes = shard_sizes;
    };
    projected_rows_read = projected_reads;
    projected_rows_written = projected_writes;
    projected_worker_requests = projected_requests;
  }
  valid_if (is_projected report)
  ok report

unfoldable pub metrics_request : Value → Result Command
metrics_request v = do
  r ← record_of ("expected_revision" ∷ "idempotency_key" ∷ "report" ∷ []) v
  command r (metric_report (get r "report") >>= λ m. ok (measures m))

-- `PlanRequest`
pub record PlanRequest : Type 0 where
  pub expected_revision : ℕ
  pub affinity_shard_ids : List String

-- `value ?? []`
abbrev or_no_items : Value → Value
or_no_items none = some (arr no_items)
or_no_items (some null) = some (arr no_items)
or_no_items v = v

unfoldable pub plan_request : Value → Result PlanRequest
plan_request v = do
  r ← record_of ("expected_revision" ∷ "affinity_shard_ids" ∷ []) v
  vs ← items 12 (or_no_items (get r "affinity_shard_ids"))
  affinity ← map_result (λ x. id (some x)) vs
  valid_if (distinct affinity)
  e ← epoch (get r "expected_revision")
  ok (record { expected_revision = e; affinity_shard_ids = affinity })

-- `FleetSnapshot`
pub record FleetSnapshot : Type 0 where
  pub revision : ℕ
  pub published_at : ℕ
  pub mailbox_routes : Dict String MailboxRoute
  pub shards : Dict String PublicShard

abbrev pub is_two : Value → Bool
is_two (some (num (some n))) = n == 2
is_two _ = false

abbrev pub has : {V : Type 0} → Dict String V → String → Bool
has d k = elim (get d k) [ none ↦ false | some v ↦ true ]

abbrev pub snapshot_fields : List String
snapshot_fields = "v" ∷ "revision" ∷ "published_at" ∷ "mailbox_routes" ∷ "shards" ∷ []

abbrev pub named_route : Dict String PublicShard → String × Json → Result (String × MailboxRoute)
named_route shards (key, v) = route (some v) >>= λ r.
    (if key === r.mail_account_id && has shards r.owner_shard_id
      then ok (key, r)
      else fail missing_owner 503 true)

-- The rest, once the shards and the routes are read.
abbrev pub snapshot_with :
    Dict String Json → Dict String PublicShard → Dict String MailboxRoute → Result FleetSnapshot
snapshot_with r shards routes = do
  e ← epoch (get r "revision")
  at ← utc_instant (get r "published_at")
  ok (record { revision = e; published_at = at; mailbox_routes = routes; shards = shards })

module _ (parse_url : String → Option Url) where
  unfoldable pub configure_request : Value → Result Command
  configure_request v = do
    r ← record_of ("expected_revision" ∷ "idempotency_key" ∷ "config" ∷ []) v
    command r (fleet_config parse_url (get r "config") >>= λ c. ok (configures c))

  abbrev pub named_shard : String × Json → Result (String × PublicShard)
  named_shard (key, v) =
      public_shard parse_url (some v) >>= λ p. valid_if (key === p.shard_id) >>= λ _. ok (key, p)

  unfoldable pub fleet_snapshot : Value → Result FleetSnapshot
  fleet_snapshot v = record_of snapshot_fields v >>= λ r. valid_if (is_two (get r "v")) >>= λ _.
      any_record (get r "shards") >>= λ shards. any_record (get r "mailbox_routes") >>= λ routes.
      valid_if (leb (length shards) 12 && leb (length routes) max_mailboxes_limit) >>= λ _.
      map_result named_shard shards >>= λ parsed_shards.
      map_result (named_route parsed_shards) routes >>= λ parsed_routes.
      snapshot_with r parsed_shards parsed_routes
