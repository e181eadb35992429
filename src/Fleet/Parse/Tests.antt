-- ===== src/Fleet/Parse/Tests.antt =====
-- The reader of worker/src/fleet/validation.ts on a small configuration and a snapshot of it.
use one_mail.Base.{
  ℕ, ◌≡◌, refl, String, Option, none, some, List, [], ◌∷◌, true, get, delete, text_dec, All, ◌===◌,
  text_key,
}
use one_mail.Fleet.Contracts.{FleetConfig, ShardState, RouteState, ok}
use one_mail.Fleet.Parse.{
  Json, null, bool, num, str, arr, obj, no_items, item, Fields, no_fields, field, any_record,
  record_of, id, counter, decimal, decimal_from, epoch, enumeration, flag, items, map_result,
  distinct,
}
use one_mail.Fleet.Parse.Calendar.{utc_instant, read_instant, read_day}
use one_mail.Fleet.Parse.Config.{
  Url, cloud_account, shard, resource_budget, public_shard_of, public_shard, origin, route,
  is_consistent, config_accounts, config_shards, config_with, fleet_config,
}
use one_mail.Fleet.Parse.Requests.{FleetSnapshot, fleet_snapshot, has}
use one_mail.Fleet.Parse.WellFormed.{WellFormed, fleet_config-WellFormed}
use one_mail.Fleet.Parse.Snapshot.{fleet_snapshot-owned}

abbrev parse_url : String → Option Url
parse_url s = some (record {
  protocol = "https:";
  username = "";
  password = "";
  search = "";
  hash = "";
  pathname = "/";
  port = "";
  origin = s;
})

abbrev fields : List (String × Json) → Fields
fields [] = no_fields
fields ((k, v) ∷ es) = field k v (fields es)

abbrev count : ℕ → Json
count n = num (some n)

abbrev account : Json
account = obj (
    fields (
      ("account_key", str "a")
      ∷ ("provider_account_id", str "p")
      ∷ ("enabled", bool true)
      ∷ ("credential_ref", str "c")
      ∷ ("daily_read_limit", count 100)
      ∷ ("daily_write_limit", count 100)
      ∷ ("worker_request_limit", count 100)
      ∷ ("metrics_observed_at", null)
      ∷ []))

abbrev public_fields : List (String × Json)
public_fields =
    ("shard_id", str "s")
    ∷ ("account_key", str "a")
    ∷ ("base_url", str "https://s.example")
    ∷ ("state", str "healthy")
    ∷ ("schema_version", count 1)
    ∷ ("protocol_version", count 1)
    ∷ ("storage_limit_bytes", count 9)
    ∷ ("observed_size_bytes", count 0)
    ∷ []

abbrev body : Json
body = obj (
    fields (
      ("accounts", arr (item account no_items))
      ∷ (
        "shards",
        arr (
            item
              (obj (
                field "database_id" (str "d")
                  (field "credential_ref" (str "c") (fields public_fields))))
              no_items),
      )
      ∷ ("primary_shard_id", str "s")
      ∷ ("required_schema_version", count 1)
      ∷ ("required_protocol_version", count 1)
      ∷ (
        "allocation_budget",
        obj (
            fields (
              ("reserved_read", count 1)
              ∷ ("reserved_write", count 1)
              ∷ ("reserved_worker_requests", count 1)
              ∷ ("reserved_bytes", count 1)
              ∷ [])),
      )
      ∷ ("max_mailboxes", count 3)
      ∷ []))

abbrev config : FleetConfig
config = record {
  accounts =
      record {
        account_key = "a";
        provider_account_id = "p";
        enabled = true;
        credential_ref = "c";
        daily_read_limit = 100;
        daily_write_limit = 100;
        worker_request_limit = 100;
        metrics_observed_at = none;
      }
      ∷ [];
  shards =
      record {
        shard_id = "s";
        account_key = "a";
        base_url = "https://s.example";
        state = ShardState.healthy;
        schema_version = 1;
        protocol_version = 1;
        storage_limit_bytes = 9;
        observed_size_bytes = 0;
        database_id = "d";
        credential_ref = "c";
      }
      ∷ [];
  primary_shard_id = "s";
  required_schema_version = 1;
  required_protocol_version = 1;
  allocation_budget = record {
    reserved_read = 1;
    reserved_write = 1;
    reserved_worker_requests = 1;
    reserved_bytes = 1;
  };
  max_mailboxes = 3;
}

body_read : fleet_config parse_url (some body) ≡ ok config
unfolding fleet_config config_accounts config_shards config_with record_of any_record items
    map_result cloud_account shard public_shard_of origin id counter enumeration flag
    resource_budget is_consistent distinct get delete text_dec
body_read = refl

fleet_config-WellFormed_example : WellFormed config
fleet_config-WellFormed_example = fleet_config-WellFormed parse_url (some body) config body_read

abbrev published : Json
published = obj (
    fields (
      ("v", count 2)
      ∷ ("revision", str "12")
      ∷ ("published_at", str "2024-02-29T12:00:00.000Z")
      ∷ (
        "mailbox_routes",
        obj (
            field "m"
              (obj (
                fields (
                  ("mail_account_id", str "m")
                  ∷ ("owner_shard_id", str "s")
                  ∷ ("epoch", str "7")
                  ∷ ("state", str "active")
                  ∷ ("migration_id", null)
                  ∷ ("updated_at", str "2024-02-29T12:00:00Z")
                  ∷ [])))
              no_fields),
      )
      ∷ ("shards", obj (field "s" (obj (fields public_fields)) no_fields))
      ∷ []))

abbrev snapshot : FleetSnapshot
snapshot = record {
  revision = 12;
  published_at = 63876427200000;
  mailbox_routes =
      (
        "m",
        record {
          mail_account_id = "m";
          owner_shard_id = "s";
          epoch = 7;
          state = RouteState.active;
          migration_id = none;
          updated_at = 63876427200000;
        },
      )
      ∷ [];
  shards =
      (
        "s",
        record {
          shard_id = "s";
          account_key = "a";
          base_url = "https://s.example";
          state = ShardState.healthy;
          schema_version = 1;
          protocol_version = 1;
          storage_limit_bytes = 9;
          observed_size_bytes = 0;
        },
      )
      ∷ [];
}

published_read : fleet_snapshot parse_url (some published) ≡ ok snapshot
unfolding fleet_snapshot record_of any_record map_result public_shard public_shard_of origin id
    counter enumeration route epoch decimal decimal_from utc_instant read_instant read_day get
    text_dec
published_read = refl

fleet_snapshot-owned_example :
    All
      (λ e.
        ((e.0 === e.1.mail_account_id) ≡ true) × (has snapshot.shards e.1.owner_shard_id ≡ true))
      snapshot.mailbox_routes
fleet_snapshot-owned_example =
    fleet_snapshot-owned parse_url (some published) snapshot published_read
