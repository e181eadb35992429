-- ===== src/Fleet/Registry/Import.antt =====
-- worker/src/fleet/registry_do.ts: `importRoutes`.
use one_mail.Base.{
  ◌+◌, Option, none, some, List, [], ◌∷◌, Bool, true, false, get, put, ltb, if◌then◌else◌, length,
  text_key,
}
use one_mail.Fleet.Contracts.{
  RouteState, FleetConfig, ImportEntry, mailbox_deleted, config_conflict, registry_limit, Result,
  ok, fail, raise_if, ◌>>=◌, ◌>>◌,
}
use one_mail.Fleet.Registry.{
  MailboxRecord, Store, Txn, Response, imported, require_config, assert_owner, increment_usage,
  add_affinity,
}

abbrev pub is_deleting : RouteState → Bool
is_deleting RouteState.deleting = true
is_deleting _ = false

-- `existing?.deleted`, then `existing`
abbrev absent : Option MailboxRecord → Result (Unit {0})
absent none = ok tt
absent (some m) =
    if m.deleted then fail mailbox_deleted 409 false else fail config_conflict 409 false

unfoldable pub import_entry : FleetConfig → Store → ImportEntry → Result Store
import_entry config s entry =
    let route = entry.route in
    let mailbox : MailboxRecord = record {
      user_key = entry.user_key;
      route = some route;
      pending = none;
      deleted = is_deleting route.state;
      epoch = route.epoch;
    } in
    do
      assert_owner config route.owner_shard_id
      absent (get s.mailboxes route.mail_account_id)
      counted ←
          increment_usage
            (record s {
              mailboxes = put s.mailboxes route.mail_account_id mailbox;
              routes = put s.routes route.mail_account_id route;
            })
            route.owner_shard_id
      add_affinity counted entry.user_key route.owner_shard_id

unfoldable pub import_entries : FleetConfig → Store → List ImportEntry → Result Store
import_entries config s [] = ok s
import_entries config s (e ∷ es) = import_entry config s e >>= λ s'. import_entries config s' es

unfoldable pub import_routes : Txn → List ImportEntry → Result (Txn × Response)
import_routes t entries = do
  config ← require_config t.meta
  raise_if (ltb config.max_mailboxes (t.meta.mailbox_count + length entries)) registry_limit 409
      false
  s ← import_entries config t.store entries
  ok (
    record {
      store = s;
      meta = record t.meta { mailbox_count = t.meta.mailbox_count + length entries };
    },
    imported (length entries),
  )
