-- ===== src/Fleet/Registry/Tombstone.antt =====
-- worker/src/fleet/registry_do.ts: `tombstone`.
use one_mail.Base.{
  ℕ, ◌-◌, String, Option, none, some, true, false, get, put, delete, if◌then◌else◌, text_key,
}
use one_mail.Fleet.Contracts.{Result, ok, ◌>>=◌}
use one_mail.Fleet.Validation.{next_epoch}
use one_mail.Fleet.Registry.{
  MailboxRecord, Store, Txn, Response, was_deleted, tombstoned, require_config, remove_affinity,
}

-- `mailbox.route?.owner_shard_id ?? mailbox.pending?.owner_shard_id`
abbrev pub owner_of : MailboxRecord → Option String
owner_of m = elim m.route [
  | some r ↦ some r.owner_shard_id
  | none ↦ elim m.pending [ some p ↦ some p.owner_shard_id | none ↦ none ]
]

-- An owner is a nonempty text, so `if (owner)` holds of every one there is.
abbrev forget_affinity : Store → MailboxRecord → Store
forget_affinity s m = elim (owner_of m) [
  | none ↦ s
  | some owner ↦ remove_affinity s m.user_key owner
]

abbrev unknown_record : MailboxRecord
unknown_record = record {
  user_key = "deleted";
  route = none;
  pending = none;
  deleted = false;
  epoch = 0;
}

-- The record with its mark, and the route unpublished.
abbrev buried : Store → String → MailboxRecord → ℕ → Store
buried s mailbox m epoch = record s {
  mailboxes = put s.mailboxes mailbox (record m { deleted = true; epoch = epoch });
  routes = delete s.routes mailbox;
}

tombstone_on : Txn → String → ℕ → Option MailboxRecord → Result (Txn × Response)
tombstone_on t mailbox now none = do
  epoch ← next_epoch 0
  ok (
    record t { store = buried t.store mailbox unknown_record epoch },
    tombstoned mailbox epoch none now,
  )
tombstone_on t mailbox now (some m) = if m.deleted then ok (t, was_deleted mailbox m.epoch) else do
  epoch ← next_epoch m.epoch
  ok (
    record {
      store = forget_affinity (buried t.store mailbox m epoch) m;
      meta = record t.meta { mailbox_count = t.meta.mailbox_count - 1 };
    },
    tombstoned mailbox epoch (owner_of m) now,
  )

unfoldable pub tombstone : Txn → String → ℕ → Result (Txn × Response)
unfolding tombstone_on
tombstone t mailbox now =
    require_config t.meta >>= λ _. tombstone_on t mailbox now (get t.store.mailboxes mailbox)
