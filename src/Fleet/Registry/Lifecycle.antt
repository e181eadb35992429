-- ===== src/Fleet/Registry/Lifecycle.antt =====
-- worker/src/fleet/registry_do.ts: the life of a mailbox, as a relation between what the storage
-- holds of it before and after a command.
use one_mail.Base.{
  ℕ, ◌+◌, ◌≡◌, refl, ap, ◌∙◌, String, Option, none, some, List, [], ◌∷◌, true, false, Dict, get,
  put, delete, get-put, get-delete, arith, text_key, text_dec, ite,
}
use one_mail.Fleet.Contracts.{
  FleetConfig, MailboxRoute, PendingAllocation, ImportEntry, FleetMode, MetricReport, Action,
  configures, imports, allocates, confirms, measures, tombstones, ok, >>=-eq-ok,
}
use one_mail.Fleet.Registry.{
  MailboxRecord, Store, Txn, Response, require_config, increment_usage, add_affinity,
}
use one_mail.Fleet.Registry.Configure.{configure, metrics}
use one_mail.Fleet.Registry.Import.{import_entry, import_entries}
use one_mail.Fleet.Registry.Allocate.{reserve}
use one_mail.Fleet.Registry.Tombstone.{owner_of}
use one_mail.Fleet.Registry.Service.{execute}
use one_mail.Fleet.Registry.Inversion.{
  import_routes-Imports, Allocates, known, reserved, allocate-Allocates, Confirms, confirm-Confirms,
  Tombstones, tombstone-Tombstones,
}

-- From the record and the published route to the next ones. A known mailbox is left alone, gets
-- the route that its pending allocation names, or is buried; one without owner is allocated.
pub data Becomes (m : MailboxRecord) (r : Option MailboxRoute) (m' : MailboxRecord)
    (r' : Option MailboxRoute) : Type 0 where
  unchanged : m' ≡ m → r' ≡ r → Becomes m r m' r'
  confirmed :
      (p : PendingAllocation) (route : MailboxRoute)
      → m.deleted ≡ false
      → m.route ≡ none
      → m.pending ≡ some p
      → route.owner_shard_id ≡ p.owner_shard_id
      → route.epoch ≡ p.epoch
      → m' ≡ record m { route = some route }
      → r' ≡ some route
      → Becomes m r m' r'
  buried :
      m.deleted ≡ false
      → m' ≡ record m { deleted = true; epoch = m.epoch + 1 }
      → r' ≡ none
      → Becomes m r m' r'
  allocated :
      m.deleted ≡ false → owner_of m ≡ none → m'.deleted ≡ false → r' ≡ r → Becomes m r m' r'

-- What a command made of the mailbox `k`.
abbrev pub Advances : String → MailboxRecord → Option MailboxRoute → Txn → Type 0
Advances k m r t =
    (m' : MailboxRecord) × (get t.store.mailboxes k ≡ some m')
    × Becomes m r m' (get t.store.routes k)

mailbox-put :
    (d : Dict String MailboxRecord) (k j : String) (v : MailboxRecord)
    → get (put d k v) j ≡ ite (text_dec k j) (some v) (get d j)
mailbox-put d k j v = get-put d k j v

route-put :
    (d : Dict String MailboxRoute) (k j : String) (v : MailboxRoute)
    → get (put d k v) j ≡ ite (text_dec k j) (some v) (get d j)
route-put d k j v = get-put d k j v

route-delete :
    (d : Dict String MailboxRoute) (k j : String)
    → get (delete d k) j ≡ ite (text_dec k j) none (get d j)
route-delete d k j = get-delete d k j

ruleset index_laws = (arith, mailbox-put, route-put, route-delete)

-- The record of a mailbox whose shard has just been reserved.
abbrev new_record : (user operation mailbox shard : String) → ℕ → MailboxRecord
new_record user operation mailbox shard now = record {
  user_key = user;
  route = none;
  pending = some (record {
    operation_id = operation;
    mail_account_id = mailbox;
    owner_shard_id = shard;
    epoch = 1;
    created_at = now;
  });
  deleted = false;
  epoch = 1;
}

module _ (k : String) (m : MailboxRecord) where
  stays :
      (t : Txn) {r : Option MailboxRoute}
      → get t.store.mailboxes k ≡ some m
      → get t.store.routes k ≡ r
      → Advances k m r t
  stays t g e = (m, g, unchanged refl e)

  import_entry-mailboxes :
      (c : FleetConfig) (s : Store) (e : ImportEntry) {s' : Store}
      → import_entry c s e ≡ ok s'
      → get s.mailboxes k ≡ some m
      → (get s'.mailboxes k ≡ some m) × (get s'.routes k ≡ get s.routes k)
  unfolding import_entry increment_usage add_affinity
  import_entry-mailboxes c s e h g = (grind index_laws, grind index_laws)

  import_entries-mailboxes :
      (c : FleetConfig) (s : Store) (es : List ImportEntry) {s' : Store}
      → import_entries c s es ≡ ok s'
      → get s.mailboxes k ≡ some m
      → (get s'.mailboxes k ≡ some m) × (get s'.routes k ≡ get s.routes k)
  unfolding import_entries
  import_entries-mailboxes c s [] h g = (ground arith, ground arith)
  import_entries-mailboxes c s (e ∷ es) {s'} h g =
      let (s₁, h₁, h₂) = >>=-eq-ok (import_entry c s e) (λ x. import_entries c x es) h in
      let (g₁, r₁) = import_entry-mailboxes c s e h₁ g in
      let (g₂, r₂) = import_entries-mailboxes c s₁ es h₂ g₁ in (g₂, r₂ ∙ r₁)

  configure-store :
      (t : Txn) (c : FleetConfig) {t' : Txn} {r : Response}
      → configure t c ≡ ok (t', r)
      → (t'.store.mailboxes ≡ t.store.mailboxes) × (t'.store.routes ≡ t.store.routes)
  unfolding configure
  configure-store t c h = ground arith

  metrics-store :
      (t : Txn) (x : MetricReport) (now : ℕ) {t' : Txn} {r : Response}
      → metrics t x now ≡ ok (t', r)
      → (t'.store.mailboxes ≡ t.store.mailboxes) × (t'.store.routes ≡ t.store.routes)
  unfolding metrics require_config
  metrics-store t x now h = ground arith

  -- A reservation writes the record of its own mailbox.
  reserve-mailboxes :
      (t : Txn) (c : FleetConfig) (j u o sh a : String) (now : ℕ) {t' : Txn} {r : Response}
      → reserve t c j u o sh a now ≡ ok (t', r)
      → get t'.store.mailboxes k
        ≡ ite (text_dec j k) (some (new_record u o j sh now)) (get t.store.mailboxes k)
  unfolding reserve increment_usage add_affinity
  reserve-mailboxes t c j u o sh a now h = grind index_laws

  reserve-routes :
      (t : Txn) (c : FleetConfig) (j u o sh a : String) (now : ℕ) {t' : Txn} {r : Response}
      → reserve t c j u o sh a now ≡ ok (t', r)
      → t'.store.routes ≡ t.store.routes
  unfolding reserve increment_usage add_affinity
  reserve-routes t c j u o sh a now h = ground arith

  allocate-Advances :
      (t : Txn) (j u o : String) (now : ℕ) {t' : Txn}
      → get t.store.mailboxes k ≡ some m
      → Allocates t j u o now t'
      → Advances k m (get t.store.routes k) t'
  allocate-Advances t j u o now {t'} g (known _ _ _ _ e) = rw e (stays t g refl)
  allocate-Advances t j u o now {t'} g (reserved c sh a r e _ f ppm _ h) = elim (text_dec j k) [
    | no n ↦
        stays t' (ground (arith, reserve-mailboxes t c j u o sh a now h))
          (ap (λ d. get d k) (reserve-routes t c j u o sh a now h))
    | yes y ↦ (
      new_record u o j sh now,
      ground (arith, reserve-mailboxes t c j u o sh a now h),
      allocated (ground arith) (ground arith) refl
          (ap (λ d. get d k) (reserve-routes t c j u o sh a now h)),
    )
  ]

  confirm-Advances :
      (t : Txn) (j : String) {t' : Txn}
      → get t.store.mailboxes k ≡ some m
      → Confirms t j t'
      → Advances k m (get t.store.routes k) t'
  confirm-Advances t j g (Confirms.again e) = rw e (stays t g refl)
  confirm-Advances t j {t'} g (Confirms.routed n p c route g' d f q _ _ eo ee e) =
      elim (text_dec j k) [
        | no x ↦
            stays t'
              (ground (arith, mailbox-put t.store.mailboxes j k (record n { route = some route })))
              (ground (arith, route-put t.store.routes j k route))
        | yes y ↦ (
          record m { route = some route },
          ground (arith, mailbox-put t.store.mailboxes j k (record n { route = some route })),
          confirmed p route (ground arith) (ground arith) (ground arith) eo ee refl
              (ground (arith, route-put t.store.routes j k route)),
        )
      ]

  tombstone-Advances :
      (t : Txn) (j : String) {t' : Txn}
      → get t.store.mailboxes k ≡ some m
      → Tombstones t j t'
      → Advances k m (get t.store.routes k) t'
  tombstone-Advances t j g (Tombstones.again e _ _ _) = rw e (stays t g refl)
  tombstone-Advances t j {t'} g (Tombstones.unknown n e) =
      stays t' (grind index_laws) (grind index_laws)
  tombstone-Advances t j {t'} g (Tombstones.buried n a g' d e) = elim (text_dec j k) [
    | no x ↦
        stays t'
          (ground (
            arith,
            mailbox-put t.store.mailboxes j k (record n { deleted = true; epoch = n.epoch + 1 }),
          ))
          (ground (arith, route-delete t.store.routes j k))
    | yes y ↦ (
      record m { deleted = true; epoch = m.epoch + 1 },
      ground (
        arith,
        mailbox-put t.store.mailboxes j k (record n { deleted = true; epoch = n.epoch + 1 }),
      ),
      buried (ground arith) refl (ground (arith, route-delete t.store.routes j k)),
    )
  ]

  -- Every command that is carried out takes a known mailbox one step along its life.
  pub execute-Advances :
      (t : Txn) (key : String) (a : Action) (now : ℕ) (mode : FleetMode) {t' : Txn} {r : Response}
      → execute t key a now mode ≡ ok (t', r)
      → get t.store.mailboxes k ≡ some m
      → Advances k m (get t.store.routes k) t'
  unfolding execute
  execute-Advances t key (configures c) now mode {t'} h g =
      let (x, y) = configure-store t c h in stays t' (rw x g) (ap (λ d. get d k) y)
  execute-Advances t key (measures c) now mode {t'} h g =
      let (x, y) = metrics-store t c now h in stays t' (rw x g) (ap (λ d. get d k) y)
  execute-Advances t key (imports es) now mode {t'} h g =
      let i = import_routes-Imports t es h in
      let (x, y) = import_entries-mailboxes i.config t.store es i.written g in stays t' x y
  execute-Advances t key (allocates j u) now mode h g =
      allocate-Advances t j u key now g (allocate-Allocates t j u key now mode h)
  execute-Advances t key (confirms j o x) now mode h g =
      confirm-Advances t j g (confirm-Confirms t j o x now mode h)
  execute-Advances t key (tombstones j) now mode h g =
      tombstone-Advances t j g (tombstone-Tombstones t j now h)
