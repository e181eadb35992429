-- ===== src/Fleet/Registry/Reads.antt =====
-- worker/src/fleet/registry_do.ts: the reads of the registry find the owners that it names.
use one_mail.Base.{
  ℕ, ◌+◌, ◌<◌, ◌≡◌, ◌≢◌, ◌∙◌, sym, ap, refl, String, Option, none, some, List, [], ◌∷◌, true, false,
  not, Dict, get, put, any, EveryValue, EveryValue-put, EveryValue-delete, EveryValue-get, subst,
  arith, inl, inr, text_key, Option-cases, Bool-cases,
}
use one_mail.Fleet.Contracts.{
  FleetConfig, MailboxRoute, Action, Command, FleetMode, configures, imports, allocates, confirms,
  measures, tombstones, missing_owner, ok, fail, or_else,
}
use one_mail.Fleet.Validation.{safe_add-two}
use one_mail.Fleet.Registry.{
  empty_meta, MailboxRecord, Txn, Registry, Response, is_owner, require_config, assert_owner,
  increment_usage, add_affinity,
}
use one_mail.Fleet.Registry.Allocate.{reserve}
use one_mail.Fleet.Registry.Tombstone.{owner_of}
use one_mail.Fleet.Registry.Service.{execute, serve_all, read_route, read_snapshot}
use one_mail.Fleet.Registry.History.{begin, initial, serve_all-Holds}
use one_mail.Fleet.Registry.Inversion.{
  import_routes-Imports, Allocates, known, reserved, allocate-Allocates, Confirms, confirm-Confirms,
  Tombstones, tombstone-Tombstones,
}
use one_mail.Fleet.Registry.Owners.{
  uses, Placed, PlacedAt, RouteInUse, Configured, Owned, placed-Owned,
}
use one_mail.Fleet.Registry.Ownership.{
  reconfigured, configure-Owned, metrics-Owned, import_routes-Owned, placement_for-configured,
}

reserve-facts :
    (t : Txn) (c : FleetConfig) (k u o sh a : String) (now : ℕ) {t' : Txn} {r : Response}
    → reserve t c k u o sh a now ≡ ok (t', r)
    → (t'.store.usage ≡ put t.store.usage sh (uses t.store.usage sh + 1))
      × ((m : MailboxRecord) × (t'.store.mailboxes ≡ put t.store.mailboxes k m)
          × (owner_of m ≡ some sh))
      × (t'.store.routes ≡ t.store.routes)
      × (t'.meta.config ≡ t.meta.config)
unfolding reserve increment_usage add_affinity
reserve-facts t c k u o sh a now h = (
  ground (arith, safe_add-two (uses t.store.usage sh) 1),
  (
    record {
      user_key = u;
      route = none;
      pending = some (record {
        operation_id = o;
        mail_account_id = k;
        owner_shard_id = sh;
        epoch = 1;
        created_at = now;
      });
      deleted = false;
      epoch = 1;
    },
    ground arith,
    refl,
  ),
  ground arith,
  ground arith,
)

allocate-Owned :
    (t t' : Txn) (k u o : String) (now : ℕ) → Allocates t k u o now t' → Owned t → Owned t'
allocate-Owned t t' k u o now (known m g d q e) v = subst Owned (sym e) v
allocate-Owned t t' k u o now (reserved c sh a r e l f ppm p h) v =
    let (x, (m, y, w), z, d) = reserve-facts t c k u o sh a now h in
    placed-Owned t t' k sh m x y (inl z) d w
      (subst (λ y. Configured y sh) (sym e) (placement_for-configured t.store c _ now sh a ppm p)) v

confirm-Owned : (t t' : Txn) (k : String) → Confirms t k t' → Owned t → Owned t'
confirm-Owned t t' k (Confirms.again e) v = subst Owned (sym e) v
confirm-Owned t t' k (Confirms.routed m p c route g d f q _ _ eo _ e) v =
    subst Owned (sym e) (record {
      mailboxes =
          EveryValue-put (Placed t.store.usage) t.store.mailboxes k
            (record m { route = some route }) v.mailboxes owner_used;
      routes = EveryValue-put (RouteInUse t.store.usage) t.store.routes k route v.routes owner_used;
      shards = v.shards;
    })
  where
    here : Placed t.store.usage m
    here = EveryValue-get (Placed t.store.usage) t.store.mailboxes k m v.mailboxes g

    owner_used : 0 < uses t.store.usage route.owner_shard_id
    owner_used =
        subst (λ x. 0 < uses t.store.usage x) (sym eo)
          (subst (PlacedAt t.store.usage m.deleted) (pending_owner f q) here)
      where
        pending_owner : m.route ≡ none → m.pending ≡ some p → owner_of m ≡ some p.owner_shard_id
        pending_owner f q = ground arith

tombstone-Owned : (t t' : Txn) (k : String) → Tombstones t k t' → Owned t → Owned t'
tombstone-Owned t t' k (Tombstones.again e _ _ _) v = subst Owned (sym e) v
tombstone-Owned t t' k (Tombstones.unknown n e) v = subst Owned (sym e) (record {
  mailboxes = EveryValue-put (Placed t.store.usage) t.store.mailboxes k _ v.mailboxes refl;
  routes = EveryValue-delete (RouteInUse t.store.usage) t.store.routes k v.routes;
  shards = v.shards;
})
tombstone-Owned t t' k (Tombstones.buried m affinity g d e) v = subst Owned (sym e) (record {
  mailboxes =
      EveryValue-put (Placed t.store.usage) t.store.mailboxes k
        (record m { deleted = true; epoch = m.epoch + 1 }) v.mailboxes
        (dead (owner_of m)
          (EveryValue-get (Placed t.store.usage) t.store.mailboxes k m v.mailboxes g));
  routes = EveryValue-delete (RouteInUse t.store.usage) t.store.routes k v.routes;
  shards = v.shards;
})
  where
    dead : (o : Option String) → PlacedAt t.store.usage m.deleted o → PlacedAt t.store.usage true o
    dead none p = refl
    dead (some o) p = p

execute-Owned :
    (t : Txn) (key : String) (a : Action) (now : ℕ) (mode : FleetMode) (t' : Txn) (r : Response)
    → execute t key a now mode ≡ ok (t', r)
    → Owned t
    → Owned t'
unfolding execute
execute-Owned t key (configures c) now mode t' r h v = configure-Owned t c h v
execute-Owned t key (imports es) now mode t' r h v =
    import_routes-Owned t t' es (import_routes-Imports t es h) v
execute-Owned t key (measures x) now mode t' r h v = metrics-Owned t x now h v
execute-Owned t key (allocates k u) now mode t' r h v =
    allocate-Owned t t' k u key now (allocate-Allocates t k u key now mode h) v
execute-Owned t key (confirms k o g) now mode t' r h v =
    confirm-Owned t t' k (confirm-Confirms t k o g now mode h) v
execute-Owned t key (tombstones k) now mode t' r h v =
    tombstone-Owned t t' k (tombstone-Tombstones t k now h) v

serve_all-Owned :
    (digest : Command → String) (cs : List (Command × ℕ × FleetMode))
    → Owned (begin (serve_all digest initial cs) 0)
unfolding get
serve_all-Owned digest cs =
    serve_all-Holds Owned
      (λ t u v e.
        reconfigured t u (ground arith) (ground arith) (ground arith)
          (λ o p.
            subst (λ x. Configured x o) (ap (λ (x : Txn). x.meta.config) (sym e)) (v.shards o p))
          v)
      execute-Owned digest initial cs
      (record {
        mailboxes = tt;
        routes = tt;
        shards = λ o p. (let b : ⊥ = omega (arith, p) in elim b [ ]);
      })

no_foreign_route :
    (c : FleetConfig) (usage : Dict String ℕ) (routes : Dict String MailboxRoute)
    → EveryValue (RouteInUse usage) routes
    → ((o : String) → 0 < uses usage o → is_owner c o ≡ true)
    → any (λ e. not (is_owner c e.1.owner_shard_id)) routes ≡ false
no_foreign_route c usage [] h f = refl
no_foreign_route c usage ((k, r) ∷ rs) h f =
    ground (arith, f r.owner_shard_id h.0, no_foreign_route c usage rs h.1 f)

module _ (r : Registry) (now : ℕ) (v : Owned (begin r 0)) where
  config_now : (or_else r.meta (empty_meta now)).config ≡ (begin r 0).meta.config
  config_now = elim (Option-cases r.meta) [ inl e ↦ ground arith | inr (m, e) ↦ ground arith ]

  in_use :
      (c : FleetConfig)
      → (or_else r.meta (empty_meta now)).config ≡ some c
      → (o : String) → 0 < uses r.store.usage o
      → is_owner c o ≡ true
  in_use c e o p = subst (λ x. Configured x o) (sym config_now ∙ e) (v.shards o p)

  read_route-found : (k : String) → read_route r k now ≢ fail missing_owner 503 true
  unfolding read_route require_config assert_owner
  read_route-found k h = elim (Option-cases (or_else r.meta (empty_meta now)).config) [
    | inl e ↦ ground arith
    | inr (c, e) ↦ elim (Option-cases (get r.store.mailboxes k)) [
      | inl n ↦ ground arith
      | inr (m, g) ↦ elim (Bool-cases m.deleted) [
        | inl d ↦ ground arith
        | inr d ↦ owned c m e g d (owner_of m) refl
      ]
    ]
  ]
    where
      owned :
          (c : FleetConfig) (m : MailboxRecord)
          → (or_else r.meta (empty_meta now)).config ≡ some c
          → get r.store.mailboxes k ≡ some m
          → m.deleted ≡ false
          → (o : Option String) → owner_of m ≡ o
          → ⊥
      owned c m e g d none f =
          let p =
            subst (PlacedAt r.store.usage m.deleted) f
              (EveryValue-get (Placed r.store.usage) r.store.mailboxes k m v.mailboxes g) in
          cc
      owned c m e g d (some o) f =
          let p =
            subst (PlacedAt r.store.usage m.deleted) f
              (EveryValue-get (Placed r.store.usage) r.store.mailboxes k m v.mailboxes g) in
          let q = in_use c e o p in ground arith

  read_snapshot-found : read_snapshot r now ≢ fail missing_owner 503 true
  unfolding read_snapshot require_config
  read_snapshot-found h = elim (Option-cases (or_else r.meta (empty_meta now)).config) [
    | inl e ↦ ground arith
    | inr (c, e) ↦
        ground (arith, no_foreign_route c r.store.usage r.store.routes v.routes (in_use c e))
  ]

-- After any history of commands the reads of the registry find every owner: reading the route of a
-- mailbox or the snapshot of all routes never fails with MISSING_OWNER, whatever was configured,
-- imported, allocated, confirmed or buried before.
pub serve_all-missing_owner :
    (digest : Command → String) (cs : List (Command × ℕ × FleetMode)) (k : String) (now : ℕ)
    → (read_route (serve_all digest initial cs) k now ≢ fail missing_owner 503 true)
      × (read_snapshot (serve_all digest initial cs) now ≢ fail missing_owner 503 true)
serve_all-missing_owner digest cs k now =
    let v = serve_all-Owned digest cs in
    (
      read_route-found (serve_all digest initial cs) now v k,
      read_snapshot-found (serve_all digest initial cs) now v,
    )
