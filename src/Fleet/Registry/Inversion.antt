-- ===== src/Fleet/Registry/Inversion.antt =====
-- worker/src/fleet/registry_do.ts: what a handler that returned went through.
use one_mail.Base.{
  ℕ, ◌+◌, ◌-◌, ◌≤◌, ◌<◌, ◌≡◌, ◌⊎◌, refl, String, none, some, List, [], map, true, false, Dict, get,
  put, delete, length, arith, Bool-cases, Option-cases, inl, inr, text_key,
}
use one_mail.Fleet.Contracts.{
  FleetConfig, RouteState, MailboxRoute, PendingAllocation, ImportEntry, Gate, FleetMode, Result,
  ok, err, Result-cases, or_else,
}
use one_mail.Fleet.Validation.{next_epoch}
use one_mail.Fleet.Registry.{
  MailboxRecord, Txn, Response, require_config, assert_owner, is_owner, remove_affinity,
}
use one_mail.Fleet.Registry.Import.{import_entries, import_routes}
use one_mail.Fleet.Placement.{PlacementDecision, placed, refused}
use one_mail.Fleet.Registry.Allocate.{allocate, allocate_new, reserve, confirm, placement_for}
use one_mail.Fleet.Registry.Tombstone.{tombstone, owner_of}

-- An import that returned.
pub record Imports (t : Txn) (es : List ImportEntry) (t' : Txn) : Type 0 where
  pub config : FleetConfig
  pub configured : t.meta.config ≡ some config
  pub room : t.meta.mailbox_count + length es ≤ config.max_mailboxes
  pub written : import_entries config t.store es ≡ ok t'.store
  pub counted : t'.meta ≡ record t.meta { mailbox_count = t.meta.mailbox_count + length es }

pub import_routes-Imports :
    (t : Txn) (es : List ImportEntry) {t' : Txn} {r : Response}
    → import_routes t es ≡ ok (t', r)
    → Imports t es t'
unfolding import_routes require_config
import_routes-Imports t es h = elim (Option-cases t.meta.config) [
  | inl e ↦ ground arith
  | inr (c, e) ↦ elim (Result-cases (import_entries c t.store es)) [
    | inr (x, f) ↦ ground arith
    | inl (s, f) ↦ record {
      config = c;
      configured = e;
      room = ground arith;
      written = ground arith;
      counted = ground arith;
    }
  ]
]

-- An allocation that returned: the mailbox answered for itself, or a shard was reserved for it.
pub data Allocates (t : Txn) (k u o : String) (now : ℕ) (t' : Txn) : Type 0 where
  known :
      (m : MailboxRecord)
      → get t.store.mailboxes k ≡ some m
      → m.deleted ≡ false
      → m.user_key ≡ u
      → t' ≡ t
      → Allocates t k u o now t'
  reserved :
      (c : FleetConfig) (shard account : String) (r : Response)
      → t.meta.config ≡ some c
      → t.meta.mailbox_count < c.max_mailboxes
      → (get t.store.mailboxes k ≡ none)
        ⊎ ((m : MailboxRecord) × (get t.store.mailboxes k ≡ some m)
            × (m.deleted ≡ false)
            × (owner_of m ≡ none))
      → (ppm : ℕ)
      → placement_for t.store c (map (λ e. e.0) (or_else (get t.store.affinity u) [])) now
        ≡ ok (placed shard account ppm)
      → reserve t c k u o shard account now ≡ ok (t', r)
      → Allocates t k u o now t'

allocate_new-Allocates :
    (t : Txn) (c : FleetConfig) (k u o : String) (now : ℕ) {t' : Txn} {r : Response}
    → allocate_new t c k u o now ≡ ok (t', r)
    → t.meta.config ≡ some c
    → (get t.store.mailboxes k ≡ none)
      ⊎ ((m : MailboxRecord) × (get t.store.mailboxes k ≡ some m)
          × (m.deleted ≡ false)
          × (owner_of m ≡ none))
    → Allocates t k u o now t'
unfolding allocate_new
allocate_new-Allocates t c k u o now {t'} {r} h e f = go _ refl
  where
    go :
        (d : Result PlacementDecision)
        → placement_for t.store c (map (λ x. x.0) (or_else (get t.store.affinity u) [])) now ≡ d
        → Allocates t k u o now t'
    go (err x) p = ground arith
    go (ok (refused x)) p = ground arith
    go (ok (placed shard account ppm)) p =
        reserved c shard account r e (ground arith) f ppm p (ground arith)

pub allocate-Allocates :
    (t : Txn) (k u o : String) (now : ℕ) (mode : FleetMode) {t' : Txn} {r : Response}
    → allocate t k u o now mode ≡ ok (t', r)
    → Allocates t k u o now t'
unfolding allocate require_config
allocate-Allocates t k u o now mode {t'} {r} h = elim (Option-cases t.meta.config) [
  | inl e ↦ ground arith
  | inr (c, e) ↦ elim (Option-cases (get t.store.mailboxes k)) [
    | inl n ↦ allocate_new-Allocates t c k u o now {t' = t'} {r = r} (ground arith) e (inl n)
    | inr (m, g) ↦ elim (Option-cases m.route) [
      | inr (x, f) ↦ known m g (ground arith) (ground arith) (ground arith)
      | inl f ↦ elim (Option-cases m.pending) [
        | inr (y, q) ↦ known m g (ground arith) (ground arith) (ground arith)
        | inl q ↦
            allocate_new-Allocates t c k u o now {t' = t'} {r = r} (ground arith) e
              (inr (m, g, ground arith, ground arith))
      ]
    ]
  ]
]

-- A confirmation that returned.
pub data Confirms (t : Txn) (k : String) (t' : Txn) : Type 0 where
  again : t' ≡ t → Confirms t k t'
  routed :
      (m : MailboxRecord) (p : PendingAllocation) (c : FleetConfig) (route : MailboxRoute)
      → get t.store.mailboxes k ≡ some m
      → m.deleted ≡ false
      → m.route ≡ none
      → m.pending ≡ some p
      → t.meta.config ≡ some c
      → is_owner c p.owner_shard_id ≡ true
      → route.owner_shard_id ≡ p.owner_shard_id
      → route.epoch ≡ p.epoch
      → t' ≡ record t {
        store = record t.store {
          mailboxes = put t.store.mailboxes k (record m { route = some route });
          routes = put t.store.routes k route;
        };
      }
      → Confirms t k t'

pub confirm-Confirms :
    (t : Txn) (k o : String) (g : Gate) (now : ℕ) (mode : FleetMode) {t' : Txn} {r : Response}
    → confirm t k o g now mode ≡ ok (t', r)
    → Confirms t k t'
unfolding confirm require_config assert_owner
confirm-Confirms t k o gate now mode h = elim (Option-cases t.meta.config) [
  | inl e ↦ ground arith
  | inr (c, e) ↦ elim (Option-cases (get t.store.mailboxes k)) [
    | inl n ↦ ground arith
    | inr (m, g) ↦ elim (Option-cases m.pending) [
      | inl q ↦ ground arith
      | inr (p, q) ↦ elim (Option-cases m.route) [
        | inr (x, f) ↦ again (ground arith)
        | inl f ↦
            Confirms.routed m p c
              (record {
                mail_account_id = k;
                owner_shard_id = p.owner_shard_id;
                epoch = p.epoch;
                state = RouteState.active;
                migration_id = none;
                updated_at = now;
              })
              g (ground arith) f q e (ground arith) refl refl (ground arith)
      ]
    ]
  ]
]

-- A tombstone that returned.
pub data Tombstones (t : Txn) (k : String) (t' : Txn) : Type 0 where
  again :
      t' ≡ t
      → (m : MailboxRecord) → get t.store.mailboxes k ≡ some m
      → m.deleted ≡ true
      → Tombstones t k t'
  buried :
      (m : MailboxRecord) (affinity : Dict String (Dict String ℕ))
      → get t.store.mailboxes k ≡ some m
      → m.deleted ≡ false
      → t' ≡ record {
        store = record t.store {
          mailboxes = put t.store.mailboxes k (record m { deleted = true; epoch = m.epoch + 1 });
          routes = delete t.store.routes k;
          affinity = affinity;
        };
        meta = record t.meta { mailbox_count = t.meta.mailbox_count - 1 };
      }
      → Tombstones t k t'
  unknown :
      get t.store.mailboxes k ≡ none
      → t' ≡ record t {
        store = record t.store {
          mailboxes = put t.store.mailboxes k (record {
            user_key = "deleted";
            route = none;
            pending = none;
            deleted = true;
            epoch = 1;
          });
          routes = delete t.store.routes k;
        };
      }
      → Tombstones t k t'

pub tombstone-Tombstones :
    (t : Txn) (k : String) (now : ℕ) {t' : Txn} {r : Response}
    → tombstone t k now ≡ ok (t', r)
    → Tombstones t k t'
unfolding tombstone require_config next_epoch remove_affinity
tombstone-Tombstones t k now {t'} h = elim (Option-cases (get t.store.mailboxes k)) [
  | inl n ↦ unknown n (ground arith)
  | inr (m, g) ↦ elim (Bool-cases m.deleted) [
    | inl d ↦ again (ground arith) m g d
    | inr d ↦ buried m t'.store.affinity g d (ground arith)
  ]
]
