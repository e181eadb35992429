-- ===== src/Fleet/Registry/Owners.antt =====
-- worker/src/fleet/registry_do.ts: every owner that the registry names is a configured shard.
use one_mail.Base.{
  ℕ, ◌+◌, ◌≤◌, ◌<◌, ◌≡◌, ◌⊎◌, sym, String, Option, none, some, Bool, true, Dict, get, put,
  EveryValue, EveryValue-mono, EveryValue-put, subst, get-put, arith, inl, inr, text_key, text_dec,
  ite,
}
use one_mail.Fleet.Contracts.{FleetConfig, MailboxRoute, or_else}
use one_mail.Fleet.Registry.{MailboxRecord, Txn, is_owner}
use one_mail.Fleet.Registry.Tombstone.{owner_of}

-- How many mailboxes a shard was ever given.
abbrev pub uses : Dict String ℕ → String → ℕ
uses usage o = or_else (get usage o) 0

abbrev pub PlacedAt : Dict String ℕ → Bool → Option String → Type 0
PlacedAt usage deleted none = deleted ≡ true
PlacedAt usage deleted (some o) = 0 < uses usage o

-- A mailbox has an owner that is in use, or is deleted.
abbrev pub Placed : Dict String ℕ → MailboxRecord → Type 0
Placed usage m = PlacedAt usage m.deleted (owner_of m)

abbrev pub RouteInUse : Dict String ℕ → MailboxRoute → Type 0
RouteInUse usage r = 0 < uses usage r.owner_shard_id

abbrev pub Configured : Option FleetConfig → String → Type 0
Configured none o = ⊥
Configured (some c) o = is_owner c o ≡ true

pub record Owned (t : Txn) : Type 0 where
  pub mailboxes : EveryValue (Placed t.store.usage) t.store.mailboxes
  pub routes : EveryValue (RouteInUse t.store.usage) t.store.routes
  pub shards : (o : String) → 0 < uses t.store.usage o → Configured t.meta.config o

Placed-mono :
    (u u' : Dict String ℕ) (m : MailboxRecord)
    → ((o : String) → uses u o ≤ uses u' o)
    → Placed u m
    → Placed u' m
Placed-mono u u' m g p = go (owner_of m) p
  where
    go : (o : Option String) → PlacedAt u m.deleted o → PlacedAt u' m.deleted o
    go none q = q
    go (some o) q = omega (arith, g o)

uses-put :
    (u : Dict String ℕ) (k o : String) (n : ℕ)
    → uses (put u k n) o ≡ ite (text_dec k o) n (uses u o)
uses-put u k o n = ground (arith, get-put u k o n)

-- One more use of a configured shard, with a mailbox on it and perhaps its route.
module _ (t t' : Txn) (k owner : String) (m : MailboxRecord) where
  pub placed-Owned :
      t'.store.usage ≡ put t.store.usage owner (uses t.store.usage owner + 1)
      → t'.store.mailboxes ≡ put t.store.mailboxes k m
      → (t'.store.routes ≡ t.store.routes)
        ⊎ ((r : MailboxRoute) × (r.owner_shard_id ≡ owner)
            × (t'.store.routes ≡ put t.store.routes k r))
      → t'.meta.config ≡ t.meta.config
      → owner_of m ≡ some owner
      → Configured t.meta.config owner
      → Owned t
      → Owned t'
  placed-Owned eu em er ec eo c v = record {
    mailboxes = subst (EveryValue (Placed t'.store.usage)) (sym em) (
        EveryValue-put (Placed t'.store.usage) t.store.mailboxes k m
          (EveryValue-mono _ _ t.store.mailboxes
            (λ x. Placed-mono t.store.usage t'.store.usage x grows) v.mailboxes)
          at_owner);
    routes = elim er [
      | inl e ↦ subst (EveryValue (RouteInUse t'.store.usage)) (sym e) old_routes
      | inr (r, o, e) ↦ subst (EveryValue (RouteInUse t'.store.usage)) (sym e) (
          EveryValue-put (RouteInUse t'.store.usage) t.store.routes k r old_routes
            (subst (λ x. 0 < uses t'.store.usage x) (sym o) in_use))
    ];
    shards = λ o p.
        subst (λ x. Configured x o) (sym ec)
          (elim (text_dec owner o) [
            | yes y ↦ subst (Configured t.meta.config) y c
            | no n ↦
                v.shards o
                  (ground (arith, uses-put t.store.usage owner o (uses t.store.usage owner + 1)))
          ]);
  }
    where
      grows : (o : String) → uses t.store.usage o ≤ uses t'.store.usage o
      grows o =
          rw eu (ground (arith, uses-put t.store.usage owner o (uses t.store.usage owner + 1)))

      in_use : 0 < uses t'.store.usage owner
      in_use =
          rw eu (ground (arith, uses-put t.store.usage owner owner (uses t.store.usage owner + 1)))

      at_owner : Placed t'.store.usage m
      at_owner = subst (PlacedAt t'.store.usage m.deleted) (sym eo) in_use

      old_routes : EveryValue (RouteInUse t'.store.usage) t.store.routes
      old_routes =
          EveryValue-mono _ _ t.store.routes (λ r h. omega (arith, grows r.owner_shard_id)) v.routes
