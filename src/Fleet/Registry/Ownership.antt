-- ===== src/Fleet/Registry/Ownership.antt =====
-- worker/src/fleet/registry_do.ts: every handler keeps the owners configured, and the reads of the
-- registry find them.
use one_mail.Base.{
  ℕ, ◌+◌, ◌<◌, ◌≡◌, ◌⊎◌, ◌∙◌, sym, ap, refl, String, Option, none, some, List, [], ◌∷◌, map, true,
  Dict, get, put, get-put_all, any, any-In, any-witness, In, EveryValue, subst, arith, inl, inr,
  text_key, ◌===◌, Option-cases,
}
use one_mail.Fleet.Contracts.{
  FleetConfig, CloudAccount, Shard, MetricReport, ImportEntry, ok, >>=-eq-ok, Result-cases,
}
use one_mail.Fleet.Validation.{safe_add-two}
use one_mail.Fleet.Placement.{placed}
use one_mail.Fleet.Placement.Sound.{judge-Judged}
use one_mail.Fleet.Placement.Chosen.{choose_placement-Won, select-In, scan-candidates, start}
use one_mail.Fleet.Registry.{
  MailboxRecord, Store, Txn, Response, is_owner, require_config, assert_owner, increment_usage,
  add_affinity,
}
use one_mail.Fleet.Registry.Configure.{
  configure, metrics, keeps_shard, keeps_used_shards, shard_index, account_index, configured_shards,
  configured_accounts, observe_sizes,
}
use one_mail.Fleet.Registry.Import.{is_deleting, import_entry, import_entries}
use one_mail.Fleet.Registry.Allocate.{placement_for}
use one_mail.Fleet.Registry.Tombstone.{owner_of}
use one_mail.Fleet.Registry.Inversion.{Imports}
use one_mail.Fleet.Registry.Owners.{uses, Placed, RouteInUse, Configured, Owned, placed-Owned}

-- A change of the configuration alone, which keeps the shards in use.
pub reconfigured :
    (t t' : Txn)
    → t'.store.usage ≡ t.store.usage
    → t'.store.mailboxes ≡ t.store.mailboxes
    → t'.store.routes ≡ t.store.routes
    → ((o : String) → 0 < uses t.store.usage o → Configured t'.meta.config o)
    → Owned t
    → Owned t'
reconfigured t t' u m r c v = record {
  mailboxes =
      subst (EveryValue (Placed t'.store.usage)) (sym m)
        (subst (λ x. EveryValue (Placed x) t.store.mailboxes) (sym u) v.mailboxes);
  routes =
      subst (EveryValue (RouteInUse t'.store.usage)) (sym r)
        (subst (λ x. EveryValue (RouteInUse x) t.store.routes) (sym u) v.routes);
  shards = λ o p. c o (subst (λ x. 0 < uses x o) u p);
}

shard_index-any :
    (ss : List Shard) (o : String) (s : Shard)
    → get (shard_index ss) o ≡ some s
    → any (λ x. x.shard_id === o) ss ≡ true
unfolding get
shard_index-any ss o s h = elim (get-put_all (λ x. x.shard_id) [] ss o s h) [
  | inl e ↦ cc
  | inr (e, i) ↦ any-In (λ x. x.shard_id === o) ss s i (ground arith)
]

kept_shard :
    (s : Store) (c : FleetConfig) (pa : Dict String CloudAccount) (ss : List Shard) (x : Shard)
    → keeps_used_shards s c pa ss ≡ ok tt
    → In x ss
    → 0 < uses s.usage x.shard_id
    → (r : Shard) × (get (shard_index c.shards) x.shard_id ≡ some r)
unfolding keeps_used_shards keeps_shard
kept_shard s c pa [] x h i p = elim i [ ]
kept_shard s c pa (y ∷ ss) x h (inl e) p =
    elim (Option-cases (get (shard_index c.shards) x.shard_id)) [
      | inr g ↦ g
      | inl n ↦
          let m : get (shard_index c.shards) y.shard_id ≡ none =
            ap (λ (z : Shard). get (shard_index c.shards) z.shard_id) e ∙ n in
          let q : 0 < uses s.usage y.shard_id =
            subst (λ (z : Shard). 0 < uses s.usage z.shard_id) (sym e) p in
          let b : ⊥ = ground arith in elim b [ ]
    ]
kept_shard s c pa (y ∷ ss) x h (inr i) p = kept_shard s c pa ss x (rest h) i p
  where
    rest : keeps_used_shards s c pa (y ∷ ss) ≡ ok tt → keeps_used_shards s c pa ss ≡ ok tt
    rest h = elim (Result-cases (keeps_shard c pa y (get (shard_index c.shards) y.shard_id))) [
      | inl (u, e) ↦ ground arith
      | inr (u, e) ↦ ground arith
    ]

configure-facts :
    (t : Txn) (c : FleetConfig) {t' : Txn} {r : Response}
    → configure t c ≡ ok (t', r)
    → (keeps_used_shards t.store c
          (account_index (configured_accounts t.meta.config))
          (configured_shards t.meta.config)
        ≡ ok tt)
      × (t'.store.usage ≡ t.store.usage)
      × (t'.store.mailboxes ≡ t.store.mailboxes)
      × (t'.store.routes ≡ t.store.routes)
      × ((c' : FleetConfig) × (t'.meta.config ≡ some c') × (c'.shards ≡ c.shards))
unfolding configure
configure-facts t c {t'} h =
    elim (Result-cases (
      keeps_used_shards t.store c (account_index (configured_accounts t.meta.config))
        (configured_shards t.meta.config))) [
          | inr (e, f) ↦ ground arith
          | inl (u, f) ↦ elim (Option-cases t'.meta.config) [
            | inl n ↦ let b : ⊥ = ground arith in elim b [ ]
            | inr (c', g) ↦
                (ground arith, ground arith, ground arith, ground arith, (c', g, ground arith))
          ]
        ]

pub configure-Owned :
    (t : Txn) (c : FleetConfig) {t' : Txn} {r : Response}
    → configure t c ≡ ok (t', r)
    → Owned t
    → Owned t'
configure-Owned t c {t'} h v =
    let (k, u, m, r, (c', e, f)) = configure-facts t c h in
    reconfigured t t' u m r
      (λ o p.
        subst (λ x. Configured x o) (sym e)
          (subst (λ x. any (λ s. s.shard_id === o) x ≡ true) (sym f)
            (still_configured t.meta.config refl k o p)))
      v
  where
    still_configured :
        (old : Option FleetConfig)
        → t.meta.config ≡ old
        → keeps_used_shards t.store c
            (account_index (configured_accounts t.meta.config))
            (configured_shards t.meta.config)
          ≡ ok tt
        → (o : String) → 0 < uses t.store.usage o
        → is_owner c o ≡ true
    still_configured none e k o p =
        let b : ⊥ = subst (λ x. Configured x o) e (v.shards o p) in elim b [ ]
    still_configured (some old) e k o p =
        let (s, i, q) =
          any-witness (λ x. x.shard_id === o) old.shards
            (subst (λ x. Configured x o) e (v.shards o p)) in
        let n : s.shard_id ≡ o = ground arith in
        let j : In s (configured_shards t.meta.config) =
          subst (λ x. In s (configured_shards x)) (sym e) i in
        let (r, g) =
          kept_shard t.store c (account_index (configured_accounts t.meta.config))
            (configured_shards t.meta.config) s k j
            (subst (λ x. 0 < uses t.store.usage x) (sym n) p) in
        shard_index-any c.shards o r (ap (get (shard_index c.shards)) (sym n) ∙ g)

sized-any :
    (sizes : Dict String ℕ) (ss : List Shard) (o : String)
    → any
        (λ s. s.shard_id === o)
        (map
          (λ s. elim (get sizes s.shard_id) [
            | none ↦ s
            | some n ↦ record s { observed_size_bytes = n }
          ])
          ss)
      ≡ any (λ s. s.shard_id === o) ss
sized-any sizes [] o = refl
sized-any sizes (s ∷ ss) o = ground (arith, sized-any sizes ss o)

metrics-facts :
    (t : Txn) (x : MetricReport) (now : ℕ) {t' : Txn} {r : Response}
    → metrics t x now ≡ ok (t', r)
    → (c : FleetConfig) × (t.meta.config ≡ some c)
      × (t'.store.usage ≡ t.store.usage)
      × (t'.store.mailboxes ≡ t.store.mailboxes)
      × (t'.store.routes ≡ t.store.routes)
      × ((t'.meta.config ≡ some c) ⊎ (t'.meta.config ≡ some (observe_sizes c x)))
unfolding metrics require_config
metrics-facts t x now h = elim (Option-cases t.meta.config) [
  | inl e ↦ let b : ⊥ = ground arith in elim b [ ]
  | inr (c, e) ↦ (c, e, ground arith, ground arith, ground arith, ground arith)
]

pub metrics-Owned :
    (t : Txn) (x : MetricReport) (now : ℕ) {t' : Txn} {r : Response}
    → metrics t x now ≡ ok (t', r)
    → Owned t
    → Owned t'
unfolding observe_sizes
metrics-Owned t x now {t'} h v =
    let (c, e, u, m, r, d) = metrics-facts t x now h in
    reconfigured t t' u m r
      (λ o p.
        let w = subst (λ y. Configured y o) e (v.shards o p) in
        elim d [
          | inl f ↦ subst (λ y. Configured y o) (sym f) w
          | inr f ↦
              subst (λ y. Configured y o) (sym f) (sized-any x.snapshot.shard_sizes c.shards o ∙ w)
        ])
      v

module _ (t : Txn) (c : FleetConfig) (e : ImportEntry) (s : Store) where
  import_entry-facts :
      import_entry c t.store e ≡ ok s
      → (s.usage
          ≡ put t.store.usage e.route.owner_shard_id
              (uses t.store.usage e.route.owner_shard_id + 1))
        × ((m : MailboxRecord) × (s.mailboxes ≡ put t.store.mailboxes e.route.mail_account_id m)
            × (owner_of m ≡ some e.route.owner_shard_id))
        × (s.routes ≡ put t.store.routes e.route.mail_account_id e.route)
        × (is_owner c e.route.owner_shard_id ≡ true)
  unfolding import_entry increment_usage add_affinity assert_owner
  import_entry-facts h = (
    ground (arith, safe_add-two (uses t.store.usage e.route.owner_shard_id) 1),
    (
      record {
        user_key = e.user_key;
        route = some e.route;
        pending = none;
        deleted = is_deleting e.route.state;
        epoch = e.route.epoch;
      },
      ground arith,
      ground arith,
    ),
    ground arith,
    ground arith,
  )

  import_entry-Owned :
      import_entry c t.store e ≡ ok s
      → t.meta.config ≡ some c
      → Owned t
      → Owned (record t { store = s })
  import_entry-Owned h k v =
      let (u, (m, x, o), r, w) = import_entry-facts h in
      placed-Owned t (record t { store = s }) e.route.mail_account_id e.route.owner_shard_id m u x
        (inr (e.route, refl, r)) refl o (subst (λ y. Configured y e.route.owner_shard_id) (sym k) w)
        v

import_entries-Owned :
    (t : Txn) (c : FleetConfig) (es : List ImportEntry) (s : Store)
    → import_entries c t.store es ≡ ok s
    → t.meta.config ≡ some c
    → Owned t
    → Owned (record t { store = s })
unfolding import_entries
import_entries-Owned t c [] s h k v =
    let q : t.store ≡ s = ground arith in subst (λ x. Owned (record t { store = x })) q v
import_entries-Owned t c (e ∷ es) s h k v =
    let (s₁, h₁, h₂) = >>=-eq-ok (import_entry c t.store e) (λ x. import_entries c x es) h in
    import_entries-Owned (record t { store = s₁ }) c es s h₂ k (import_entry-Owned t c e s₁ h₁ k v)

pub same_config :
    (t t' : Txn) → t'.store ≡ t.store → t'.meta.config ≡ t.meta.config → Owned t → Owned t'
same_config t t' s c v =
    reconfigured t t' (ap (λ (x : Store). x.usage) s) (ap (λ (x : Store). x.mailboxes) s)
      (ap (λ (x : Store). x.routes) s) (λ o p. subst (λ x. Configured x o) (sym c) (v.shards o p)) v

pub import_routes-Owned :
    (t t' : Txn) (es : List ImportEntry) → Imports t es t' → Owned t → Owned t'
import_routes-Owned t t' es i v =
    same_config (record t { store = t'.store }) t' refl (ground (arith, i.counted))
      (import_entries-Owned t i.config es t'.store i.written i.configured v)

pub placement_for-configured :
    (s : Store) (c : FleetConfig) (affinity : List String) (now : ℕ) (shard account : String)
    (ppm : ℕ)
    → placement_for s c affinity now ≡ ok (placed shard account ppm)
    → is_owner c shard ≡ true
unfolding placement_for
placement_for-configured s c affinity now shard account ppm h =
    let w = choose_placement-Won _ shard account ppm h in
    elim (select-In w.best.score w.scanned.candidates none w.winner w.selected) [
      | inl n ↦ cc
      | inr m ↦ elim (scan-candidates _ c.shards start w.winner w.scan_returned m) [
        | inl n ↦ elim n [ ]
        | inr (sh, member, j) ↦
            any-In (λ x. x.shard_id === shard) c.shards sh member
              (ground (arith, (judge-Judged _ sh w.winner j).shard_named, w.shard_named))
      ]
    ]
