-- ===== src/Fleet/Registry/Receipts.antt =====
-- worker/src/fleet/registry_do.ts: the records of operations and their audit index through a history,
-- with `pruneOperations`, and what a repeated command is answered.
use one_mail.Base.{
  ℕ, zero, suc, ◌+◌, ◌-◌, ◌≤◌, ◌≡◌, ◌≢◌, ◌⊎◌, inl, inr, refl, sym, ap, ◌∙◌, subst, String, Option,
  none, some, List, [], ◌∷◌, Bool, true, false, ◌&&◌, ◌||◌, get, put, get-put, get-delete, In, ltb,
  ◌==◌, ◌===◌, same-yes, text_key, arith, Bool-cases, Option-cases,
}
use one_mail.Fleet.Contracts.{
  FleetConfig, ImportEntry, FleetMode, Action, Command, configures, imports, allocates, confirms,
  measures, tombstones, ok, >>=-eq-ok,
}
use one_mail.Fleet.Registry.{
  AuditEntry, OperationRecord, Store, Txn, Registry, Response, Reply, require_config,
  increment_usage, add_affinity, remove_affinity, put_audit, remove_audit, list_before,
  drop_operation, drop_operations, prune_operations, retention_ms,
}
use one_mail.Fleet.Placement.{lt_text}
use one_mail.Fleet.Registry.Configure.{configure, metrics}
use one_mail.Fleet.Registry.Import.{import_entry, import_entries, import_routes}
use one_mail.Fleet.Registry.Allocate.{reserve, allocate_new, allocate, confirm}
use one_mail.Fleet.Registry.Tombstone.{tombstone}
use one_mail.Fleet.Registry.Service.{execute, commit, transact, serve, serve_all}
use one_mail.Fleet.Registry.History.{begin, initial, Ran, serve-cases}
use one_mail.Fleet.Registry.Commands.{transact-operations}

-- A handler touches neither the records of operations nor their index.
abbrev Untouched : Store → Store → Type 0
Untouched s t = (t.operations ≡ s.operations) × (t.audit ≡ s.audit)

import_entry-Untouched :
    (c : FleetConfig) (s : Store) (e : ImportEntry) {s' : Store}
    → import_entry c s e ≡ ok s'
    → Untouched s s'
unfolding import_entry increment_usage add_affinity
import_entry-Untouched c s e h = ground arith

import_entries-Untouched :
    (c : FleetConfig) (s : Store) (es : List ImportEntry) {s' : Store}
    → import_entries c s es ≡ ok s'
    → Untouched s s'
unfolding import_entries
import_entries-Untouched c s [] h = ground arith
import_entries-Untouched c s (e ∷ es) h =
    let (s₁, h₁, h₂) = >>=-eq-ok (import_entry c s e) (λ x. import_entries c x es) h in
    let (a, b) = import_entry-Untouched c s e h₁ in
    let (x, y) = import_entries-Untouched c s₁ es h₂ in (x ∙ a, y ∙ b)

reserve-Untouched :
    (t : Txn) (c : FleetConfig) (k u o sh a : String) (now : ℕ) {t' : Txn} {r : Response}
    → reserve t c k u o sh a now ≡ ok (t', r)
    → Untouched t.store t'.store
unfolding reserve increment_usage add_affinity
reserve-Untouched t c k u o sh a now h = ground arith

allocate_new-Untouched :
    (t : Txn) (c : FleetConfig) (k u o : String) (now : ℕ) {t' : Txn} {r : Response}
    → allocate_new t c k u o now ≡ ok (t', r)
    → Untouched t.store t'.store
unfolding allocate_new
allocate_new-Untouched t c k u o now h = grind (arith, reserve-Untouched)

execute-Untouched :
    (t : Txn) (key : String) (a : Action) (now : ℕ) (mode : FleetMode) {t' : Txn} {r : Response}
    → execute t key a now mode ≡ ok (t', r)
    → Untouched t.store t'.store
unfolding execute configure metrics import_routes allocate confirm tombstone require_config
    remove_affinity
execute-Untouched t key (configures c) now mode h = ground arith
execute-Untouched t key (imports es) now mode h = grind (arith, import_entries-Untouched)
execute-Untouched t key (measures m) now mode h = ground arith
execute-Untouched t key (allocates k u) now mode h = grind (arith, allocate_new-Untouched)
execute-Untouched t key (confirms k o g) now mode h = ground arith
execute-Untouched t key (tombstones k) now mode h = ground arith

-- The index names the operations, with the time at which each was carried out.
abbrev Indexed : Store → Type 0
Indexed s =
    (e : AuditEntry)
    → In e s.audit
    → (p : OperationRecord) × (get s.operations e.idempotency_key ≡ some p) × (p.created_at ≡ e.at)

-- The operation of a key is on record, and no entry of the key in the index is older.
abbrev Held : String → OperationRecord → Store → Type 0
Held k p s =
    (get s.operations k ≡ some p)
    × ((e : AuditEntry) → In e s.audit → e.idempotency_key ≡ k → p.created_at ≤ e.at)

In-list_before :
    (n cutoff : ℕ) (es : List AuditEntry) (e : AuditEntry)
    → In e (list_before n cutoff es)
    → In e es × (ltb e.at cutoff ≡ true)
unfolding list_before
In-list_before n cutoff [] e i = elim i [ ]
In-list_before zero cutoff (d ∷ es) e i = elim i [ ]
In-list_before (suc n) cutoff (d ∷ es) e i =
    go (ltb d.at cutoff) refl (In-list_before n cutoff es e) (In-list_before (suc n) cutoff es e) i
  where
    go :
        (b : Bool)
        → ltb d.at cutoff ≡ b
        → (In e (list_before n cutoff es) → In e es × (ltb e.at cutoff ≡ true))
        → (In e (list_before (suc n) cutoff es) → In e es × (ltb e.at cutoff ≡ true))
        → In e (elim b as (λ _. List AuditEntry) [
          | true ↦ d ∷ list_before n cutoff es
          | false ↦ list_before (suc n) cutoff es
        ])
        → In e (d ∷ es) × (ltb e.at cutoff ≡ true)
    go true l f g (inl q) = (inl q, subst (λ (x : AuditEntry). ltb x.at cutoff ≡ true) q l)
    go true l f g (inr j) = let (x, y) = f j in (inr x, y)
    go false l f g j = let (x, y) = g j in (inr x, y)

In-remove_audit :
    (es : List AuditEntry) (d e : AuditEntry)
    → In e (remove_audit es d)
    → In e es × (e.at ≡ d.at → e.idempotency_key ≡ d.idempotency_key → ⊥)
unfolding remove_audit
In-remove_audit [] d e i = elim i [ ]
In-remove_audit (x ∷ es) d e i =
    elim (Bool-cases (x.at == d.at && x.idempotency_key === d.idempotency_key)) [
      | inl l ↦ let (a, b) = In-remove_audit es d e (rw l at i) in (inr a, b)
      | inr l ↦ elim (rw l at i) [
        | inl q ↦ (
          inl q,
          (λ u v.
              let w =
                same-yes x.idempotency_key d.idempotency_key
                  (ap (λ (z : AuditEntry). z.idempotency_key) q ∙ v) in
              let y : x.at ≡ d.at = ap (λ (z : AuditEntry). z.at) q ∙ u in ground arith),
        )
        | inr j ↦ let (a, b) = In-remove_audit es d e j in (inr a, b)
      ]
    ]

In-put_audit : (es : List AuditEntry) (d e : AuditEntry) → In e (put_audit es d) → (d ≡ e) ⊎ In e es
unfolding put_audit
In-put_audit [] d e (inl q) = inl q
In-put_audit [] d e (inr i) = elim i [ ]
In-put_audit (x ∷ es) d e i =
    elim (Bool-cases
      (ltb x.at d.at || (x.at == d.at && lt_text x.idempotency_key d.idempotency_key))) [
        | inl l ↦ elim (rw l at i) [
          | inl q ↦ inr (inl q)
          | inr j ↦ elim (In-put_audit es d e j) [ inl q ↦ inl q | inr m ↦ inr (inr m) ]
        ]
        | inr l ↦ elim (Bool-cases (x.at == d.at && x.idempotency_key === d.idempotency_key)) [
          | inl m ↦ elim (rw (l, m) at i) [ inl q ↦ inl q | inr j ↦ inr (inr j) ]
          | inr m ↦ rw (l, m) at i
        ]
      ]

-- The entries that a pruning drops are of other keys, or name the operation of their time.
drop-none :
    (t : Txn) (es : List AuditEntry) (k : String)
    → get t.store.operations k ≡ none
    → get (drop_operations t es).store.operations k ≡ none
unfolding drop_operations drop_operation
drop-none t [] k h = h
drop-none t (e ∷ es) k h =
    drop-none (drop_operation t e) es k
      (ground (arith, get-delete t.store.operations e.idempotency_key k))

drop-Held :
    (t : Txn) (es : List AuditEntry) (k : String) (p : OperationRecord)
    → ((e : AuditEntry) → In e es → e.idempotency_key ≢ k)
    → Held k p t.store
    → Held k p (drop_operations t es).store
unfolding drop_operations drop_operation
drop-Held t [] k p n h = h
drop-Held t (e ∷ es) k p n (g, l) =
    let m = n e (inl refl) in
    drop-Held (drop_operation t e) es k p (λ d i. n d (inr i))
      (
        ground (arith, get-delete t.store.operations e.idempotency_key k),
        (λ d i q. l d (In-remove_audit t.store.audit e d i).0 q),
      )

drop-Indexed :
    (t : Txn) (es : List AuditEntry)
    → ((d e : AuditEntry)
        → In d es
        → In e t.store.audit
        → e.idempotency_key ≡ d.idempotency_key
        → e.at ≡ d.at)
    → Indexed t.store
    → Indexed (drop_operations t es).store
unfolding drop_operations drop_operation
drop-Indexed t [] c h = h
drop-Indexed t (d ∷ es) c h =
    drop-Indexed (drop_operation t d) es
      (λ x e i j q. c x e (inr i) (In-remove_audit t.store.audit d e j).0 q)
      (λ e j.
        let (i, n) = In-remove_audit t.store.audit d e j in
        let (p, g, a) = h e i in
        elim (text_key.same d.idempotency_key e.idempotency_key) [
          | yes y ↦ absurd (n (c d e (inl refl) i (sym y)) (sym y))
          | no m ↦ (
            p,
            ground (arith, get-delete t.store.operations d.idempotency_key e.idempotency_key),
            a,
          )
        ])

record_or : OperationRecord → Option OperationRecord → OperationRecord
record_or d none = d
record_or d (some p) = p

same_record : (p q : OperationRecord) → some p ≡ some q → p ≡ q
unfolding record_or
same_record p q e = ap (record_or p) e

-- A pruning.
prune-Indexed : (t : Txn) (now : ℕ) → Indexed t.store → Indexed (prune_operations t now).store
unfolding prune_operations
prune-Indexed t now h =
    drop-Indexed t (list_before 100 (now - retention_ms) t.store.audit)
      (λ d e i j q.
        let (x, _) = In-list_before 100 (now - retention_ms) t.store.audit d i in
        let (u, g, a) = h d x in
        let (v, k, b) = h e j in
        let w = same_record v u (sym k ∙ ap (λ z. get t.store.operations z) q ∙ g) in
        sym b ∙ ap (λ (z : OperationRecord). z.created_at) w ∙ a)
      h

prune-Held :
    (t : Txn) (now : ℕ) (k : String) (p : OperationRecord)
    → now ≤ p.created_at + retention_ms
    → Held k p t.store
    → Held k p (prune_operations t now).store
unfolding prune_operations
prune-Held t now k p n h =
    drop-Held t (list_before 100 (now - retention_ms) t.store.audit) k p
      (λ e i q.
        let (x, l) = In-list_before 100 (now - retention_ms) t.store.audit e i in
        let m = h.1 e x q in ground arith)
      h

-- What a command that is carried out leaves.
module _ (r : Registry) (f : String) (c : Command) (now : ℕ) (mode : FleetMode) (r' : Registry)
    (reply : Reply) (ran : Ran r f c now mode r' reply)
    (fresh : get r.store.operations c.idempotency_key ≡ none) where
  abbrev pruned : Txn
  pruned = prune_operations (begin r now) now

  abbrev written : OperationRecord
  written = record { fingerprint = f; reply = reply; created_at = now }

  abbrev entry : AuditEntry
  entry = record { at = now; idempotency_key = c.idempotency_key }

  Ran-store :
      (r'.store.operations ≡ put pruned.store.operations c.idempotency_key written)
      × (r'.store.audit ≡ put_audit pruned.store.audit entry)
  unfolding commit
  Ran-store =
      let (a, b) = execute-Untouched pruned c.idempotency_key c.action now mode ran.executed in
      (ground (arith, ran.stored, ran.answered, a), ground (arith, ran.stored, b))

  still_fresh : get pruned.store.operations c.idempotency_key ≡ none
  unfolding prune_operations
  still_fresh =
      drop-none (begin r now) (list_before 100 (now - retention_ms) r.store.audit) c.idempotency_key
        fresh

  Ran-Indexed : Indexed r.store → Indexed r'.store
  Ran-Indexed h e i =
      let (x, y) = Ran-store in
      let g = prune-Indexed (begin r now) now h in
      let put_law = get-put pruned.store.operations c.idempotency_key e.idempotency_key written in
      elim (In-put_audit pruned.store.audit entry e (subst (In e) y i)) [
        | inl q ↦
            let a = ap (λ (z : AuditEntry). z.at) q in
            let b = ap (λ (z : AuditEntry). z.idempotency_key) q in
            (written, rw x (ground (arith, put_law, b)), a)
        | inr j ↦
            let (p, k, a) = g e j in
            elim (text_key.same c.idempotency_key e.idempotency_key) [
              | yes z ↦
                  let n = sym k ∙ ap (λ u. get pruned.store.operations u) (sym z) ∙ still_fresh in
                  cc
              | no n ↦ (p, rw x (ground (arith, put_law, k)), a)
            ]
      ]

  Ran-Held :
      (k : String) (p : OperationRecord)
      → now ≤ p.created_at + retention_ms
      → Held k p r.store
      → Held k p r'.store
  Ran-Held k p n h =
      let (x, y) = Ran-store in
      let (g, l) = prune-Held (begin r now) now k p n h in
      let put_law = get-put pruned.store.operations c.idempotency_key k written in
      elim (text_key.same c.idempotency_key k) [
        | yes z ↦
            let n = sym g ∙ ap (λ u. get pruned.store.operations u) (sym z) ∙ still_fresh in cc
        | no m ↦ (
          rw x (ground (arith, put_law, g)),
          (λ e i q. elim (In-put_audit pruned.store.audit entry e (subst (In e) y i)) [
            | inl w ↦ absurd (m (ap (λ (z : AuditEntry). z.idempotency_key) w ∙ q))
            | inr j ↦ l e j q
          ]),
        )
      ]

serve_replay :
    (digest : Command → String) (r : Registry) (c : Command) (now : ℕ) (mode : FleetMode)
    (p : OperationRecord)
    → get r.store.operations c.idempotency_key ≡ some p
    → serve digest r c now mode ≡ r
unfolding serve transact
serve_replay digest r c now mode p g = elim (Bool-cases (p.fingerprint === digest c)) [
  | inl e ↦ ground (arith, g, e)
  | inr e ↦ ground (arith, g, e)
]

serve_ok :
    (digest : Command → String) (r : Registry) (c : Command) (now : ℕ) (mode : FleetMode)
    (r' : Registry) (reply : Reply)
    → transact digest r c now mode ≡ ok (r', reply)
    → serve digest r c now mode ≡ r'
unfolding serve
serve_ok digest r c now mode r' reply h = rw (serve, h) refl

serve-Indexed :
    (digest : Command → String) (r : Registry) (c : Command) (now : ℕ) (mode : FleetMode)
    → Indexed r.store
    → Indexed (serve digest r c now mode).store
serve-Indexed digest r c now mode h =
    elim (Option-cases (get r.store.operations c.idempotency_key)) [
      | inr (p, g) ↦ rw (serve_replay digest r c now mode p g) h
      | inl n ↦ elim (serve-cases digest r c now mode) [
        | inl e ↦ rw e h
        | inr (reply, ran) ↦ Ran-Indexed r (digest c) c now mode _ reply ran n h
      ]
    ]

serve-Held :
    (digest : Command → String) (r : Registry) (c : Command) (now : ℕ) (mode : FleetMode)
    (k : String) (p : OperationRecord)
    → now ≤ p.created_at + retention_ms
    → Held k p r.store
    → Held k p (serve digest r c now mode).store
serve-Held digest r c now mode k p l h =
    elim (Option-cases (get r.store.operations c.idempotency_key)) [
      | inr (q, g) ↦ rw (serve_replay digest r c now mode q g) h
      | inl n ↦ elim (serve-cases digest r c now mode) [
        | inl e ↦ rw e h
        | inr (reply, ran) ↦ Ran-Held r (digest c) c now mode _ reply ran n k p l h
      ]
    ]

serve_all-Indexed :
    (digest : Command → String) (r : Registry) (cs : List (Command × ℕ × FleetMode))
    → Indexed r.store
    → Indexed (serve_all digest r cs).store
unfolding serve_all
serve_all-Indexed digest r [] h = h
serve_all-Indexed digest r ((c, now, mode) ∷ cs) h =
    serve_all-Indexed digest (serve digest r c now mode) cs (serve-Indexed digest r c now mode h)

-- Commands that come no later than the retention after a time.
abbrev pub Within : ℕ → List (Command × ℕ × FleetMode) → Type 0
Within at [] = Unit
Within at ((c, now, mode) ∷ cs) = (now ≤ at + retention_ms) × Within at cs

serve_all-Held :
    (digest : Command → String) (r : Registry) (cs : List (Command × ℕ × FleetMode)) (k : String)
    (p : OperationRecord)
    → Within p.created_at cs
    → Held k p r.store
    → Held k p (serve_all digest r cs).store
unfolding serve_all
serve_all-Held digest r [] k p w h = h
serve_all-Held digest r ((c, now, mode) ∷ cs) k p w h =
    serve_all-Held digest (serve digest r c now mode) cs k p w.1
      (serve-Held digest r c now mode k p w.0 h)

-- A command that was answered answers its repetition: after any history, when a command is answered and
-- its operation is on record, and then any other commands come, each no later than thirty days after
-- the operation was carried out, the same command in any mode gets the same reply and changes nothing,
-- whatever revision the registry has reached. After thirty days a command may prune the record.
pub transact_again :
    (digest : Command → String) (cs ds : List (Command × ℕ × FleetMode)) (c : Command) (now : ℕ)
    (mode : FleetMode) (r' : Registry) (reply : Reply) (p : OperationRecord) (later : ℕ)
    (mode' : FleetMode)
    → transact digest (serve_all digest initial cs) c now mode ≡ ok (r', reply)
    → get r'.store.operations c.idempotency_key ≡ some p
    → Within p.created_at ds
    → transact digest (serve_all digest r' ds) c later mode' ≡ ok (serve_all digest r' ds, reply)
unfolding transact
transact_again digest cs ds c now mode r' reply p later mode' h g w =
    let r = serve_all digest initial cs in
    let (q, k, f, a) = transact-operations digest r c now mode r' reply h in
    let e : q ≡ p = same_record q p (sym k ∙ g) in
    let s = serve_ok digest r c now mode r' reply h in
    let i : Indexed r'.store =
      subst (λ z. Indexed z.store) s
        (serve-Indexed digest r c now mode
          (serve_all-Indexed digest initial cs (λ d j. elim j [ ]))) in
    let b = serve_all-Held digest r' ds c.idempotency_key p w (
      g,
      (λ d j z.
          let (u, v, t) = i d j in
          let x = same_record u p (sym v ∙ ap (λ y. get r'.store.operations y) z ∙ g) in
          let y = ap (λ (o : OperationRecord). o.created_at) x in omega (arith, y, t)),
    ) in
    let x = ap (λ (o : OperationRecord). o.fingerprint) e in
    let y = ap (λ (o : OperationRecord). o.reply) e in ground (arith, b.0)
