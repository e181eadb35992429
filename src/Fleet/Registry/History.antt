-- ===== src/Fleet/Registry/History.antt =====
-- worker/src/fleet/registry_do.ts: what a transaction went through, and induction over a history of
-- commands.
use one_mail.Base.{
  ℕ, ◌+◌, ◌-◌, ◌⊎◌, ◌<◌, ◌≡◌, refl, String, none, List, [], ◌∷◌, get, arith, Option-cases, inl, inr,
  text_key,
}
use one_mail.Fleet.Contracts.{FleetMode, Command, Action, ok, or_else, Result-cases}
use one_mail.Fleet.Validation.{max_epoch, next_epoch}
use one_mail.Fleet.Registry.{
  AuditEntry, Txn, Registry, Response, Reply, empty_meta, empty_store, max_operations,
  drop_operation, drop_operations, prune_operations, list_before, retention_ms,
}
use one_mail.Fleet.Registry.Service.{execute, commit, run_command, transact, serve, serve_all}

-- The transaction that a command starts from.
abbrev pub begin : Registry → ℕ → Txn
begin r now = record { store = r.store; meta = or_else r.meta (empty_meta now) }

-- A command that was carried out.
pub record Ran (r : Registry) (f : String) (c : Command) (now : ℕ) (mode : FleetMode)
    (r' : Registry) (reply : Reply) : Type 0 where
  pub done : Txn × Response
  pub executed :
      execute (prune_operations (begin r now) now) c.idempotency_key c.action now mode ≡ ok done
  pub expected : (begin r now).meta.revision ≡ c.expected_revision
  pub in_range : c.expected_revision < max_epoch
  pub room : (prune_operations (begin r now) now).meta.operation_count < max_operations
  pub stored : r' ≡ (commit f c.idempotency_key (c.expected_revision + 1) now done).0
  pub answered : reply ≡ (commit f c.idempotency_key (c.expected_revision + 1) now done).1

pub run_command-Ran :
    (r : Registry) (f : String) (c : Command) (now : ℕ) (mode : FleetMode) {r' : Registry}
    {reply : Reply}
    → run_command r f c now mode ≡ ok (r', reply)
    → Ran r f c now mode r' reply
unfolding run_command next_epoch
run_command-Ran r f c now mode h =
    elim (Result-cases
      (execute (prune_operations (begin r now) now) c.idempotency_key c.action now mode)) [
        | inl (done, e) ↦ record {
          done = done;
          executed = e;
          expected = ground arith;
          in_range = ground arith;
          room = ground arith;
          stored = ground arith;
          answered = ground arith;
        }
        | inr (e, failed) ↦ ground arith
      ]

drop_operations-meta :
    (t : Txn) (es : List AuditEntry) (P : Txn → Type 0)
    → ((u : Txn) (e : AuditEntry) → P u → P (drop_operation u e))
    → P t
    → P (drop_operations t es)
unfolding drop_operations
drop_operations-meta t [] P step h = h
drop_operations-meta t (e ∷ es) P step h =
    drop_operations-meta (drop_operation t e) es P step (step t e h)

-- A command leaves the registry as it was, or is carried out.
pub serve-cases :
    (digest : Command → String) (r : Registry) (c : Command) (now : ℕ) (mode : FleetMode)
    → (serve digest r c now mode ≡ r)
      ⊎ ((reply : Reply) × Ran r (digest c) c now mode (serve digest r c now mode) reply)
unfolding serve transact
serve-cases digest r c now mode = elim (Result-cases (run_command r (digest c) c now mode)) [
  | inr (x, e) ↦ inl (ground arith)
  | inl ((r', reply), e) ↦ elim (Option-cases (get r.store.operations c.idempotency_key)) [
    | inr (p, n) ↦ inl (ground arith)
    | inl n ↦
        let same : serve digest r c now mode ≡ r' = ground arith in
        inr (reply, rw same (run_command-Ran r (digest c) c now mode e))
  ]
]

-- A property that reads neither the operations and the audit nor the fields of `meta` about them.
abbrev pub Blind : (Txn → Type 0) → Type 0
Blind P =
    (t u : Txn)
    → P t
    → u ≡ record {
      store = record t.store { operations = u.store.operations; audit = u.store.audit };
      meta = record t.meta {
        revision = u.meta.revision;
        updated_at = u.meta.updated_at;
        operation_count = u.meta.operation_count;
      };
    }
    → P u

abbrev pub Kept : (Txn → Type 0) → Type 0
Kept P =
    (t : Txn) (key : String) (a : Action) (now : ℕ) (mode : FleetMode) (t' : Txn) (r : Response)
    → execute t key a now mode ≡ ok (t', r)
    → P t
    → P t'

-- `P` of what is stored, with no `meta` read as an empty one.
abbrev pub Holds : (Txn → Type 0) → Registry → Type 0
Holds P r = P (begin r 0)

module _ (P : Txn → Type 0) (blind : Blind P) (kept : Kept P) where
  begin-Holds : (r : Registry) (now : ℕ) → Holds P r → P (begin r now)
  begin-Holds r now h = blind (begin r 0) (begin r now) h (ground arith)

  prune_operations-Holds : (t : Txn) (now : ℕ) → P t → P (prune_operations t now)
  unfolding prune_operations
  prune_operations-Holds t now h =
      drop_operations-meta t (list_before 100 (now - retention_ms) t.store.audit) P
        (λ u e p. blind u (drop_operation u e) p (unfold drop_operation in refl)) h

  Ran-Holds :
      (r : Registry) (f : String) (c : Command) (now : ℕ) (mode : FleetMode) (r' : Registry)
      (reply : Reply)
      → Ran r f c now mode r' reply
      → Holds P r
      → Holds P r'
  unfolding commit
  Ran-Holds r f c now mode r' reply ran h = rw ran.stored (
      blind ran.done.0 _
        (kept _ c.idempotency_key c.action now mode ran.done.0 ran.done.1 ran.executed
          (prune_operations-Holds _ now (begin-Holds r now h)))
        refl)

  pub serve-Holds :
      (digest : Command → String) (r : Registry) (c : Command) (now : ℕ) (mode : FleetMode)
      → Holds P r
      → Holds P (serve digest r c now mode)
  serve-Holds digest r c now mode h = elim (serve-cases digest r c now mode) [
    | inl same ↦ rw same h
    | inr (reply, ran) ↦ Ran-Holds r (digest c) c now mode _ reply ran h
  ]

  -- A history keeps what every handler keeps.
  pub serve_all-Holds :
      (digest : Command → String) (r : Registry) (cs : List (Command × ℕ × FleetMode))
      → Holds P r
      → Holds P (serve_all digest r cs)
  unfolding serve_all
  serve_all-Holds digest r [] h = h
  serve_all-Holds digest r ((c, now, mode) ∷ cs) h =
      serve_all-Holds digest (serve digest r c now mode) cs (serve-Holds digest r c now mode h)

abbrev pub initial : Registry
initial = record { store = empty_store; meta = none }
