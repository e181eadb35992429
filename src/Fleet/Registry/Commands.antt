-- ===== src/Fleet/Registry/Commands.antt =====
-- worker/src/fleet/registry_do.ts: revisions, replays and failures of single commands.
use one_mail.Base.{
  ℕ, ◌+◌, ◌≤◌, ◌≡◌, ◌≢◌, refl, String, none, some, false, get, get-put_self, arith, Option-cases,
  inl, inr, text_key,
}
use one_mail.Fleet.Contracts.{idempotency_conflict, FleetMode, Command, ok, fail}
use one_mail.Fleet.Validation.{max_epoch}
use one_mail.Fleet.Registry.{Reply, Registry, OperationRecord}
use one_mail.Fleet.Registry.Service.{commit, transact}
use one_mail.Fleet.Registry.History.{Ran, run_command-Ran}

abbrev pub revision_of : Registry → ℕ
revision_of r = elim r.meta [ none ↦ 0 | some m ↦ m.revision ]

-- What a command that was carried out leaves in the store and in `meta`.
module _ (r : Registry) (f : String) (c : Command) (now : ℕ) (mode : FleetMode) (r' : Registry)
    (reply : Reply) (ran : Ran r f c now mode r' reply) where
  Ran-operations :
      get r'.store.operations c.idempotency_key
      ≡ some (record { fingerprint = f; reply = reply; created_at = now })
  unfolding commit
  Ran-operations = ground (
    arith,
    ran.stored,
    ran.answered,
    get-put_self ran.done.0.store.operations c.idempotency_key
        (record { fingerprint = f; reply = reply; created_at = now }),
  )

  Ran-expected : c.expected_revision ≡ revision_of r
  Ran-expected = ground (arith, ran.expected)

  Ran-revision : revision_of r' ≡ revision_of r + 1
  unfolding commit
  Ran-revision = ground (arith, ran.stored, Ran-expected)

  Ran-reply : reply.revision ≡ revision_of r'
  unfolding commit
  Ran-reply = ground (arith, ran.stored, ran.answered)

  Ran-le-max_epoch : revision_of r' ≤ max_epoch
  Ran-le-max_epoch = ground (arith, ran.in_range, Ran-revision, Ran-expected)

-- What a command that was answered did: an operation record with its fingerprint answered it and
-- nothing changed, or no record had its key, its expected revision was the registry's, and it
-- took the revision one further within the range of an epoch.
pub data Answers (digest : Command → String) (r : Registry) (c : Command) (r' : Registry)
    (reply : Reply) : Type 0 where
  replayed :
      (previous : OperationRecord)
      → get r.store.operations c.idempotency_key ≡ some previous
      → previous.fingerprint ≡ digest c
      → reply ≡ previous.reply
      → r' ≡ r
      → Answers digest r c r' reply
  executed :
      get r.store.operations c.idempotency_key ≡ none
      → c.expected_revision ≡ revision_of r
      → revision_of r' ≡ revision_of r + 1
      → reply.revision ≡ revision_of r'
      → revision_of r' ≤ max_epoch
      → Answers digest r c r' reply

-- Every answer is a replay of a stored operation or one step of the revision.
pub transact-Answers :
    (digest : Command → String) (r : Registry) (c : Command) (now : ℕ) (mode : FleetMode)
    (r' : Registry) (reply : Reply)
    → transact digest r c now mode ≡ ok (r', reply)
    → Answers digest r c r' reply
unfolding transact
transact-Answers digest r c now mode r' reply h =
    elim (Option-cases (get r.store.operations c.idempotency_key)) [
      | inr (p, e) ↦ replayed p e (ground arith) (ground arith) (ground arith)
      | inl n ↦
          let ran =
            run_command-Ran r (digest c) c now mode {r' = r'} {reply = reply} (ground arith) in
          executed n (Ran-expected r (digest c) c now mode r' reply ran)
            (Ran-revision r (digest c) c now mode r' reply ran)
            (Ran-reply r (digest c) c now mode r' reply ran)
            (Ran-le-max_epoch r (digest c) c now mode r' reply ran)
    ]

-- After an answer the operation is on record.
pub transact-operations :
    (digest : Command → String) (r : Registry) (c : Command) (now : ℕ) (mode : FleetMode)
    (r' : Registry) (reply : Reply)
    → transact digest r c now mode ≡ ok (r', reply)
    → (p : OperationRecord) × (get r'.store.operations c.idempotency_key ≡ some p)
      × (p.fingerprint ≡ digest c)
      × (p.reply ≡ reply)
unfolding transact
transact-operations digest r c now mode r' reply h =
    elim (Option-cases (get r.store.operations c.idempotency_key)) [
      | inr (p, e) ↦ (p, ground arith, ground arith, ground arith)
      | inl n ↦
          let ran =
            run_command-Ran r (digest c) c now mode {r' = r'} {reply = reply} (ground arith) in
          (_, Ran-operations r (digest c) c now mode r' reply ran, refl, refl)
    ]

-- Another command under a used idempotency key is a conflict, whatever revision it expects.
pub transact_conflict :
    (digest : Command → String) (r : Registry) (c d : Command) (now : ℕ) (mode : FleetMode)
    (r' : Registry) (reply : Reply)
    → transact digest r c now mode ≡ ok (r', reply)
    → d.idempotency_key ≡ c.idempotency_key
    → digest d ≢ digest c
    → (later : ℕ) (mode' : FleetMode)
    → transact digest r' d later mode' ≡ fail idempotency_conflict 409 false
unfolding transact
transact_conflict digest r c d now mode r' reply h k n later mode' =
    ground (arith, transact-operations digest r c now mode r' reply h)
