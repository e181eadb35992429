-- ===== src/Quota/Coordinator/Steps.antt =====
-- worker/src/core/d1_quota_coordinator_do.ts: one call, seen by the markers and the counters.
use one_mail.Base.{
  ℕ, ◌+◌, ◌≤◌, ◌≡◌, ◌⊎◌, inl, inr, refl, sym, subst, some, List, [], ◌∷◌, true, false, get, put,
  held, ltb, text_key, nat_key, arith, Bool-cases,
}
use one_mail.Fleet.Contracts.{or_else}
use one_mail.Quota.Coordinator.{
  marker_key, Coordinator, Outcome, done, overflow, fault, utc_date_of, retention_floor_at,
  QuotaState, KvBinding,
}
use one_mail.Quota.Coordinator.Handle.{
  Counted, Delta, count_delta, publish, published, max, Turn, settle, Publication,
}
use one_mail.Quota.Coordinator.Counting.{CountsDelta, count_delta-CountsDelta}

-- A counter of a date.
abbrev pub tally : (QuotaState → ℕ) → Coordinator → ℕ → ℕ
tally f c d = held f (get c.states d)

abbrev pub reads : QuotaState → ℕ
reads s = s.rows_read

abbrev pub writes : QuotaState → ℕ
writes s = s.rows_written

abbrev pub floor_of : Coordinator → ℕ
floor_of c = or_else c.retention_floor 0

-- The state after the namespace has taken a snapshot.
abbrev pub stamped : Coordinator → ℕ → ℕ → QuotaState → QuotaState
stamped c now date state =
    let current = or_else (get c.states date) state in
    record current {
      flushed_at = now;
      flush_count = max current.flush_count (state.flush_count + 1);
      last_kv_snapshot_at = max current.last_kv_snapshot_at now;
    }

-- What follows the first transaction.
pub data Publishes (c : Coordinator) (now date : ℕ) (r : Counted) (c' : Coordinator)
    (o : Outcome Counted) (sent : List Publication) : Type 0 where
  unsent : c' ≡ c → o ≡ done r → sent ≡ [] → Publishes c now date r c' o sent
  refused :
      r.snapshot_due ≡ true
      → c' ≡ record c { last_attempt = some now }
      → o ≡ fault
      → sent ≡ record { at = now; snapshot = published r.state now } ∷ []
      → Publishes c now date r c' o sent
  taken :
      (r' : Counted)
      → r.snapshot_due ≡ true
      → r'.state ≡ stamped c now date r.state
      → c' ≡ record c { last_attempt = some now; states = put c.states date r'.state }
      → o ≡ done r'
      → r'.duplicate ≡ r.duplicate
      → sent ≡ record { at = now; snapshot = published r.state now } ∷ []
      → Publishes c now date r c' o sent

pub publish-Publishes :
    (c : Coordinator) (now : ℕ) (kv : KvBinding) (date : ℕ) (r : Counted)
    → Publishes c now date r
        (publish c now kv date r).0
        (publish c now kv date r).1
        (publish c now kv date r).2
unfolding publish
publish-Publishes c now kv date r = elim (Bool-cases r.snapshot_due) [
  | inl e ↦ go kv e
  | inr e ↦ unsent (ground arith) (ground arith) (ground arith)
]
  where
    go :
        (kv : KvBinding)
        → r.snapshot_due ≡ true
        → Publishes c now date r
            (publish c now kv date r).0
            (publish c now kv date r).1
            (publish c now kv date r).2
    go KvBinding.unbound e = unsent (ground arith) (ground arith) (ground arith)
    go KvBinding.rejects e = refused e (ground arith) (ground arith) (ground arith)
    go KvBinding.accepts e =
        taken
          (record {
            state = stamped c now date r.state;
            duplicate = r.duplicate;
            snapshot_due = false;
          })
          e refl (ground arith) (ground arith) refl (ground arith)

-- A valid delta leaves the storage as it was, or the two transactions ran.
pub data Settles (c : Coordinator) (now : ℕ) (kv : KvBinding) (b : Delta) (t : Turn) : Type 0 where
  refused : t.after ≡ c → t.sent ≡ [] → Settles c now kv b t
  settled :
      (c₁ : Coordinator) (r : Counted) (o : Outcome Counted)
      → retention_floor_at c now ≤ b.utc_date
      → CountsDelta c now kv b c₁ r
      → Publishes c₁ now b.utc_date r t.after o t.sent
      → Settles c now kv b t

Outcome-cases {ℓ} :
    {A : Type ℓ} (o : Outcome A) → ((a : A) × (o ≡ done a)) ⊎ ((o ≡ overflow) ⊎ (o ≡ fault))
Outcome-cases (done a) = inl (a, refl)
Outcome-cases overflow = inr (inl refl)
Outcome-cases fault = inr (inr refl)

pub settle-Settles :
    (c : Coordinator) (now : ℕ) (kv : KvBinding) (b : Delta)
    → Settles c now kv b (settle c now kv b)
unfolding settle
settle-Settles c now kv b = elim (Bool-cases (ltb (utc_date_of now) b.utc_date)) [
  | inl f ↦ refused (ground arith) (ground arith)
  | inr f ↦ elim (Bool-cases (ltb b.utc_date (retention_floor_at c now))) [
    | inl x ↦ refused (ground arith) (ground arith)
    | inr x ↦ elim (Outcome-cases (count_delta c now kv b)) [
      | inr (inl e) ↦ refused (ground arith) (ground arith)
      | inr (inr e) ↦ refused (ground arith) (ground arith)
      | inl (a, e) ↦ ran f x a e
    ]
  ]
]
  where
    ran :
        ltb (utc_date_of now) b.utc_date ≡ false
        → ltb b.utc_date (retention_floor_at c now) ≡ false
        → (a : Coordinator × Counted) → count_delta c now kv b ≡ done a
        → Settles c now kv b (settle c now kv b)
    ran f x (c₁, r) e =
        settled c₁ r (publish c₁ now kv b.utc_date r).1 (ground arith)
          (count_delta-CountsDelta c now kv b e)
          (subst
            (λ z.
              Publishes c₁ now b.utc_date r (settle c now kv b).after
                (publish c₁ now kv b.utc_date r).1 z)
            (sym same_sent)
            (subst
              (λ z.
                Publishes c₁ now b.utc_date r z (publish c₁ now kv b.utc_date r).1
                  (publish c₁ now kv b.utc_date r).2)
              (sym same_after) (publish-Publishes c₁ now kv b.utc_date r)))
      where
        same_after : (settle c now kv b).after ≡ (publish c₁ now kv b.utc_date r).0
        same_after = elim (Outcome-cases (publish c₁ now kv b.utc_date r).1) [
          | inl (a, g) ↦ ground arith
          | inr (inl g) ↦ ground arith
          | inr (inr g) ↦ ground arith
        ]

        same_sent : (settle c now kv b).sent ≡ (publish c₁ now kv b.utc_date r).2
        same_sent = elim (Outcome-cases (publish c₁ now kv b.utc_date r).1) [
          | inl (a, g) ↦ ground arith
          | inr (inl g) ↦ ground arith
          | inr (inr g) ↦ ground arith
        ]
