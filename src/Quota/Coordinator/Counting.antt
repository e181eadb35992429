-- ===== src/Quota/Coordinator/Counting.antt =====
-- worker/src/core/d1_quota_coordinator_do.ts: what a call does to the markers and the counters.
use one_mail.Base.{
  ℕ, ◌+◌, ◌≤◌, ◌≡◌, ◌⊎◌, inl, inr, refl, String, Option, none, some, Bool, true, false, not, ◌&&◌,
  Dict, get, put, get-put, held, if◌then◌else◌, ite, text_key, nat_key, ℕ_discrete, arith,
  Bool-cases,
}
use one_mail.Fleet.Contracts.{or_else}
use one_mail.Fleet.Validation.{max_safe_integer}
use one_mail.Quota.Coordinator.{
  marker_key, Coordinator, Outcome, done, overflow, fault, ◌>>=◌, ◌>>◌, overflow_if, fault_if,
  is_safe_counter, checked_state, QuotaState, KvBinding,
}
use one_mail.Quota.Coordinator.Handle.{
  Counted, Delta, is_due, count_delta, add_delta, summed, is_marked,
}

-- The counter of a date.
abbrev pub tally : (QuotaState → ℕ) → Coordinator → ℕ → ℕ
tally f c d = held f (get c.states d)

Outcome->>= {ℓ κ} :
    {A : Type ℓ} {B : Type κ} (m : Outcome A) (f : A → Outcome B) {b : B}
    → (m >>= f) ≡ done b
    → (a : A) × (m ≡ done a) × (f a ≡ done b)
Outcome->>= (done a) f h = (a, refl, h)
Outcome->>= overflow f h = cc
Outcome->>= fault f h = cc

checked_state-held :
    (o : Option QuotaState) (shard : String) (date : ℕ) {s : QuotaState}
    → checked_state o shard date ≡ done s
    → (held (λ x. x.rows_read) o ≡ s.rows_read) × (held (λ x. x.rows_written) o ≡ s.rows_written)
unfolding checked_state
checked_state-held none shard date h = ground arith
checked_state-held (some x) shard date h = ground arith

states-put :
    (d : Dict ℕ QuotaState) (k j : ℕ) (v : QuotaState)
    → get (put d k v) j ≡ ite (ℕ_discrete k j) (some v) (get d j)
states-put d k j v = get-put d k j v

abbrev pub Writes : Coordinator → Delta → Coordinator → Counted → QuotaState → Type 0
Writes c b c' r s =
    ((is_marked c (b.utc_date, b.delta_id) ≡ true) × (c' ≡ c) × (r.state ≡ s))
    ⊎ ((is_marked c (b.utc_date, b.delta_id) ≡ false)
        × (r.state ≡ summed s b)
        × (c' ≡ record c {
          deltas = put c.deltas (b.utc_date, b.delta_id) true;
          states = put c.states b.utc_date r.state;
        })
        × (r.state.rows_read ≤ max_safe_integer)
        × (r.state.rows_written ≤ max_safe_integer)
        × (s.flush_count + 1 ≤ max_safe_integer))

-- The first transaction: the marker was there and nothing is written, or it is written together
-- with the sums.
pub data CountsDelta (c : Coordinator) (now : ℕ) (kv : KvBinding) (b : Delta) (c' : Coordinator)
    (r : Counted) : Type 0 where
  counts :
      (s : QuotaState)
      → checked_state (get c.states b.utc_date) b.shard_id b.utc_date ≡ done s
      → is_safe_counter (or_else c.last_attempt s.last_kv_snapshot_at) ≡ true
      → r.snapshot_due ≡ is_due c kv (or_else c.last_attempt s.last_kv_snapshot_at) now
      → (r.snapshot_due ≡ true → s.flush_count + 1 ≤ max_safe_integer)
      → Writes c b c' r s
      → CountsDelta c now kv b c' r

overflow_if-done : (t : Bool) {u : Unit {0}} → overflow_if t ≡ done u → t ≡ false
overflow_if-done true h = cc
overflow_if-done false h = refl

fault_if-done : (t : Bool) {u : Unit {0}} → fault_if t ≡ done u → t ≡ false
fault_if-done true h = cc
fault_if-done false h = refl

pub count_delta-CountsDelta :
    (c : Coordinator) (now : ℕ) (kv : KvBinding) (b : Delta) {c' : Coordinator} {r : Counted}
    → count_delta c now kv b ≡ done (c', r)
    → CountsDelta c now kv b c' r
unfolding count_delta add_delta
count_delta-CountsDelta c now kv b {c'} {r} h =
    let (s, e, h₁) =
      Outcome->>= (checked_state (get c.states b.utc_date) b.shard_id b.utc_date)
        (λ x.
          fault_if (not (is_safe_counter (last x)))
          >> (overflow_if (due x && not (is_safe_counter (x.flush_count + 1))) >> choice x))
        h in
    let (u, f, h₂) =
      Outcome->>= (fault_if (not (is_safe_counter (last s))))
        (λ _. overflow_if (due s && not (is_safe_counter (s.flush_count + 1))) >> choice s) h₁ in
    let (v, g, h₃) =
      Outcome->>= (overflow_if (due s && not (is_safe_counter (s.flush_count + 1)))) (λ _. choice s)
        h₂ in
    counts s e (ground (arith, fault_if-done (not (is_safe_counter (last s))) f)) (settled s h₃)
      (in_range s (settled s h₃)
        (overflow_if-done (due s && not (is_safe_counter (s.flush_count + 1))) g))
      (chosen s h₃)
  where
    last : QuotaState → ℕ
    last x = or_else c.last_attempt x.last_kv_snapshot_at

    due : QuotaState → Bool
    due x = is_due c kv (last x) now

    choice : QuotaState → Outcome (Coordinator × Counted)
    choice x =
        if is_marked c (b.utc_date, b.delta_id)
        then done (c, record { state = x; duplicate = true; snapshot_due = due x })
        else add_delta c b x (due x)

    settled : (x : QuotaState) → choice x ≡ done (c', r) → r.snapshot_due ≡ due x
    settled x q = ground arith

    in_range :
        (x : QuotaState)
        → r.snapshot_due ≡ due x
        → (due x && not (is_safe_counter (x.flush_count + 1))) ≡ false
        → r.snapshot_due ≡ true
        → x.flush_count + 1 ≤ max_safe_integer
    in_range x d q t = ground arith

    chosen : (x : QuotaState) → choice x ≡ done (c', r) → Writes c b c' r x
    chosen x q = elim (Bool-cases (is_marked c (b.utc_date, b.delta_id))) [
      | inl m ↦ inl (m, ground arith, ground arith)
      | inr m ↦ inr (m, ground arith, ground arith, ground arith, ground arith, ground arith)
    ]
