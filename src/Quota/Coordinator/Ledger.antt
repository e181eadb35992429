-- ===== src/Quota/Coordinator/Ledger.antt =====
-- worker/src/core/d1_quota_coordinator_do.ts: the ledger of the deltas that were counted.
use one_mail.Base.{
  ℕ, ◌+◌, ◌≤◌, ◌<◌, ◌≡◌, ◌≢◌, ◌⊎◌, inl, inr, refl, ap, subst, String, Option, none, some, List, [],
  ◌∷◌, ◌++◌, Bool, true, false, not, ◌&&◌, In, Dict, get, put, get-put, held, if◌then◌else◌, ite,
  text_key, nat_key, ℕ_discrete, arith,
}
use one_mail.Fleet.Contracts.{or_else}
use one_mail.Quota.Coordinator.{
  Marker, marker_key, marker_dec, Coordinator, Outcome, done, checked_state, ensure_alarm,
  QuotaState, KvBinding, get_quota, post_delta, other_method,
}
use one_mail.Quota.Coordinator.Handle.{
  Counted, Delta, is_marked, Turn, settle, handle, valid_delta, Publication, Event, fetch, alarm,
  respond, respond_all,
}
use one_mail.Quota.Coordinator.Counting.{counts}
use one_mail.Quota.Coordinator.Steps.{
  tally, reads, writes, floor_of, Publishes, Settles, settle-Settles,
}
use one_mail.Quota.Coordinator.Retention.{
  cleanup-deltas, cleanup-states, le-retention_floor_at, cleanup-kept, cleanup-floor,
}

abbrev pub key_of : Delta → Marker
key_of b = (b.utc_date, b.delta_id)

abbrev delta_of : Event → Option Delta
delta_of (fetch now kv (post_delta body)) = valid_delta body
delta_of _ = none

-- The delta that a call counted: its marker is written by it.
abbrev pub counted_in : Coordinator → Event → List Delta
counted_in c e = elim (delta_of e) [
  | none ↦ []
  | some b ↦
      if not (is_marked c (key_of b)) && is_marked (respond c e).after (key_of b)
      then b ∷ []
      else []
]

-- The deltas that a history counted, the last one first, onto those that came before.
abbrev pub counted_all : Coordinator → List Event → List Delta → List Delta
counted_all c [] before = before
counted_all c (e ∷ es) before = counted_all (respond c e).after es (counted_in c e ++ before)

abbrev pub read_sum : ℕ → List Delta → ℕ
read_sum d [] = 0
read_sum d (b ∷ bs) = ite (ℕ_discrete b.utc_date d) b.rows_read 0 + read_sum d bs

abbrev pub written_sum : ℕ → List Delta → ℕ
written_sum d [] = 0
written_sum d (b ∷ bs) = ite (ℕ_discrete b.utc_date d) b.rows_written 0 + written_sum d bs

-- No identity of a delta stands twice.
abbrev pub Once : List Delta → Type 0
Once [] = Unit
Once (b ∷ bs) = ((x : Delta) → In x bs → key_of x ≢ key_of b) × Once bs

pub record Ledger (c : Coordinator) (bs : List Delta) : Type 0 where
  pub once : Once bs
  pub kept : (x : Delta) → In x bs → (is_marked c (key_of x) ≡ true) ⊎ (x.utc_date < floor_of c)
  pub read_exact : (d : ℕ) → floor_of c ≤ d → tally reads c d ≡ read_sum d bs
  pub written_exact : (d : ℕ) → floor_of c ≤ d → tally writes c d ≡ written_sum d bs

-- What a call does, seen by the markers and the counters.
data Effect (c c' : Coordinator) : List Delta → Type 0 where
  still :
      floor_of c ≤ floor_of c'
      → ((k : Marker) → floor_of c' ≤ k.0 → is_marked c' k ≡ is_marked c k)
      → ((d : ℕ) → floor_of c' ≤ d → tally reads c' d ≡ tally reads c d)
      → ((d : ℕ) → floor_of c' ≤ d → tally writes c' d ≡ tally writes c d)
      → Effect c c' []
  adds :
      (b : Delta)
      → floor_of c ≤ b.utc_date
      → floor_of c' ≡ floor_of c
      → is_marked c (key_of b) ≡ false
      → ((k : Marker) → is_marked c' k ≡ ite (marker_dec (key_of b) k) true (is_marked c k))
      → ((d : ℕ) → tally reads c' d ≡ ite (ℕ_discrete b.utc_date d) b.rows_read 0 + tally reads c d)
      → ((d : ℕ)
          → tally writes c' d ≡ ite (ℕ_discrete b.utc_date d) b.rows_written 0 + tally writes c d)
      → Effect c c' (b ∷ [])

Effect-Ledger :
    (c c' : Coordinator) (es bs : List Delta) → Effect c c' es → Ledger c bs → Ledger c' (es ++ bs)
Effect-Ledger c c' _ bs (still f m r w) l = record {
  once = l.once;
  kept = λ x i. ground (arith, l.kept x i, m (key_of x));
  read_exact = λ d h. ground (arith, l.read_exact d, r d);
  written_exact = λ d h. ground (arith, l.written_exact d, w d);
}
Effect-Ledger c c' _ bs (adds b g f u m r w) l = record {
  once = (
    λ x i e. ground (arith, l.kept x i, ap (λ k. is_marked c k) e, ap (λ (k : Marker). k.0) e),
    l.once,
  );
  kept = λ x i. elim i [
    | inl e ↦ inl (ground (arith, m (key_of x), ap (λ b. key_of b) e))
    | inr j ↦ elim (l.kept x j) [
      | inl y ↦ inl (ground (arith, m (key_of x)))
      | inr y ↦ inr (ground arith)
    ]
  ];
  read_exact = λ d h. ground (arith, l.read_exact d, r d);
  written_exact = λ d h. ground (arith, l.written_exact d, w d);
}

checked_state-held :
    (o : Option QuotaState) (shard : String) (date : ℕ) {s : QuotaState}
    → checked_state o shard date ≡ done s
    → (held reads o ≡ s.rows_read) × (held writes o ≡ s.rows_written)
unfolding checked_state
checked_state-held none shard date h = ground arith
checked_state-held (some x) shard date h = ground arith

states-put :
    (d : Dict ℕ QuotaState) (k j : ℕ) (v : QuotaState)
    → get (put d k v) j ≡ ite (ℕ_discrete k j) (some v) (get d j)
states-put d k j v = get-put d k j v

deltas-put :
    (d : Dict Marker Bool) (k j : Marker)
    → get (put d k true) j ≡ ite (marker_dec k j) (some true) (get d j)
deltas-put d k j = get-put d k j true

module _ (c : Coordinator) (now date : ℕ) (r : Counted) (c' : Coordinator) (o : Outcome Counted)
    (sent : List Publication) where
  Publishes-deltas :
      Publishes c now date r c' o sent
      → (c'.deltas ≡ c.deltas) × (c'.retention_floor ≡ c.retention_floor)
  Publishes-deltas (Publishes.unsent e _ _) = ground arith
  Publishes-deltas (Publishes.refused _ e _ _) = ground arith
  Publishes-deltas (Publishes.taken r' _ s e _ _ _) = ground arith

  Publishes-tally :
      Publishes c now date r c' o sent
      → tally reads c date ≡ r.state.rows_read
      → tally writes c date ≡ r.state.rows_written
      → (d : ℕ) → (tally reads c' d ≡ tally reads c d) × (tally writes c' d ≡ tally writes c d)
  Publishes-tally (Publishes.unsent e _ _) x y d = ground arith
  Publishes-tally (Publishes.refused _ e _ _) x y d = ground arith
  Publishes-tally (Publishes.taken r' _ s e _ _ _) x y d = (
    ground (arith, states-put c.states date d r'.state),
    ground (arith, states-put c.states date d r'.state),
  )

module _ (c : Coordinator) (now : ℕ) (kv : KvBinding) (b : Delta) (t : Turn) where
  abbrev seen : List Delta
  seen = if not (is_marked c (key_of b)) && is_marked t.after (key_of b) then b ∷ [] else []

  Settles-Effect : Settles c now kv b t → Effect c t.after seen
  Settles-Effect (Settles.refused e s) =
      subst (Effect c t.after) (ground arith)
        (still (ground arith) (λ k h. ground arith) (λ d h. ground arith) (λ d h. ground arith))
  Settles-Effect (Settles.settled c₁ r o f (counts s g _ _ _ (inl (m, e, y))) p) =
      let (x, z) = checked_state-held (get c.states b.utc_date) b.shard_id b.utc_date g in
      let (u, v) = Publishes-deltas c₁ now b.utc_date r t.after o t.sent p in
      let w =
        Publishes-tally c₁ now b.utc_date r t.after o t.sent p (ground arith) (ground arith) in
      subst (Effect c t.after) (ground arith) (
        still (ground arith) (λ k h. ground arith) (λ d h. ground (arith, w d))
          (λ d h. ground (arith, w d)))
  Settles-Effect (Settles.settled c₁ r o f (counts s g _ _ _ (inr (m, y, e, _, _, _))) p) =
      let (x, z) = checked_state-held (get c.states b.utc_date) b.shard_id b.utc_date g in
      let (u, v) = Publishes-deltas c₁ now b.utc_date r t.after o t.sent p in
      let w =
        Publishes-tally c₁ now b.utc_date r t.after o t.sent p
          (ground (arith, states-put c.states b.utc_date b.utc_date r.state))
          (ground (arith, states-put c.states b.utc_date b.utc_date r.state)) in
      let n : (k : Marker)
          → is_marked t.after k ≡ ite (marker_dec (key_of b) k) true (is_marked c k) =
        (λ k. ground (arith, deltas-put c.deltas (key_of b) k)) in
      subst (Effect c t.after) (ground (arith, n (key_of b))) (
        adds b (ground (arith, le-retention_floor_at c now)) (ground arith) m n
          (λ d. ground (arith, w d, states-put c.states b.utc_date d r.state))
          (λ d. ground (arith, w d, states-put c.states b.utc_date d r.state)))

rearmed :
    (c : Coordinator) (now : ℕ) {c' : Coordinator} {bs : List Delta}
    → Effect (ensure_alarm c now) c' bs
    → Effect c c' bs
rearmed c now (still f m r w) = still f m r w
rearmed c now (adds b g f u m r w) = adds b g f u m r w

respond-Effect : (c : Coordinator) (e : Event) → Effect c (respond c e).after (counted_in c e)
unfolding respond handle
respond-Effect c (alarm now) =
    still (cleanup-floor c now)
      (λ k h.
        ap (λ x. or_else x false) (cleanup-deltas c now k (ground (arith, cleanup-kept c now))))
      (λ d h. ap (held reads) (cleanup-states c now d (ground (arith, cleanup-kept c now))))
      (λ d h. ap (held writes) (cleanup-states c now d (ground (arith, cleanup-kept c now))))
respond-Effect c (fetch now kv (get_quota date shard)) =
    still (omega arith) (λ k h. refl) (λ d h. refl) (λ d h. refl)
respond-Effect c (fetch now kv other_method) =
    still (omega arith) (λ k h. refl) (λ d h. refl) (λ d h. refl)
respond-Effect c (fetch now kv (post_delta body)) = go (valid_delta body) refl
  where
    go :
        (o : Option Delta)
        → valid_delta body ≡ o
        → Effect c
            (handle c now kv (post_delta body)).after
            (counted_in c (fetch now kv (post_delta body)))
    go none e =
        subst (λ x. Effect c x (counted_in c (fetch now kv (post_delta body)))) (ground arith)
          (subst (Effect c (ensure_alarm c now)) (ground arith)
            (still (omega arith) (λ k h. refl) (λ d h. refl) (λ d h. refl)))
    go (some b) e =
        let t = settle (ensure_alarm c now) now kv b in
        subst (λ x. Effect c x (counted_in c (fetch now kv (post_delta body)))) (ground arith)
          (subst (Effect c t.after) (ground arith) (
            rearmed c now (
              Settles-Effect (ensure_alarm c now) now kv b t
                (settle-Settles (ensure_alarm c now) now kv b))))

-- After any history of calls and alarms, from a ledger that agrees with the storage: no identity
-- of a delta was counted twice, and both counters of every date that the retention floor has not
-- passed are the exact sums of the deltas that were counted for it.
pub respond_all-Ledger :
    (c : Coordinator) (es : List Event) (bs : List Delta)
    → Ledger c bs
    → Ledger (respond_all c es) (counted_all c es bs)
unfolding respond_all
respond_all-Ledger c [] bs l = l
respond_all-Ledger c (e ∷ es) bs l =
    respond_all-Ledger (respond c e).after es (counted_in c e ++ bs)
      (Effect-Ledger c (respond c e).after (counted_in c e) bs (respond-Effect c e) l)

abbrev pub new_coordinator : Coordinator
new_coordinator = record {
  retention_floor = none;
  last_attempt = none;
  alarm = none;
  states = [];
  deltas = [];
}

pub new_coordinator-Ledger : Ledger new_coordinator []
unfolding get
new_coordinator-Ledger = record {
  once = tt;
  kept = λ x i. elim i [ ];
  read_exact = λ d h. refl;
  written_exact = λ d h. refl;
}
