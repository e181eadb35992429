-- ===== src/Quota/Telemetry/React.antt =====
-- worker/src/core/d1_quota.ts: the books of an isolate balance after every signal.
use one_mail.Base.{
  ℕ, ◌+◌, ◌≡◌, ◌≢◌, ◌⊎◌, ◌∙◌, inl, inr, refl, ap, sym, subst, String, Option, none, some, List, [],
  ◌∷◌, ◌++◌, Bool, true, false, not, ◌&&◌, ◌||◌, Dict, get, ltb, ◌==◌, if◌then◌else◌, nat_key,
  arith, Option-cases, Bool-cases,
}
use one_mail.Fleet.Contracts.{or_else}
use one_mail.Quota.Coordinator.{QuotaSnapshot, utc_date_of, flush_interval_ms}
use one_mail.Quota.Telemetry.{
  QuotaDelta, Batch, Phase, idle, asking, delivering, reading_today, reading_first, reading_bucket,
  writing, Isolate, Bindings, Raw, remember_snapshot, read_snapshot_of,
}
use one_mail.Quota.Telemetry.Flush.{
  Flow, waiting, CoordinatorReply, broken, expired, answers, answered, drain, delivered,
  start_commit, flush_quota, maybe_flush_quota, coordinator_replies, bucket_read, answer_today,
  next_snapshot, within, first_key, is_nil, is_idle, attempt_interval_ms, kv_gives, kv_puts, Signal,
  records, flushes, maybe_flushes, replied, given, put_done, react, react_all,
}
use one_mail.Quota.Telemetry.Books.{
  Entry, Books, settled_by, given_up_by, book, book_all, Fits, PhaseFits, Balanced, batches-delete,
}
use one_mail.Quota.Telemetry.Balance.{
  answered-rows, read-rows, waits, records-Balanced, opens-Balanced, drains-Balanced,
  drops-Balanced,
}

get-first : (d : ℕ) (x : QuotaDelta) (p : Dict ℕ QuotaDelta) → get ((d, x) ∷ p) d ≡ some x
unfolding get
get-first d x p = ground arith

answer_today-rows :
    (s : Isolate) (t : Option QuotaSnapshot) (p : QuotaSnapshot)
    → ((answer_today s t p).0.pending ≡ s.pending)
      × ((answer_today s t p).0.batches ≡ s.batches)
      × ((answer_today s t p).0.phase ≡ idle)
unfolding remember_snapshot
answer_today-rows s none p = (refl, refl, refl)
answer_today-rows s (some q) p = (refl, refl, refl)

module _ (env : Bindings) (s : Isolate) (now d : ℕ) (x : QuotaDelta) (t : Option QuotaSnapshot)
    (p : QuotaSnapshot) where
  bucket_read-rows :
      ((bucket_read env s now d x t p).0.pending ≡ s.pending)
      × ((bucket_read env s now d x t p).0.batches ≡ s.batches)
  unfolding bucket_read remember_snapshot
  bucket_read-rows =
      elim (Bool-cases
        (ltb 0 current.flush_count && ltb now (current.flushed_at + flush_interval_ms))) [
          | inl e ↦ ground (arith, answer_today-rows s₁ t current)
          | inr e ↦ elim (Option-cases (next_snapshot env d current x now)) [
            | inl f ↦ ground arith
            | inr (n, f) ↦ ground arith
          ]
        ]
    where
      current : QuotaSnapshot
      current = (remember_snapshot s p).1

      s₁ : Isolate
      s₁ = (remember_snapshot s p).0

  bucket_read-phase :
      ((bucket_read env s now d x t p).0.phase ≡ idle)
      ⊎ ((n : QuotaSnapshot) × ((bucket_read env s now d x t p).0.phase ≡ writing d x n t))
  unfolding bucket_read remember_snapshot
  bucket_read-phase =
      elim (Bool-cases
        (ltb 0 current.flush_count && ltb now (current.flushed_at + flush_interval_ms))) [
          | inl e ↦ inl (ground (arith, answer_today-rows s₁ t current))
          | inr e ↦ elim (Option-cases (next_snapshot env d current x now)) [
            | inl f ↦ inl (ground arith)
            | inr (n, f) ↦ inr (n, ground arith)
          ]
        ]
    where
      current : QuotaSnapshot
      current = (remember_snapshot s p).1

      s₁ : Isolate
      s₁ = (remember_snapshot s p).0

module _ (env : Bindings) (s : Isolate) (b : Books) (v : Balanced env s b) where
  start-Balanced :
      (now : ℕ) (id : String) → s.phase ≡ idle → Balanced env (start_commit env s now id).0 b
  unfolding start_commit
  start-Balanced now id i = elim (Bool-cases env.has_coordinator) [
    | inl c ↦
        subst (λ s'. Balanced env s' b) (ground arith)
          (opens-Balanced env s b v (or_else (first_key s.pending) (utc_date_of now)) id c)
    | inr c ↦ elim (Bool-cases (within s.last_write flush_interval_ms now)) [
      | inl w ↦
          subst (λ s'. Balanced env s' b) (ground arith)
            (waits env s b v (record s { phase = reading_today (utc_date_of now) }) refl refl c)
      | inr w ↦ go s.pending refl c w
    ]
  ]
    where
      go :
          (p : Dict ℕ QuotaDelta)
          → s.pending ≡ p
          → env.has_coordinator ≡ false
          → within s.last_write flush_interval_ms now ≡ false
          → Balanced env (start_commit env s now id).0 b
      go [] e c w =
          subst (λ s'. Balanced env s' b) (ground (arith, ap first_key e))
            (waits env s b v (record s { phase = reading_today (utc_date_of now) }) refl refl c)
      go ((d, x) ∷ p) e c w = elim (Bool-cases (d == utc_date_of now)) [
        | inl t ↦
            subst (λ s'. Balanced env s' b) (ground (arith, found, head))
              (waits env s b v (record s { phase = reading_bucket d x none }) refl refl
                (c, (x, found, omega arith, omega arith)))
        | inr t ↦
            subst (λ s'. Balanced env s' b) (ground (arith, found, head))
              (waits env s b v (record s { phase = reading_first d (utc_date_of now) x }) refl refl
                (c, (x, found, omega arith, omega arith)))
      ]
        where
          found : get s.pending d ≡ some x
          found = subst (λ q. get q d ≡ some x) (sym e) (get-first d x p)

          head : first_key s.pending ≡ some d
          head = ap first_key e

  flush-Balanced : (now : ℕ) (id : String) → Balanced env (flush_quota env s now id).0 b
  unfolding flush_quota
  flush-Balanced now id = elim (Bool-cases (not env.has_kv && not env.has_coordinator)) [
    | inl e ↦ subst (λ s'. Balanced env s' b) (ground arith) v
    | inr e ↦ go s.phase refl e
  ]
    where
      go :
          (f : Phase)
          → s.phase ≡ f
          → (not env.has_kv && not env.has_coordinator) ≡ false
          → Balanced env (flush_quota env s now id).0 b
      go idle e g = subst (λ s'. Balanced env s' b) (ground arith) (start-Balanced now id e)
      go (asking d) e g = subst (λ s'. Balanced env s' b) (ground arith) v
      go (delivering d x) e g = subst (λ s'. Balanced env s' b) (ground arith) v
      go (reading_today d) e g = subst (λ s'. Balanced env s' b) (ground arith) v
      go (reading_first d t x) e g = subst (λ s'. Balanced env s' b) (ground arith) v
      go (reading_bucket d x t) e g = subst (λ s'. Balanced env s' b) (ground arith) v
      go (writing d x n t) e g = subst (λ s'. Balanced env s' b) (ground arith) v

  -- A flush that ends without taking rows.
  ends-Balanced :
      (s' : Isolate)
      → s'.pending ≡ s.pending
      → s'.batches ≡ s.batches
      → s'.phase ≡ idle
      → Balanced env s' b
  ends-Balanced s' p q i =
      waits env s b v s' p q (subst (PhaseFits env.has_coordinator s.pending s.batches) (sym i) tt)

  abbrev Booked : Isolate → List Entry → List Entry → Type 0
  Booked s' xs ys =
      Balanced env s' (record b { settled = xs ++ b.settled; given_up = ys ++ b.given_up })

  delivers-Balanced :
      (now : ℕ) (reply : CoordinatorReply) (d : ℕ) (x : Batch)
      → s.phase ≡ delivering d x
      → Booked
          (coordinator_replies env s now reply).0
          (settled_by env (delivering d x) s (replied now reply))
          (given_up_by (delivering d x) s (replied now reply))
  unfolding coordinator_replies delivered remember_snapshot
  delivers-Balanced now broken d x i = ends-Balanced _ (ground arith) (ground arith) (ground arith)
  delivers-Balanced now expired d x i =
      drops-Balanced env s b v (coordinator_replies env s now expired).0 d (ground arith)
        (ground arith) (ground arith)
  delivers-Balanced now (answers available raw) d x i =
      elim (Option-cases (answered s raw env.shard_id d).1) [
        | inl e ↦
            let u : [] ≡ settled_by env (delivering d x) s (replied now (answers available raw)) =
              ground arith in
            subst (λ xs. Booked s' xs []) u
              (ends-Balanced s' (ground (arith, answered-rows s raw env.shard_id d))
                (ground (arith, answered-rows s raw env.shard_id d)) (ground arith))
        | inr (p, e) ↦
            let u : (d, x.delta) ∷ []
                ≡ settled_by env (delivering d x) s (replied now (answers available raw)) =
              ground arith in
            subst (λ xs. Booked s' xs []) u
              (drains-Balanced env s b v s' d x.delta (v.batch_fits d x (batch_of i)).1
                (ground (arith, answered-rows s raw env.shard_id d)) (λ j y h. left p e j y h)
                (ground arith))
      ]
    where
      s' : Isolate
      s' = (coordinator_replies env s now (answers available raw)).0

      batch_of : s.phase ≡ delivering d x → get s.batches d ≡ some x
      batch_of i = (subst (PhaseFits env.has_coordinator s.pending s.batches) i v.phase_fits).1

      left :
          (p : QuotaSnapshot)
          → (answered s raw env.shard_id d).1 ≡ some p
          → (j : ℕ) (y : Batch) → get s'.batches j ≡ some y
          → (get s.batches j ≡ some y) × (d ≢ j)
      left p e j y h =
          ground (arith, answered-rows s raw env.shard_id d, batches-delete s.batches d j)

  asks-Balanced :
      (now : ℕ) (reply : CoordinatorReply) (d : ℕ)
      → s.phase ≡ asking d
      → Balanced env (coordinator_replies env s now reply).0 b
  unfolding coordinator_replies remember_snapshot
  asks-Balanced now broken d i = ends-Balanced _ (ground arith) (ground arith) (ground arith)
  asks-Balanced now expired d i = ends-Balanced _ (ground arith) (ground arith) (ground arith)
  asks-Balanced now (answers available raw) d i =
      elim (Option-cases (answered s raw env.shard_id d).1) [
        | inl e ↦
            ends-Balanced _ (ground (arith, answered-rows s raw env.shard_id d))
              (ground (arith, answered-rows s raw env.shard_id d)) (ground arith)
        | inr (p, e) ↦
            ends-Balanced _ (ground (arith, answered-rows s raw env.shard_id d))
              (ground (arith, answered-rows s raw env.shard_id d)) (ground arith)
      ]

  reads_today-Balanced :
      (now : ℕ) (raw : Raw) (d : ℕ)
      → s.phase ≡ reading_today d
      → Balanced env (kv_gives env s now (some raw)).0 b
  unfolding kv_gives
  reads_today-Balanced now raw d i = elim (Option-cases (read_snapshot_of s raw env.shard_id d).1) [
    | inl e ↦
        ends-Balanced _ (ground (arith, read-rows s raw env.shard_id d))
          (ground (arith, read-rows s raw env.shard_id d)) (ground arith)
    | inr (p, e) ↦
        ends-Balanced _ (ground (arith, read-rows s raw env.shard_id d))
          (ground (arith, read-rows s raw env.shard_id d)) (ground arith)
  ]

  -- A phase that waits on, by its own equation.
  goes_on-Balanced :
      (s' : Isolate) (f : Phase)
      → s'.pending ≡ s.pending
      → s'.batches ≡ s.batches
      → s'.phase ≡ f
      → PhaseFits env.has_coordinator s.pending s.batches f
      → Balanced env s' b
  goes_on-Balanced s' f p q i h =
      waits env s b v s' p q (subst (PhaseFits env.has_coordinator s.pending s.batches) (sym i) h)

  reads_first-Balanced :
      (now : ℕ) (raw : Raw) (d t : ℕ) (x : QuotaDelta)
      → s.phase ≡ reading_first d t x
      → Balanced env (kv_gives env s now (some raw)).0 b
  unfolding kv_gives
  reads_first-Balanced now raw d t x i =
      elim (Option-cases (read_snapshot_of s raw env.shard_id t).1) [
        | inl e ↦
            ends-Balanced _ (ground (arith, read-rows s raw env.shard_id t))
              (ground (arith, read-rows s raw env.shard_id t)) (ground arith)
        | inr (p, e) ↦
            goes_on-Balanced _ (reading_bucket d x (some p))
              (ground (arith, read-rows s raw env.shard_id t))
              (ground (arith, read-rows s raw env.shard_id t)) (ground arith)
              (subst (PhaseFits env.has_coordinator s.pending s.batches) i v.phase_fits)
      ]

  reads_bucket-Balanced :
      (now : ℕ) (raw : Raw) (d : ℕ) (x : QuotaDelta) (t : Option QuotaSnapshot)
      → s.phase ≡ reading_bucket d x t
      → Balanced env (kv_gives env s now (some raw)).0 b
  unfolding kv_gives
  reads_bucket-Balanced now raw d x t i =
      elim (Option-cases (read_snapshot_of s raw env.shard_id d).1) [
        | inl e ↦
            ends-Balanced _ (ground (arith, read-rows s raw env.shard_id d))
              (ground (arith, read-rows s raw env.shard_id d)) (ground arith)
        | inr (p, e) ↦
            let s₁ = (read_snapshot_of s raw env.shard_id d).0 in
            let c : (kv_gives env s now (some raw)).0 ≡ (bucket_read env s₁ now d x t p).0 =
              ground arith in
            subst (λ z. Balanced env z b) (sym c)
              (after s₁ p (read-rows s raw env.shard_id d).0 (read-rows s raw env.shard_id d).1)
      ]
    where
      after :
          (s₁ : Isolate) (p : QuotaSnapshot)
          → s₁.pending ≡ s.pending
          → s₁.batches ≡ s.batches
          → Balanced env (bucket_read env s₁ now d x t p).0 b
      after s₁ p y z = elim (bucket_read-phase env s₁ now d x t p) [
        | inl h ↦
            ends-Balanced _ ((bucket_read-rows env s₁ now d x t p).0 ∙ y)
              ((bucket_read-rows env s₁ now d x t p).1 ∙ z) h
        | inr (n, h) ↦
            goes_on-Balanced _ (writing d x n t) ((bucket_read-rows env s₁ now d x t p).0 ∙ y)
              ((bucket_read-rows env s₁ now d x t p).1 ∙ z) h
              (subst (PhaseFits env.has_coordinator s.pending s.batches) i v.phase_fits)
      ]

  writes-Balanced :
      (now d : ℕ) (x : QuotaDelta) (n : QuotaSnapshot) (t : Option QuotaSnapshot)
      → s.phase ≡ writing d x n t
      → Booked (kv_puts s now true).0 ((d, x) ∷ []) []
  unfolding kv_puts remember_snapshot
  writes-Balanced now d x n t i =
      let s₂ : Isolate = record (remember_snapshot (record s { last_write = some now }) n).0 {
        pending = drain s.pending d x;
      } in
      let a = answer_today-rows s₂ t (remember_snapshot (record s { last_write = some now }) n).1 in
      let c : (kv_puts s now true).0
          ≡ (answer_today s₂ t (remember_snapshot (record s { last_write = some now }) n).1).0 =
        ground arith in
      drains-Balanced env s b v (kv_puts s now true).0 d x (fits i).1
        (ap (λ (z : Isolate). z.pending) c ∙ a.0)
        (λ j y h.
          alone j y
            (sym (ap (λ m. get m j) a.1) ∙ (ap (λ (z : Isolate). get z.batches j) (sym c) ∙ h)))
        (ap (λ (z : Isolate). z.phase) c ∙ a.2)
    where
      fits : s.phase ≡ writing d x n t → (env.has_coordinator ≡ false) × Fits s.pending d x
      fits i = subst (PhaseFits env.has_coordinator s.pending s.batches) i v.phase_fits

      alone : (j : ℕ) (y : Batch) → get s.batches j ≡ some y → (get s.batches j ≡ some y) × (d ≢ j)
      alone j y g = (g, λ q. let e = (v.batch_fits j y g).0 in let f = (fits i).0 in cc)

  unmoved : (s' : Isolate) → s ≡ s' → Balanced env s' b
  unmoved s' e = subst (λ z. Balanced env z b) e v

  replied-Balanced :
      (now : ℕ) (reply : CoordinatorReply) (f : Phase)
      → s.phase ≡ f
      → Booked
          (coordinator_replies env s now reply).0
          (settled_by env f s (replied now reply))
          (given_up_by f s (replied now reply))
  unfolding coordinator_replies
  replied-Balanced now reply (delivering d x) i = delivers-Balanced now reply d x i
  replied-Balanced now broken (asking d) i = asks-Balanced now broken d i
  replied-Balanced now expired (asking d) i = asks-Balanced now expired d i
  replied-Balanced now (answers a raw) (asking d) i = asks-Balanced now (answers a raw) d i
  replied-Balanced now broken idle i = unmoved _ (ground arith)
  replied-Balanced now expired idle i = unmoved _ (ground arith)
  replied-Balanced now (answers a raw) idle i = unmoved _ (ground arith)
  replied-Balanced now broken (reading_today d) i = unmoved _ (ground arith)
  replied-Balanced now expired (reading_today d) i = unmoved _ (ground arith)
  replied-Balanced now (answers a raw) (reading_today d) i = unmoved _ (ground arith)
  replied-Balanced now broken (reading_first d t x) i = unmoved _ (ground arith)
  replied-Balanced now expired (reading_first d t x) i = unmoved _ (ground arith)
  replied-Balanced now (answers a raw) (reading_first d t x) i = unmoved _ (ground arith)
  replied-Balanced now broken (reading_bucket d x t) i = unmoved _ (ground arith)
  replied-Balanced now expired (reading_bucket d x t) i = unmoved _ (ground arith)
  replied-Balanced now (answers a raw) (reading_bucket d x t) i = unmoved _ (ground arith)
  replied-Balanced now broken (writing d x n t) i = unmoved _ (ground arith)
  replied-Balanced now expired (writing d x n t) i = unmoved _ (ground arith)
  replied-Balanced now (answers a raw) (writing d x n t) i = unmoved _ (ground arith)

  given-Balanced :
      (now : ℕ) (text : Option Raw) (f : Phase)
      → s.phase ≡ f
      → Balanced env (kv_gives env s now text).0 b
  unfolding kv_gives
  given-Balanced now (some raw) (reading_today d) i = reads_today-Balanced now raw d i
  given-Balanced now (some raw) (reading_first d t x) i = reads_first-Balanced now raw d t x i
  given-Balanced now (some raw) (reading_bucket d x t) i = reads_bucket-Balanced now raw d x t i
  given-Balanced now none (reading_today d) i =
      ends-Balanced _ (ground arith) (ground arith) (ground arith)
  given-Balanced now none (reading_first d t x) i =
      ends-Balanced _ (ground arith) (ground arith) (ground arith)
  given-Balanced now none (reading_bucket d x t) i =
      ends-Balanced _ (ground arith) (ground arith) (ground arith)
  given-Balanced now text idle i = unmoved _ (ground arith)
  given-Balanced now text (asking d) i = unmoved _ (ground arith)
  given-Balanced now text (delivering d x) i = unmoved _ (ground arith)
  given-Balanced now text (writing d x n t) i = unmoved _ (ground arith)

  put_done-Balanced :
      (now : ℕ) (taken : Bool) (f : Phase)
      → s.phase ≡ f
      → Booked (kv_puts s now taken).0 (settled_by env f s (put_done now taken)) []
  unfolding kv_puts
  put_done-Balanced now true (writing d x n t) i = writes-Balanced now d x n t i
  put_done-Balanced now false (writing d x n t) i =
      ends-Balanced _ (ground arith) (ground arith) (ground arith)
  put_done-Balanced now true idle i = unmoved _ (ground arith)
  put_done-Balanced now false idle i = unmoved _ (ground arith)
  put_done-Balanced now true (asking d) i = unmoved _ (ground arith)
  put_done-Balanced now false (asking d) i = unmoved _ (ground arith)
  put_done-Balanced now true (delivering d x) i = unmoved _ (ground arith)
  put_done-Balanced now false (delivering d x) i = unmoved _ (ground arith)
  put_done-Balanced now true (reading_today d) i = unmoved _ (ground arith)
  put_done-Balanced now false (reading_today d) i = unmoved _ (ground arith)
  put_done-Balanced now true (reading_first d t x) i = unmoved _ (ground arith)
  put_done-Balanced now false (reading_first d t x) i = unmoved _ (ground arith)
  put_done-Balanced now true (reading_bucket d x t) i = unmoved _ (ground arith)
  put_done-Balanced now false (reading_bucket d x t) i = unmoved _ (ground arith)

maybe-Balanced :
    (env : Bindings) (s : Isolate) (b : Books)
    → Balanced env s b
    → (now : ℕ) (id : String) → Balanced env (maybe_flush_quota env s now id).0 b
unfolding maybe_flush_quota
maybe-Balanced env s b v now id =
    branch
      ((not env.has_kv && not env.has_coordinator) || is_nil s.pending || not (is_idle s.phase))
      (s, waiting) _ v
      (branch (within s.last_write flush_interval_ms now) (s, waiting) _ v
        (branch (within s.last_attempt attempt_interval_ms now) (s, waiting) _ v
          (flush-Balanced env (record s { last_attempt = some now }) b
            (waits env s b v (record s { last_attempt = some now }) refl refl v.phase_fits) now
            id)))
  where
    branch :
        (t : Bool) (x y : Isolate × Flow)
        → Balanced env x.0 b
        → Balanced env y.0 b
        → Balanced env (if t then x else y).0 b
    branch true x y p q = p
    branch false x y p q = q

react-Balanced :
    (env : Bindings) (s : Isolate) (b : Books) (e : Signal)
    → Balanced env s b
    → Balanced env (react env s e).0 (book env s e b)
unfolding react
react-Balanced env s b (records now delta) v = records-Balanced env s b v now delta
react-Balanced env s b (flushes now id) v = flush-Balanced env s b v now id
react-Balanced env s b (maybe_flushes now id) v = maybe-Balanced env s b v now id
react-Balanced env s b (replied now reply) v = replied-Balanced env s b v now reply s.phase refl
react-Balanced env s b (given now text) v = given-Balanced env s b v now text s.phase refl
react-Balanced env s b (put_done now taken) v = put_done-Balanced env s b v now taken s.phase refl

-- Through any interleaving of recorded rows, flushes, answers, lost answers and failures, the books
-- of an isolate balance for each date: the rows that were recorded are those in its bucket, those
-- that the coordinator or the namespace has taken, and those given up with an expired date; a
-- flush that waits never takes more than its bucket holds, so no bucket goes below zero.
pub react_all-Balanced :
    (env : Bindings) (s : Isolate) (es : List Signal) (b : Books)
    → Balanced env s b
    → Balanced env (react_all env s es) (book_all env s es b)
unfolding react_all
react_all-Balanced env s [] b v = v
react_all-Balanced env s (e ∷ es) b v =
    react_all-Balanced env (react env s e).0 es (book env s e b) (react-Balanced env s b e v)
