-- ===== src/Quota/Telemetry/Balance.antt =====
-- worker/src/core/d1_quota.ts: the books of an isolate balance whatever happens to it.
use one_mail.Base.{
  ℕ, ◌+◌, ◌≡◌, ◌≢◌, ◌∙◌, inl, inr, refl, ap, sym, subst, String, some, List, [], ◌∷◌, ◌++◌, true,
  ◌&&◌, get, put, delete, ◌==◌, nat_key, ℕ_discrete, arith, Option-cases, Bool-cases,
}
use one_mail.Fleet.Contracts.{or_else}
use one_mail.Quota.Coordinator.{utc_date_of}
use one_mail.Quota.Telemetry.{
  QuotaDelta, no_rows, Batch, idle, asking, delivering, Isolate, Bindings, add_quota_delta,
  record_quota, Raw, nothing, unreadable, holds, parse_snapshot, remember_snapshot,
  read_snapshot_of,
}
use one_mail.Quota.Telemetry.Flush.{answered, drain, start_coordinated, records}
use one_mail.Quota.Telemetry.Books.{
  Entry, Books, recorded_by, Fits, PhaseFits, Balanced, same_rows, pending-put, pending-delete,
  batches-put, batches-delete, Fits-put, PhaseFits-mono, drain-get,
}

-- What the helpers on snapshots leave alone.
pub parse-rows :
    (s : Isolate) (raw : Raw) (shard : String) (d : ℕ)
    → ((parse_snapshot s raw shard d).0.pending ≡ s.pending)
      × ((parse_snapshot s raw shard d).0.batches ≡ s.batches)
unfolding parse_snapshot
parse-rows s nothing shard d = (refl, refl)
parse-rows s unreadable shard d = (refl, refl)
parse-rows s (holds v p) shard d = ground arith

pub answered-rows :
    (s : Isolate) (raw : Raw) (shard : String) (d : ℕ)
    → ((answered s raw shard d).0.pending ≡ s.pending)
      × ((answered s raw shard d).0.batches ≡ s.batches)
answered-rows s nothing shard d = (refl, refl)
answered-rows s unreadable shard d = (refl, refl)
answered-rows s (holds v p) shard d = parse-rows s (holds v p) shard d

pub read-rows :
    (s : Isolate) (raw : Raw) (shard : String) (d : ℕ)
    → ((read_snapshot_of s raw shard d).0.pending ≡ s.pending)
      × ((read_snapshot_of s raw shard d).0.batches ≡ s.batches)
unfolding read_snapshot_of remember_snapshot
read-rows s raw shard d = elim (Option-cases (parse_snapshot s raw shard d).1) [
  | inl e ↦ ground (arith, parse-rows s raw shard d)
  | inr (p, e) ↦ ground (arith, parse-rows s raw shard d)
]

add-rows :
    (t e : QuotaDelta) {y : QuotaDelta}
    → add_quota_delta t e ≡ some y
    → (y.rows_read ≡ t.rows_read + e.rows_read) × (y.rows_written ≡ t.rows_written + e.rows_written)
unfolding add_quota_delta
add-rows t e h = ground arith

module _ (env : Bindings) (s : Isolate) (b : Books) (v : Balanced env s b) where
  -- A phase that waits, with the rows as they were.
  pub waits :
      (s' : Isolate)
      → s'.pending ≡ s.pending
      → s'.batches ≡ s.batches
      → PhaseFits env.has_coordinator s.pending s.batches s'.phase
      → Balanced env s' b
  waits s' p q f =
      same_rows env s s' b p q
        (subst (λ x. PhaseFits env.has_coordinator x s'.batches s'.phase) (sym p)
          (subst (λ x. PhaseFits env.has_coordinator s.pending x s'.phase) (sym q) f))
        v

  abbrev Recorded : Isolate → List Entry → Type 0
  Recorded s' es = Balanced env s' (record b { recorded = es ++ b.recorded })

  -- A bucket that grows by what is recorded.
  grows :
      (s' : Isolate) (d : ℕ) (x y : QuotaDelta)
      → s'.pending ≡ put s.pending d y
      → s'.batches ≡ s.batches
      → s'.phase ≡ s.phase
      → y.rows_read ≡ (or_else (get s.pending d) no_rows).rows_read + x.rows_read
      → y.rows_written ≡ (or_else (get s.pending d) no_rows).rows_written + x.rows_written
      → Recorded s' ((d, x) ∷ [])
  grows s' d x y p q i r w = record {
    read_balance = λ j. ground (arith, v.read_balance j, pending-put s.pending d j y);
    written_balance = λ j. ground (arith, v.written_balance j, pending-put s.pending d j y);
    batch_fits = λ j z h.
        let (c, f) = v.batch_fits j z (ap (λ m. get m j) (sym q) ∙ h) in (c, larger j z.delta f);
    phase_fits = subst (PhaseFits env.has_coordinator s'.pending s'.batches) (sym i) (
        subst (λ m. PhaseFits env.has_coordinator s'.pending m s.phase) (sym q)
          (PhaseFits-mono env.has_coordinator s.pending s'.pending s.batches s.phase larger
            v.phase_fits));
  }
    where
      larger : (j : ℕ) (z : QuotaDelta) → Fits s.pending j z → Fits s'.pending j z
      larger j z f =
          subst (λ m. Fits m j z) (sym p)
            (Fits-put s.pending d j y z (λ u h. (ground arith, ground arith)) f)

  -- An overflow leaves the bucket, which may be new and empty.
  touches :
      (s' : Isolate) (d : ℕ)
      → s'.pending ≡ put s.pending d (or_else (get s.pending d) no_rows)
      → s'.batches ≡ s.batches
      → s'.phase ≡ s.phase
      → Recorded s' []
  touches s' d p q i = record {
    read_balance = λ j.
        ground
          (arith, v.read_balance j, pending-put s.pending d j (or_else (get s.pending d) no_rows));
    written_balance = λ j.
        ground (
          arith,
          v.written_balance j,
          pending-put s.pending d j (or_else (get s.pending d) no_rows),
        );
    batch_fits = λ j z h.
        let (c, f) = v.batch_fits j z (ap (λ m. get m j) (sym q) ∙ h) in (c, larger j z.delta f);
    phase_fits = subst (PhaseFits env.has_coordinator s'.pending s'.batches) (sym i) (
        subst (λ m. PhaseFits env.has_coordinator s'.pending m s.phase) (sym q)
          (PhaseFits-mono env.has_coordinator s.pending s'.pending s.batches s.phase larger
            v.phase_fits));
  }
    where
      larger : (j : ℕ) (z : QuotaDelta) → Fits s.pending j z → Fits s'.pending j z
      larger j z f =
          subst (λ m. Fits m j z) (sym p)
            (Fits-put s.pending d j _ z (λ u h. (ground arith, ground arith)) f)

  pub records-Balanced :
      (now : ℕ) (delta : QuotaDelta)
      → Recorded (record_quota s now delta) (recorded_by s (records now delta))
  unfolding record_quota
  records-Balanced now delta = elim (Bool-cases (delta.rows_read == 0 && delta.rows_written == 0)) [
    | inl e ↦ both s [] (ground arith) (ground arith) v
    | inr e ↦
        elim (Option-cases
          (add_quota_delta (or_else (get s.pending (utc_date_of now)) no_rows) delta)) [
            | inl f ↦
                both
                  (record s {
                    pending =
                        put s.pending (utc_date_of now)
                          (or_else (get s.pending (utc_date_of now)) no_rows);
                    issues = record s.issues { counter_overflow = true };
                  })
                  [] (ground arith) (ground arith) (touches _ (utc_date_of now) refl refl refl)
            | inr (y, f) ↦
                both (record s { pending = put s.pending (utc_date_of now) y })
                  ((utc_date_of now, delta) ∷ []) (ground arith) (ground arith)
                  (grows _ (utc_date_of now) delta y refl refl refl (add-rows _ delta f).0
                    (add-rows _ delta f).1)
          ]
  ]
    where
      both :
          (s' : Isolate) (es : List Entry)
          → record_quota s now delta ≡ s'
          → recorded_by s (records now delta) ≡ es
          → Recorded s' es
          → Recorded (record_quota s now delta) (recorded_by s (records now delta))
      both s' es p q r =
          subst (λ x. Recorded x (recorded_by s (records now delta))) (sym p)
            (subst (Recorded s') (sym q) r)

  pub opens-Balanced :
      (d : ℕ) (id : String)
      → env.has_coordinator ≡ true
      → Balanced env (start_coordinated s d id).0 b
  unfolding start_coordinated
  opens-Balanced d id c = elim (Option-cases (get s.pending d)) [
    | inl e ↦
        subst (λ s'. Balanced env s' b) (ground arith)
          (waits (record s { phase = asking d }) refl refl c)
    | inr (p, e) ↦
        let x = or_else (get s.batches d) (record { id = id; delta = p }) in
        subst (λ s'. Balanced env s' b) (ground arith) (opened d x c (fit p x id e refl))
  ]
    where
      fit :
          (p : QuotaDelta) (x : Batch) (id : String)
          → get s.pending d ≡ some p
          → x ≡ or_else (get s.batches d) (record { id = id; delta = p })
          → Fits s.pending d x.delta
      fit p x id e q = elim (Option-cases (get s.batches d)) [
        | inl n ↦ (p, e, ground arith, ground arith)
        | inr (y, n) ↦
            let u : y ≡ x = ground arith in
            subst (λ (z : Batch). Fits s.pending d z.delta) u (v.batch_fits d y n).1
      ]

      opened :
          (d : ℕ) (x : Batch)
          → env.has_coordinator ≡ true
          → Fits s.pending d x.delta
          → Balanced env (record s { batches = put s.batches d x; phase = delivering d x }) b
      opened d x c f = record {
        read_balance = v.read_balance;
        written_balance = v.written_balance;
        batch_fits = λ j y h. (
          c,
          elim (ℕ_discrete d j) [
            | yes q ↦
                let u : x ≡ y = ground (arith, batches-put s.batches d j x) in
                subst (λ (z : Batch). Fits s.pending j z.delta) u
                  (subst (λ k. Fits s.pending k x.delta) q f)
            | no n ↦ (v.batch_fits j y (ground (arith, batches-put s.batches d j x))).1
          ],
        );
        phase_fits = (c, ground (arith, batches-put s.batches d d x));
      }

  pub drains-Balanced :
      (s' : Isolate) (d : ℕ) (x : QuotaDelta)
      → Fits s.pending d x
      → s'.pending ≡ drain s.pending d x
      → ((j : ℕ) (y : Batch) → get s'.batches j ≡ some y → (get s.batches j ≡ some y) × (d ≢ j))
      → s'.phase ≡ idle
      → Balanced env s' (record b { settled = (d, x) ∷ b.settled })
  drains-Balanced s' d x f p q i = record {
    read_balance = λ j. ground (arith, v.read_balance j, drain-get s.pending d j x f);
    written_balance = λ j. ground (arith, v.written_balance j, drain-get s.pending d j x f);
    batch_fits = λ j y h.
        let (g, n) = q j y h in
        let (c, (z, e, l, l')) = v.batch_fits j y g in
        (c, (z, ap (λ m. get m j) p ∙ (drain-get s.pending d j x f).2 n ∙ e, l, l'));
    phase_fits = subst (PhaseFits env.has_coordinator s'.pending s'.batches) (sym i) tt;
  }

  pub drops-Balanced :
      (s' : Isolate) (d : ℕ)
      → s'.pending ≡ delete s.pending d
      → s'.batches ≡ delete s.batches d
      → s'.phase ≡ idle
      → Balanced env s'
          (record b { given_up = (d, or_else (get s.pending d) no_rows) ∷ b.given_up })
  drops-Balanced s' d p q i = record {
    read_balance = λ j. ground (arith, v.read_balance j, pending-delete s.pending d j);
    written_balance = λ j. ground (arith, v.written_balance j, pending-delete s.pending d j);
    batch_fits = λ j y h.
        let g : (get s.batches j ≡ some y) × (d ≢ j) =
          ground (arith, batches-delete s.batches d j) in
        let (c, (z, e, l, l')) = v.batch_fits j y g.0 in
        (c, (z, ground (arith, pending-delete s.pending d j), l, l'));
    phase_fits = subst (PhaseFits env.has_coordinator s'.pending s'.batches) (sym i) tt;
  }
