-- ===== src/Quota/Telemetry/Books.antt =====
-- worker/src/core/d1_quota.ts: no recorded row is lost or counted twice inside an isolate.
use one_mail.Base.{
  ℕ, ◌+◌, ◌≤◌, ◌≡◌, ◌≢◌, ◌∙◌, ap, sym, subst, none, some, List, [], ◌∷◌, ◌++◌, Bool, true, false,
  ◌&&◌, Dict, get, put, delete, get-put, get-delete, held, ◌==◌, if◌then◌else◌, ite, nat_key,
  ℕ_discrete, arith,
}
use one_mail.Fleet.Contracts.{or_else}
use one_mail.Quota.Coordinator.{utc_date_of}
use one_mail.Quota.Telemetry.{
  QuotaDelta, no_rows, Batch, Phase, idle, asking, delivering, reading_today, reading_first,
  reading_bucket, writing, Isolate, Bindings, add_quota_delta,
}
use one_mail.Quota.Telemetry.Flush.{
  expired, answers, answered, drained, drain, Signal, records, replied, put_done, react,
}

-- Rows of a date.
abbrev pub Entry : Type 0
Entry = ℕ × QuotaDelta

abbrev pub sum_of : (QuotaDelta → ℕ) → ℕ → List Entry → ℕ
sum_of f d [] = 0
sum_of f d ((e, x) ∷ es) = ite (ℕ_discrete e d) (f x) 0 + sum_of f d es

-- What was recorded, what the coordinator or the namespace has taken, and what was given up.
pub record Books : Type 0 where
  pub recorded : List Entry
  pub settled : List Entry
  pub given_up : List Entry

-- The rows that a call records: an overflow and a call without rows leave none.
abbrev pub recorded_by : Isolate → Signal → List Entry
recorded_by s (records now delta) =
    let date = utc_date_of now in
    if delta.rows_read == 0 && delta.rows_written == 0
    then []
    else elim (add_quota_delta (or_else (get s.pending date) no_rows) delta) [
      | none ↦ []
      | some sum ↦ (date, delta) ∷ []
    ]
recorded_by s _ = []

abbrev pub settled_by : Bindings → Phase → Isolate → Signal → List Entry
settled_by env f s (replied now (answers available raw)) = elim f [
  | delivering date batch ↦ elim (answered s raw env.shard_id date).1 [
    | none ↦ []
    | some p ↦ (date, batch.delta) ∷ []
  ]
  | _ ↦ []
]
settled_by env f s (put_done now true) = elim f [
  | writing date delta next today ↦ (date, delta) ∷ []
  | _ ↦ []
]
settled_by env f s _ = []

abbrev pub given_up_by : Phase → Isolate → Signal → List Entry
given_up_by f s (replied now expired) = elim f [
  | delivering date batch ↦ (date, or_else (get s.pending date) no_rows) ∷ []
  | _ ↦ []
]
given_up_by f s _ = []

abbrev pub book : Bindings → Isolate → Signal → Books → Books
book env s e b = record {
  recorded = recorded_by s e ++ b.recorded;
  settled = settled_by env s.phase s e ++ b.settled;
  given_up = given_up_by s.phase s e ++ b.given_up;
}

abbrev pub book_all : Bindings → Isolate → List Signal → Books → Books
book_all env s [] b = b
book_all env s (e ∷ es) b = book_all env (react env s e).0 es (book env s e b)

-- A bucket holds at least these rows.
abbrev pub Fits : Dict ℕ QuotaDelta → ℕ → QuotaDelta → Type 0
Fits pending d x =
    (p : QuotaDelta) × (get pending d ≡ some p)
    × (x.rows_read ≤ p.rows_read)
    × (x.rows_written ≤ p.rows_written)

abbrev pub PhaseFits : Bool → Dict ℕ QuotaDelta → Dict ℕ Batch → Phase → Type 0
PhaseFits coordinated pending batches idle = Unit
PhaseFits coordinated pending batches (asking d) = coordinated ≡ true
PhaseFits coordinated pending batches (delivering d b) =
    (coordinated ≡ true) × (get batches d ≡ some b)
PhaseFits coordinated pending batches (reading_today d) = coordinated ≡ false
PhaseFits coordinated pending batches (reading_first d t x) =
    (coordinated ≡ false) × Fits pending d x
PhaseFits coordinated pending batches (reading_bucket d x t) =
    (coordinated ≡ false) × Fits pending d x
PhaseFits coordinated pending batches (writing d x n t) = (coordinated ≡ false) × Fits pending d x

-- The books of an isolate: for each date, what was recorded is in its bucket, settled or given up;
-- each batch and each flush that waits takes no more than its bucket holds.
pub record Balanced (env : Bindings) (s : Isolate) (b : Books) : Type 0 where
  pub read_balance :
      (d : ℕ)
      → sum_of (λ x. x.rows_read) d b.recorded
        ≡ held (λ x. x.rows_read) (get s.pending d)
          + sum_of (λ x. x.rows_read) d b.settled
          + sum_of (λ x. x.rows_read) d b.given_up
  pub written_balance :
      (d : ℕ)
      → sum_of (λ x. x.rows_written) d b.recorded
        ≡ held (λ x. x.rows_written) (get s.pending d)
          + sum_of (λ x. x.rows_written) d b.settled
          + sum_of (λ x. x.rows_written) d b.given_up
  pub batch_fits :
      (d : ℕ) (x : Batch)
      → get s.batches d ≡ some x
      → (env.has_coordinator ≡ true) × Fits s.pending d x.delta
  pub phase_fits : PhaseFits env.has_coordinator s.pending s.batches s.phase

pub same_rows :
    (env : Bindings) (s s' : Isolate) (b : Books)
    → s'.pending ≡ s.pending
    → s'.batches ≡ s.batches
    → PhaseFits env.has_coordinator s'.pending s'.batches s'.phase
    → Balanced env s b
    → Balanced env s' b
same_rows env s s' b p q f v = record {
  read_balance = λ d. ground (arith, v.read_balance d);
  written_balance = λ d. ground (arith, v.written_balance d);
  batch_fits = λ d x h.
      subst (λ y. (env.has_coordinator ≡ true) × Fits y d x.delta) (sym p)
        (v.batch_fits d x (ap (λ y. get y d) (sym q) ∙ h));
  phase_fits = f;
}

pub pending-put :
    (p : Dict ℕ QuotaDelta) (k j : ℕ) (x : QuotaDelta)
    → get (put p k x) j ≡ ite (ℕ_discrete k j) (some x) (get p j)
pending-put p k j x = get-put p k j x

pub pending-delete :
    (p : Dict ℕ QuotaDelta) (k j : ℕ) → get (delete p k) j ≡ ite (ℕ_discrete k j) none (get p j)
pending-delete p k j = get-delete p k j

pub batches-put :
    (p : Dict ℕ Batch) (k j : ℕ) (x : Batch)
    → get (put p k x) j ≡ ite (ℕ_discrete k j) (some x) (get p j)
batches-put p k j x = get-put p k j x

pub batches-delete :
    (p : Dict ℕ Batch) (k j : ℕ) → get (delete p k) j ≡ ite (ℕ_discrete k j) none (get p j)
batches-delete p k j = get-delete p k j

-- A bucket that grows still holds what it held.
pub Fits-put :
    (p : Dict ℕ QuotaDelta) (k d : ℕ) (y x : QuotaDelta)
    → ((z : QuotaDelta)
        → get p k ≡ some z
        → (z.rows_read ≤ y.rows_read) × (z.rows_written ≤ y.rows_written))
    → Fits p d x
    → Fits (put p k y) d x
Fits-put p k d y x g (z, e, a, b) = elim (ℕ_discrete k d) [
  | yes q ↦ (y, ground (arith, pending-put p k d y), ground (arith, g z), ground (arith, g z))
  | no n ↦ (z, ground (arith, pending-put p k d y), a, b)
]

pub PhaseFits-mono :
    (c : Bool) (p p' : Dict ℕ QuotaDelta) (bs : Dict ℕ Batch) (f : Phase)
    → ((d : ℕ) (x : QuotaDelta) → Fits p d x → Fits p' d x)
    → PhaseFits c p bs f
    → PhaseFits c p' bs f
PhaseFits-mono c p p' bs idle g h = tt
PhaseFits-mono c p p' bs (asking d) g h = h
PhaseFits-mono c p p' bs (delivering d b) g h = h
PhaseFits-mono c p p' bs (reading_today d) g h = h
PhaseFits-mono c p p' bs (reading_first d t x) g (a, b) = (a, g d x b)
PhaseFits-mono c p p' bs (reading_bucket d x t) g (a, b) = (a, g d x b)
PhaseFits-mono c p p' bs (writing d x n t) g (a, b) = (a, g d x b)

-- A bucket that is drained of what it holds.
pub drain-get :
    (p : Dict ℕ QuotaDelta) (d j : ℕ) (x : QuotaDelta)
    → Fits p d x
    → (held (λ y. y.rows_read) (get (drain p d x) j) + ite (ℕ_discrete d j) x.rows_read 0
        ≡ held (λ y. y.rows_read) (get p j))
      × (held (λ y. y.rows_written) (get (drain p d x) j) + ite (ℕ_discrete d j) x.rows_written 0
          ≡ held (λ y. y.rows_written) (get p j))
      × (d ≢ j → get (drain p d x) j ≡ get p j)
unfolding drain
drain-get p d j x (z, e, a, b) = (
  ground (arith, pending-put p d j (drained z x), pending-delete p d j),
  ground (arith, pending-put p d j (drained z x), pending-delete p d j),
  λ n. ground (arith, pending-put p d j (drained z x), pending-delete p d j),
)
