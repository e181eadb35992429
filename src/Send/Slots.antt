-- ===== src/Send/Slots.antt =====
-- worker/src/mails_api/send_mail_limit_utils.ts: the counters against the reservations.
use one_mail.Base.{
  select, updated, ℕ, ◌+◌, ◌-◌, ◌≡◌, ◌⊎◌, inl, inr, refl, ap, Option, none, some, List, [], ◌∷◌,
  ◌++◌, map, Bool, true, false, not, ◌&&◌, Dict, get, put, get-put, ltb, ite, In, if◌then◌else◌,
  nat_key, ℕ_discrete, arith, Bool-cases,
}
use one_mail.Send.{
  is_released, Reservation, count_of, raise_count, lower_count, lower_counts, fires, fired,
}
use one_mail.Send.Effects.{Turns, rests, starts, succeeds, confirms, rejects, commits, releases}
use one_mail.Send.Unique.{image}

-- What an optional key counts for a key.
abbrev pub slot : Option ℕ → ℕ → ℕ
slot none k = 0
slot (some j) k = ite (ℕ_discrete j k) 1 0

-- The slots of a key that a row holds: a row that is not released holds its own.
abbrev pub holds : (Reservation → Option ℕ) → ℕ → Reservation → ℕ
holds g k r = if is_released r.status then 0 else slot (g r) k

abbrev pub slots : (Reservation → Option ℕ) → ℕ → List Reservation → ℕ
slots g k [] = 0
slots g k (r ∷ rows) = holds g k r + slots g k rows

pub raise_count-count :
    (d : Dict ℕ ℕ) (o : Option ℕ) (k : ℕ) → count_of (raise_count d o) k ≡ slot o k + count_of d k
unfolding raise_count
raise_count-count d none k = omega arith
raise_count-count d (some j) k = ground (arith, get-put d j k (count_of d j + 1))

lower_count-count :
    (d : Dict ℕ ℕ) (o : Option ℕ) (k n : ℕ)
    → count_of d k ≡ slot o k + n
    → count_of (lower_count d o) k ≡ n
unfolding lower_count
lower_count-count d none k n h = omega (arith, h)
lower_count-count d (some j) k n h =
    elim (get d j)
        as (λ x.
          get d j ≡ x
          → count_of (elim x [ none ↦ d | some m ↦ if ltb 0 m then put d j (m - 1) else d ]) k
            ≡ n) [ none ↦ λ e. ground arith | some m ↦ λ e. ground (arith, get-put d j k (m - 1)) ]
      refl

-- What a row holds before and after: it fires the trigger and gives its slots up, or keeps them.
abbrev pub Turned : (Reservation → Option ℕ) → ℕ → Bool → Reservation → Reservation → Type 0
Turned g k fired_it r s =
    ((fired_it ≡ true) × (holds g k r ≡ slot (g r) k) × (holds g k s ≡ 0))
    ⊎ ((fired_it ≡ false) × (holds g k s ≡ holds g k r))

holds-same :
    (g : Reservation → Option ℕ) (k : ℕ) (r s : Reservation)
    → is_released s.status ≡ is_released r.status
    → g s ≡ g r
    → holds g k s ≡ holds g k r
holds-same g k r s a e = rw (a, e) refl

pub Turns-Turned :
    (g : Reservation → Option ℕ) (k : ℕ) (r s : Reservation)
    → Turns r s
    → g s ≡ g r
    → Turned g k (fires r s) r s
Turns-Turned g k r s (rests a b) e = inr (ground arith, holds-same g k r s (ap is_released a) e)
Turns-Turned g k r s (starts a b c d) e = inr (ground arith, holds-same g k r s (ground arith) e)
Turns-Turned g k r s (succeeds a b c d) e = inr (ground arith, holds-same g k r s (ground arith) e)
Turns-Turned g k r s (confirms a b c d) e = inr (ground arith, holds-same g k r s (ground arith) e)
Turns-Turned g k r s (rejects a b c d) e = inr (ground arith, holds-same g k r s (ground arith) e)
Turns-Turned g k r s (commits a b c d) e = inr (ground arith, holds-same g k r s (ground arith) e)
Turns-Turned g k r s (releases a b c d) e = inl (rw (a, b, c) refl, rw a refl, rw c refl)

image-Turned :
    (g : Reservation → Option ℕ) (k : ℕ) (p : Reservation → Bool) (f : Reservation → Reservation)
    (r : Reservation)
    → (p r ≡ true → Turned g k (fires r (f r)) r (f r))
    → Turned g k (p r && fires r (f r)) r (image p f r)
image-Turned g k p f r t = elim (Bool-cases (p r)) [
  | inl e ↦ rw e (t e)
  | inr e ↦ rw e (inr (refl, refl))
]

-- The triggers of an update take from a counter just the slots that its rows give up.
pub lower_counts-count :
    (g : Reservation → Option ℕ) (k : ℕ) (p : Reservation → Bool) (f : Reservation → Reservation)
    (rows : List Reservation) (d : Dict ℕ ℕ) (n : ℕ)
    → ((r : Reservation) → In r rows → p r ≡ true → Turned g k (fires r (f r)) r (f r))
    → count_of d k ≡ slots g k rows + n
    → count_of (lower_counts d (map g (fired p f rows))) k ≡ slots g k (updated p f rows) + n
unfolding lower_counts
lower_counts-count g k p f [] d n t h = h
lower_counts-count g k p f (r ∷ rows) d n t h =
    let rest = λ (e : Dict ℕ ℕ) (m : ℕ) (q : count_of e k ≡ slots g k rows + m).
      lower_counts-count g k p f rows e m (λ s i. t s (inr i)) q in
    elim (image-Turned g k p f r (t r (inl refl))) [
      | inl (e, a, b) ↦
          let q = lower_count-count d (g r) k (slots g k rows + n) (omega (arith, h, a)) in
          rw e (omega (arith, rest (lower_count d (g r)) n q, b))
      | inr (e, a) ↦ rw e (omega (arith, rest d (holds g k r + n) (omega (arith, h)), a))
    ]

pub slots-select :
    (g : Reservation → Option ℕ) (k : ℕ) (p : Reservation → Bool) (rows : List Reservation)
    → slots g k (select (λ r. not (p r)) rows) + slots g k (select p rows) ≡ slots g k rows
slots-select g k p [] = omega arith
slots-select g k p (r ∷ rows) = elim (Bool-cases (p r)) [
  | inl e ↦ rw e (omega (arith, slots-select g k p rows))
  | inr e ↦ rw e (omega (arith, slots-select g k p rows))
]

pub slots-released :
    (g : Reservation → Option ℕ) (k : ℕ) (p : Reservation → Bool) (rows : List Reservation)
    → ((r : Reservation) → In r rows → p r ≡ true → is_released r.status ≡ true)
    → slots g k (select p rows) ≡ 0
slots-released g k p [] h = refl
slots-released g k p (r ∷ rows) h =
    let rest = slots-released g k p rows (λ s i. h s (inr i)) in
    elim (Bool-cases (p r)) [
      | inl e ↦ let q = h r (inl refl) e in rw (e, q) (omega (arith, rest))
      | inr e ↦ rw e rest
    ]

pub slots-append :
    (g : Reservation → Option ℕ) (k : ℕ) (rows : List Reservation) (r : Reservation)
    → slots g k (rows ++ (r ∷ [])) ≡ holds g k r + slots g k rows
slots-append g k [] r = omega arith
slots-append g k (s ∷ rows) r = omega (arith, slots-append g k rows r)
