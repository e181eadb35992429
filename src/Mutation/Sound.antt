-- ===== src/Mutation/Sound.antt =====
-- worker/src/unified/mutation_jobs.ts: the order of the jobs of an email, kept by updates, insertions
-- and leases.
use one_mail.Base.{
  ◌≤◌, ◌<◌, ◌≡◌, ◌≢◌, inl, inr, sym, ap, ◌∙◌, subst, List, [], ◌∷◌, Bool, true, In, updated,
  In-updated, In-updated_inv, ltb, text_key, arith, Bool-cases,
}
use one_mail.Mutation.{is_processing, Job, Candidate}
use one_mail.Mutation.Turns.{is_live, leads, Quiet, image, quiet-self, Calm, same, calms, after}

-- The rowids grow along the table, and no id stands twice.
abbrev pub Ascending : List Job → Type 0
Ascending [] = Unit
Ascending (j ∷ jobs) =
    ((k : Job) → In k jobs → (j.rowid < k.rowid) × (j.id ≢ k.id)) × Ascending jobs

-- A job that was handed out and is not over comes first among the live jobs of its email.
pub record Sound (jobs : List Job) : Type 0 where
  pub ascending : Ascending jobs
  pub started : (j : Job) → In j jobs → is_processing j.status ≡ true → ltb 0 j.attempts ≡ true
  pub first :
      (j k : Job)
      → In j jobs
      → In k jobs
      → leads j ≡ true
      → is_live k.status ≡ true
      → k.email_id ≡ j.email_id
      → j.rowid ≤ k.rowid

-- A candidate names a job that comes first among the live jobs of its email.
pub record Ready (jobs : List Job) (c : Candidate) : Type 0 where
  pub job : Job
  pub inside : In job jobs
  pub names : job.id ≡ c.job
  pub of_email : job.email_id ≡ c.email
  pub first :
      (k : Job) → In k jobs → is_live k.status ≡ true → k.email_id ≡ c.email → job.rowid ≤ k.rowid

pub Ascending-ids :
    (jobs : List Job) (j k : Job) → Ascending jobs → In j jobs → In k jobs → j.id ≡ k.id → j ≡ k
Ascending-ids [] j k a x y e = elim x [ ]
Ascending-ids (i ∷ jobs) j k a (inl p) (inl q) e = sym p ∙ q
Ascending-ids (i ∷ jobs) j k a (inl p) (inr y) e = absurd ((a.0 k y).1 (ap (λ x. x.id) p ∙ e))
Ascending-ids (i ∷ jobs) j k a (inr x) (inl q) e = absurd ((a.0 j x).1 (ap (λ y. y.id) q ∙ sym e))
Ascending-ids (i ∷ jobs) j k a (inr x) (inr y) e = Ascending-ids jobs j k a.1 x y e

pub Ascending-rowids :
    (jobs : List Job) (j k : Job)
    → Ascending jobs
    → In j jobs
    → In k jobs
    → j.rowid ≡ k.rowid
    → j ≡ k
Ascending-rowids [] j k a x y e = elim x [ ]
Ascending-rowids (i ∷ jobs) j k a (inl p) (inl q) e = sym p ∙ q
Ascending-rowids (i ∷ jobs) j k a (inl p) (inr y) e =
    let l = (a.0 k y).0 in let r = ap (λ x. x.rowid) p in absurd (omega arith)
Ascending-rowids (i ∷ jobs) j k a (inr x) (inl q) e =
    let l = (a.0 j x).0 in let r = ap (λ y. y.rowid) q in absurd (omega arith)
Ascending-rowids (i ∷ jobs) j k a (inr x) (inr y) e = Ascending-rowids jobs j k a.1 x y e

-- What an update keeps of every job.
abbrev pub Keeps : Job → Job → Type 0
Keeps j k = (k.rowid ≡ j.rowid) × (k.id ≡ j.id)

pub Ascending-updated :
    (p : Job → Bool) (f : Job → Job) (jobs : List Job)
    → ((j : Job) → Keeps j (image p f j))
    → Ascending jobs
    → Ascending (updated p f jobs)
Ascending-updated p f [] h a = tt
Ascending-updated p f (j ∷ jobs) h a = (
  (λ k' i.
      let (k, x, e) = In-updated_inv p f jobs k' i in
      let (l, n) = a.0 k x in
      subst (λ y. ((image p f j).rowid < y.rowid) × ((image p f j).id ≢ y.id)) e
        (let (u, v) = h j in let (s, t) = h k in (omega arith, (λ q. n (sym v ∙ q ∙ t))))),
  Ascending-updated p f jobs h a.1,
)

pub image-Quiet :
    (p : Job → Bool) (f : Job → Job) (j : Job)
    → (p j ≡ true → Quiet j (f j))
    → Quiet j (image p f j)
image-Quiet p f j q = elim (Bool-cases (p j)) [ inl e ↦ rw e (q e) | inr e ↦ rw e (quiet-self j) ]

Quiet-leads : (j k : Job) → Quiet j k → leads k ≡ true → leads j ≡ true
Quiet-leads j k q h = let l = q.was_live (ground arith) in ground (arith, l, q.same_attempts)

module _ (p : Job → Bool) (f : Job → Job) (jobs : List Job)
    (q : (j : Job) → p j ≡ true → Quiet j (f j)) where
  -- Where a job of the new table comes from.
  pub origin : (k : Job) → In k (updated p f jobs) → (j : Job) × In j jobs × Quiet j k
  origin k i =
      let (j, x, e) = In-updated_inv p f jobs k i in
      (j, x, subst (Quiet j) e (image-Quiet p f j (q j)))

  calms-Sound : Sound jobs → Sound (updated p f jobs)
  calms-Sound s = record {
    ascending =
        Ascending-updated p f jobs
          (λ j. let v = image-Quiet p f j (q j) in (v.same_rowid, v.same_id)) s.ascending;
    started = λ k i h.
        let (j, x, v) = origin k i in
        let t = s.started j x (v.was_processing h) in ground (arith, t, v.same_attempts);
    first = λ j' k' x' y' l m e.
        let (j, x, v) = origin j' x' in
        let (k, y, w) = origin k' y' in
        let a : k.email_id ≡ j.email_id = sym w.same_email ∙ e ∙ v.same_email in
        let b = s.first j k x y (Quiet-leads j j' v l) (w.was_live m) a in
        omega (arith, b, v.same_rowid, w.same_rowid);
  }

  calms-Ready : (c : Candidate) → Ready jobs c → Ready (updated p f jobs) c
  calms-Ready c r =
      let v = image-Quiet p f r.job (q r.job) in
      record {
        job = image p f r.job;
        inside = In-updated p f jobs r.job r.inside;
        names = v.same_id ∙ r.names;
        of_email = v.same_email ∙ r.of_email;
        first = λ k' y' m e.
            let (k, y, w) = origin k' y' in
            let b = r.first k y (w.was_live m) (sym w.same_email ∙ e) in
            omega (arith, b, v.same_rowid, w.same_rowid);
      }

pub Calm-Sound : (a b : List Job) → Calm a b → Sound a → Sound b
Calm-Sound a b (same _) s = s
Calm-Sound a b (calms p f _ q) s = calms-Sound p f a q s
Calm-Sound a c (after _ b _ x y) s = Calm-Sound b c y (Calm-Sound a b x s)

pub Calm-Ready : (a b : List Job) (c : Candidate) → Calm a b → Ready a c → Ready b c
Calm-Ready a b c (same _) r = r
Calm-Ready a b c (calms p f _ q) r = calms-Ready p f a q c r
Calm-Ready a d c (after _ b _ x y) r = Calm-Ready b d c y (Calm-Ready a b c x r)
