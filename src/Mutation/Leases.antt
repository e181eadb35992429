-- ===== src/Mutation/Leases.antt =====
-- worker/src/unified/mutation_jobs.ts: leases keep the order of the jobs of an email, and the
-- candidates of a claim come first.
use one_mail.Base.{
  ℕ, ◌≤◌, ◌≡◌, ◌⊎◌, inl, inr, refl, sym, ap, ◌∙◌, subst, String, List, [], ◌∷◌, Bool, true, In,
  any-In, updated, In-updated, In-updated_inv, In-select_inv, In-order_by, In-limit_to, In-map_inv,
  ltb, same-eq, same-yes, dec_lt, text_key, arith, Bool-cases,
}
use one_mail.Mutation.{
  JobStatus, is_pending, is_processing, is_busy, is_blocked, job_before, Job, Candidate, order_jobs,
}
use one_mail.Mutation.Writes.{is_candidate, candidates, is_leasable, as_leased, lease_all}
use one_mail.Mutation.Turns.{is_live, leads, image}
use one_mail.Mutation.Sound.{Sound, Ready, Ascending-ids, Ascending-updated}

-- A lease of a candidate.
module _ (legacy : Bool) (token : String) (now : ℕ) (jobs : List Job) (c : Candidate)
    (s : Sound jobs) (r : Ready jobs c) where
  -- The job that a lease takes is the one that was selected.
  leased-first :
      (j k : Job)
      → In j jobs
      → In k jobs
      → is_leasable legacy now jobs c j ≡ true
      → is_live k.status ≡ true
      → k.email_id ≡ j.email_id
      → j.rowid ≤ k.rowid
  leased-first j k x y p m e =
      let same : j.id ≡ c.job = same-eq j.id c.job (ground arith) in
      let q = Ascending-ids jobs j r.job s.ascending x r.inside (same ∙ sym r.names) in
      let a : j.email_id ≡ c.email = ap (λ z. z.email_id) q ∙ r.of_email in
      let b = r.first k y m (e ∙ a) in let d = ap (λ z. z.rowid) q in omega arith

  abbrev p : Job → Bool
  p = is_leasable legacy now jobs c

  -- What the lease makes of a job: it is handed out, or it stays.
  image-leased :
      (j : Job)
      → ((image p (as_leased token now) j).rowid ≡ j.rowid)
        × ((image p (as_leased token now) j).id ≡ j.id)
        × ((image p (as_leased token now) j).email_id ≡ j.email_id)
        × (is_live (image p (as_leased token now) j).status ≡ is_live j.status)
        × (((p j ≡ true) × (ltb 0 (image p (as_leased token now) j).attempts ≡ true))
            ⊎ (image p (as_leased token now) j ≡ j))
  image-leased j = elim (Bool-cases (p j)) [
    | inl e ↦
        let l : is_live j.status ≡ true = ground arith in
        rw e (refl, refl, refl, sym l, inl (refl, ground arith))
    | inr e ↦ rw e (refl, refl, refl, refl, inr refl)
  ]

  abbrev pub Leased : Job → Job → Type 0
  Leased j k =
      (k.rowid ≡ j.rowid)
      × (k.id ≡ j.id)
      × (k.email_id ≡ j.email_id)
      × (is_live k.status ≡ is_live j.status)
      × (((p j ≡ true) × (ltb 0 k.attempts ≡ true)) ⊎ (k ≡ j))

  pub origin :
      (k : Job) → In k (updated p (as_leased token now) jobs) → (j : Job) × In j jobs × Leased j k
  origin k i =
      let (j, x, e) = In-updated_inv p (as_leased token now) jobs k i in
      (j, x, subst (Leased j) e (image-leased j))

  pub leased-Sound : Sound (updated p (as_leased token now) jobs)
  leased-Sound = record {
    ascending =
        Ascending-updated p (as_leased token now) jobs (λ j. let v = image-leased j in (v.0, v.1))
          s.ascending;
    started = λ k i h.
        let (j, x, v) = origin k i in
        elim v.4 [
          | inl q ↦ q.1
          | inr q ↦
              subst (λ z. ltb 0 z.attempts ≡ true) (sym q)
                (s.started j x (subst (λ z. is_processing z.status ≡ true) q h))
        ];
    first = λ j' k' x' y' l m e.
        let (j, x, v) = origin j' x' in
        let (k, y, w) = origin k' y' in
        let t : k.email_id ≡ j.email_id = sym w.2 ∙ e ∙ v.2 in
        let h : is_live k.status ≡ true = sym w.3 ∙ m in
        let z : j.rowid ≤ k.rowid = elim v.4 [
          | inl q ↦ leased-first j k x y q.0 h t
          | inr q ↦ s.first j k x y (subst (λ n. leads n ≡ true) q l) h t
        ] in
        omega (arith, z, v.0, w.0);
  }

  pub leased-Ready : (d : Candidate) → Ready jobs d → Ready (updated p (as_leased token now) jobs) d
  leased-Ready d a =
      let v = image-leased a.job in
      record {
        job = image p (as_leased token now) a.job;
        inside = In-updated p (as_leased token now) jobs a.job a.inside;
        names = v.1 ∙ a.names;
        of_email = v.2 ∙ a.of_email;
        first = λ k' y' m e.
            let (k, y, w) = origin k' y' in
            let z = a.first k y (sym w.3 ∙ m) (sym w.2 ∙ e) in omega (arith, z, v.0, w.0);
      }

pub lease_all-Sound :
    (legacy : Bool) (token : String) (now : ℕ) (cs : List Candidate) (jobs : List Job)
    → Sound jobs
    → ((c : Candidate) → In c cs → Ready jobs c)
    → Sound (lease_all legacy token now cs jobs)
unfolding lease_all
lease_all-Sound legacy token now [] jobs s r = s
lease_all-Sound legacy token now (c ∷ cs) jobs s r =
    let a = r c (inl refl) in
    lease_all-Sound legacy token now cs _ (leased-Sound legacy token now jobs c s a)
      (λ d i. leased-Ready legacy token now jobs c s a d (r d (inr i)))

pub lease_all-Ready :
    (legacy : Bool) (token : String) (now : ℕ) (cs : List Candidate) (jobs : List Job)
    → Sound jobs
    → ((c : Candidate) → In c cs → Ready jobs c)
    → (d : Candidate) → Ready jobs d
    → Ready (lease_all legacy token now cs jobs) d
unfolding lease_all
lease_all-Ready legacy token now [] jobs s r d x = x
lease_all-Ready legacy token now (c ∷ cs) jobs s r d x =
    let a = r c (inl refl) in
    lease_all-Ready legacy token now cs _ (leased-Sound legacy token now jobs c s a)
      (λ e i. leased-Ready legacy token now jobs c s a e (r e (inr i))) d
      (leased-Ready legacy token now jobs c s a d x)

live-cases : (s : JobStatus) → is_live s ≡ true → (is_pending s ≡ true) ⊎ (is_processing s ≡ true)
live-cases s h = ground arith

-- Where a job is neither busy nor blocked it comes first.
pub candidate-first :
    (legacy : Bool) (now : ℕ) (jobs : List Job) (j k : Job)
    → is_candidate legacy now jobs j ≡ true
    → In k jobs
    → is_live k.status ≡ true
    → k.email_id ≡ j.email_id
    → j.rowid ≤ k.rowid
candidate-first legacy now jobs j k h i l e = elim (dec_lt k.rowid j.rowid) [
  | no n ↦ omega arith
  | yes y ↦
      let q = same-yes k.email_id j.email_id e in
      elim (live-cases k.status l) [
        | inl a ↦
            let b : is_blocked jobs j ≡ true = any-In _ jobs k i (ground (arith, q, a, y)) in
            ground (arith, b)
        | inr a ↦
            let b : is_busy jobs j.email_id ≡ true = any-In _ jobs k i (ground (arith, q, a)) in
            ground (arith, b)
      ]
]

pub candidates-Ready :
    (legacy : Bool) (now limit : ℕ) (jobs : List Job) (c : Candidate)
    → In c (candidates legacy now limit jobs)
    → Ready jobs c
unfolding candidates order_jobs
candidates-Ready legacy now limit jobs c i =
    let (j, x, e) = In-map_inv (λ (j : Job). record { job = j.id; email = j.email_id }) _ c i in
    let (y, h) =
      In-select_inv (is_candidate legacy now jobs) jobs j
        (In-order_by job_before _ j (In-limit_to limit _ j x)) in
    subst (Ready jobs) e (record {
      job = j;
      inside = y;
      names = refl;
      of_email = refl;
      first = λ k z l m. candidate-first legacy now jobs j k h z l m;
    })
