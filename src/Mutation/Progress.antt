-- ===== src/Mutation/Progress.antt =====
-- worker/src/unified/mutation_jobs.ts: a job that is due is handed out.
use one_mail.Base.{
  ℕ, ◌+◌, ◌≤◌, ◌≡◌, ◌≢◌, inl, inr, refl, sym, ap, ◌∙◌, subst, String, some, List, [], ◌∷◌, Bool,
  true, false, not, ◌&&◌, get, put, get-put_self, In, In-map, In-map_inv, In-ordered, In-order_by,
  In-select, In-select_inv, In-limit_to, limit_to-all, length-order_by, select, updated, order_by,
  In-updated, any-witness, any-In, length, leb, ◌===◌, same-eq, same-ne, text_key, arith,
  Bool-cases,
}
use one_mail.Mutation.{
  processing, is_pending, is_processing, is_busy, job_before, Job, Candidate, State, order_jobs,
}
use one_mail.Mutation.Writes.{
  is_candidate, candidates, is_leasable, hands_out, as_leased, lease_all, lease_ms,
}
use one_mail.Mutation.Turns.{image, is_live}
use one_mail.Mutation.Sound.{Sound, Ready, Ascending-ids, Ascending-rowids}
use one_mail.Mutation.Leases.{origin, candidate-first, candidates-Ready, leased-Sound, leased-Ready}
use one_mail.Mutation.History.{select_write, lease_write, write}

-- A job under a lease of a token.
abbrev pub HeldBy : String → ℕ → Job → Type 0
HeldBy token now k =
    (k.status ≡ processing) × (k.lease_token ≡ some token) × (k.lease_until ≡ some (now + lease_ms))

abbrev candidate_of : Job → Candidate
candidate_of j = record { job = j.id; email = j.email_id }

image-kept : (p : Job → Bool) (f : Job → Job) (j : Job) → p j ≡ false → image p f j ≡ j
image-kept p f j h = rw h refl

module _ (legacy : Bool) (token : String) (now : ℕ) where
  -- A job that is being processed is not leased again.
  lease_all-keeps :
      (cs : List Candidate) (jobs : List Job) (k : Job)
      → In k jobs
      → k.status ≡ processing
      → In k (lease_all legacy token now cs jobs)
  unfolding lease_all
  lease_all-keeps [] jobs k i h = i
  lease_all-keeps (c ∷ cs) jobs k i h =
      let p = is_leasable legacy now jobs c in
      let n : p k ≡ false = rw h refl in
      let m = In-updated p (as_leased token now) jobs k i in
      lease_all-keeps cs (updated p (as_leased token now) jobs) k
        (subst (λ x. In x (updated p (as_leased token now) jobs))
          (image-kept p (as_leased token now) k n) m)
        h

-- A lease of the first job of another email leaves an email without a job that is being processed.
module _ (legacy : Bool) (token : String) (now : ℕ) (jobs : List Job) (c : Candidate)
    (s : Sound jobs) (r : Ready jobs c) where
  lease-idle :
      (email : String)
      → email ≢ c.email
      → is_busy jobs email ≡ false
      → is_busy (updated (is_leasable legacy now jobs c) (as_leased token now) jobs) email ≡ false
  lease-idle email n h =
      let new = updated (is_leasable legacy now jobs c) (as_leased token now) jobs in
      elim (Bool-cases (is_busy new email)) [
        | inr e ↦ e
        | inl e ↦
            let (k', x, q) = any-witness _ new e in
            let (k, y, v) = origin legacy token now jobs c s r k' x in
            let m : k'.email_id ≡ email = same-eq k'.email_id email (ground arith) in
            elim v.4 [
              | inl a ↦
                  let i : k.id ≡ c.job = same-eq k.id c.job (ground (arith, a.0)) in
                  let z = Ascending-ids jobs k r.job s.ascending y r.inside (i ∙ sym r.names) in
                  absurd (n (sym m ∙ v.2 ∙ ap (λ t. t.email_id) z ∙ r.of_email))
              | inr a ↦
                  let b : is_busy jobs email ≡ true =
                    any-In _ jobs k y
                      (subst (λ t. (t.email_id === email && is_processing t.status) ≡ true) a q) in
                  cc
            ]
      ]

-- A lease can take the job, whatever came earlier.
abbrev is_due : Bool → ℕ → List Job → Job → Bool
is_due legacy now jobs j =
    is_pending j.status
    && (hands_out legacy j.operation && leb j.next_attempt_at now && not (is_busy jobs j.email_id))

module _ (legacy : Bool) (token : String) (now : ℕ) where
  -- The leased row of a job.
  abbrev LeasedIn : List Job → Job → Type 0
  LeasedIn jobs j = (k : Job) × In k jobs × (k.id ≡ j.id) × HeldBy token now k

  lease-takes :
      (c : Candidate) (jobs : List Job) (j : Job)
      → In j jobs
      → is_leasable legacy now jobs c j ≡ true
      → In
          (as_leased token now j)
          (updated (is_leasable legacy now jobs c) (as_leased token now) jobs)
  lease-takes c jobs j i h =
      let p = is_leasable legacy now jobs c in
      let e : image p (as_leased token now) j ≡ as_leased token now j = rw h refl in
      subst (λ x. In x (updated p (as_leased token now) jobs)) e
        (In-updated p (as_leased token now) jobs j i)

  -- A batch leases a due job that one of its candidates names.
  lease_all-takes :
      (cs : List Candidate) (jobs : List Job) (j : Job)
      → Sound jobs
      → ((c : Candidate) → In c cs → Ready jobs c)
      → In j jobs
      → is_due legacy now jobs j ≡ true
      → In (candidate_of j) cs
      → ((c : Candidate) → In c cs → c.email ≡ j.email_id → c.job ≡ j.id)
      → LeasedIn (lease_all legacy token now cs jobs) j
  unfolding lease_all
  lease_all-takes [] jobs j s r i h m u = elim m [ ]
  lease_all-takes (c ∷ cs) jobs j s r i h m u =
      let p = is_leasable legacy now jobs c in
      let a = r c (inl refl) in
      elim (Bool-cases (j.id === c.job)) [
        | inl e ↦
            let n = same-eq j.id c.job e in
            let z = Ascending-ids jobs a.job j s.ascending a.inside i (a.names ∙ sym n) in
            let w : c.email ≡ j.email_id = sym a.of_email ∙ ap (λ t. t.email_id) z in
            let b : is_busy jobs c.email ≡ false =
              subst (λ t. is_busy jobs t ≡ false) (sym w) (ground arith) in
            let q : p j ≡ true = ground (arith, b) in
            (
              as_leased token now j,
              lease_all-keeps legacy token now cs _ _ (lease-takes c jobs j i q) refl,
              refl,
              (refl, refl, refl),
            )
        | inr e ↦
            let n = same-ne j.id c.job e in
            let d = λ (t : j.email_id ≡ c.email). n (sym (u c (inl refl) (sym t))) in
            let q : p j ≡ false = ground (arith, e) in
            let b : is_busy (updated p (as_leased token now) jobs) j.email_id ≡ false =
              lease-idle legacy token now jobs c s a j.email_id d (ground arith) in
            lease_all-takes cs _ j (leased-Sound legacy token now jobs c s a)
              (λ x y. leased-Ready legacy token now jobs c s a x (r x (inr y)))
              (subst (λ x. In x (updated p (as_leased token now) jobs))
                (image-kept p (as_leased token now) j q)
                (In-updated p (as_leased token now) jobs j i))
              (ground (arith, b))
              (elim m [ inl y ↦ absurd (n (sym (ap (λ t. t.job) y))) | inr y ↦ y ])
              (λ x y. u x (inr y))
      ]

candidates-all :
    (legacy : Bool) (now limit : ℕ) (jobs : List Job) (j : Job)
    → In j jobs
    → is_candidate legacy now jobs j ≡ true
    → length (select (is_candidate legacy now jobs) jobs) ≤ limit
    → In (candidate_of j) (candidates legacy now limit jobs)
unfolding candidates order_jobs
candidates-all legacy now limit jobs j i h n =
    let rows = select (is_candidate legacy now jobs) jobs in
    let e = length-order_by job_before rows in
    In-map candidate_of _ j (
      subst (In j) (sym (limit_to-all limit (order_by job_before rows) (omega (arith, e))))
        (In-ordered job_before rows j (In-select _ jobs j i h)))

-- The pending job that a candidate names.
candidates-job :
    (legacy : Bool) (now limit : ℕ) (jobs : List Job) (c : Candidate)
    → In c (candidates legacy now limit jobs)
    → (k : Job) × In k jobs × (is_live k.status ≡ true) × (k.id ≡ c.job) × (k.email_id ≡ c.email)
unfolding candidates order_jobs
candidates-job legacy now limit jobs c m =
    let (k, x, e) = In-map_inv candidate_of _ c m in
    let (y, h) =
      In-select_inv (is_candidate legacy now jobs) jobs k
        (In-order_by job_before _ k (In-limit_to limit _ k x)) in
    (k, y, ground (arith, h), ap (λ t. t.job) e, ap (λ t. t.email) e)

-- The candidates of an email are one job.
candidates-one :
    (legacy : Bool) (now limit : ℕ) (jobs : List Job) (j : Job) (c : Candidate)
    → Sound jobs
    → In j jobs
    → is_candidate legacy now jobs j ≡ true
    → In c (candidates legacy now limit jobs)
    → c.email ≡ j.email_id
    → c.job ≡ j.id
candidates-one legacy now limit jobs j c s i h m e =
    let r = candidates-Ready legacy now limit jobs c m in
    let k = candidates-job legacy now limit jobs c m in
    let a = candidate-first legacy now jobs j k.0 h k.1 k.2 (k.4 ∙ e) in
    let b = r.first j i (ground arith) (sym e) in
    let z = Ascending-ids jobs r.job k.0 s.ascending r.inside k.1 (r.names ∙ sym k.3) in
    let v = ap (λ t. t.rowid) z in
    sym k.3 ∙ ap (λ t. t.id) (Ascending-rowids jobs k.0 j s.ascending k.1 i (omega arith))

-- A claim that selects and then leases, with no write in between, hands out every job that is due,
-- with a lease of its token: when the jobs of every email are in order, a pending job that its
-- endpoint hands out, whose time has come and whose email has no job under way and none that waits
-- before it, is leased, if the limit of the claim is not below the number of such jobs.
pub lease_write-progress :
    (st : State) (request token : String) (legacy : Bool) (now limit : ℕ) (j : Job)
    → Sound st.jobs
    → In j st.jobs
    → is_candidate legacy now st.jobs j ≡ true
    → length (select (is_candidate legacy now st.jobs) st.jobs) ≤ limit
    → (k : Job) × In k
        (write
          (write st (select_write request legacy now limit))
          (lease_write request legacy token now)).jobs
      × (k.id ≡ j.id)
      × HeldBy token now k
unfolding write
lease_write-progress st request token legacy now limit j s i h n =
    let cs = candidates legacy now limit st.jobs in
    let e : get (put st.claims request cs) request ≡ some cs = get-put_self st.claims request cs in
    rw e (
      lease_all-takes legacy token now cs st.jobs j s (candidates-Ready legacy now limit st.jobs) i
        (ground arith) (candidates-all legacy now limit st.jobs j i h n)
        (λ c m. candidates-one legacy now limit st.jobs j c s i h m))
