-- ===== src/Mutation/Kept.antt =====
-- worker/src/unified/mutation_jobs.ts: what the queue, its claims and its
-- reports make of a job: it stays in the table, and an outcome is final.
use one_mail.Base.{
  ℕ, ◌≤◌, ◌≡◌, inl, inr, refl, ◌∙◌, String, List, [], ◌∷◌, Bool, true, false, get, In, updated,
  In-first, In-updated, text_key, arith, Bool-cases,
}
use one_mail.Fleet.Contracts.{or_else}
use one_mail.Mutation.{Job, Candidate, State}
use one_mail.Mutation.Writes.{is_leasable, as_leased, lease_all}
use one_mail.Mutation.Turns.{
  is_live, Quiet, image, Calm, same, calms, after, supersede_older-Calm, recover-Calm,
  report_write-Calm,
}
use one_mail.Mutation.Insertions.{Added, nothing, appends, insert-Added}
use one_mail.Mutation.History.{
  Write, insert_write, supersede_write, flag_write, drop_email_write, recover_write, select_write,
  lease_write, result_write, write,
}

-- What becomes of a job: it keeps its identity, its attempts only grow, and what is over stays as it
-- ended.
pub record Kept (j k : Job) : Type 0 where
  pub same_rowid : k.rowid ≡ j.rowid
  pub same_id : k.id ≡ j.id
  pub same_email : k.email_id ≡ j.email_id
  pub same_account : k.account_id ≡ j.account_id
  pub attempts_grow : j.attempts ≤ k.attempts
  pub over : is_live j.status ≡ false → (k.status ≡ j.status) × (k.attempts ≡ j.attempts)

-- The job still stands in the table.
abbrev pub Stands : Job → List Job → Type 0
Stands j jobs = (k : Job) × In k jobs × Kept j k

pub Kept-self : (j : Job) → Kept j j
Kept-self j = record {
  same_rowid = refl;
  same_id = refl;
  same_email = refl;
  same_account = refl;
  attempts_grow = omega arith;
  over = λ h. (refl, refl);
}

pub Kept-then : (i j k : Job) → Kept i j → Kept j k → Kept i k
Kept-then i j k a b = record {
  same_rowid = b.same_rowid ∙ a.same_rowid;
  same_id = b.same_id ∙ a.same_id;
  same_email = b.same_email ∙ a.same_email;
  same_account = b.same_account ∙ a.same_account;
  attempts_grow = omega (arith, a.attempts_grow, b.attempts_grow);
  over = λ h. let (x, y) = a.over h in let (u, v) = b.over (rw x h) in (u ∙ x, v ∙ y);
}

Quiet-Kept : (j k : Job) → Quiet j k → Kept j k
Quiet-Kept j k q = record {
  same_rowid = q.same_rowid;
  same_id = q.same_id;
  same_email = q.same_email;
  same_account = q.same_account;
  attempts_grow = omega (arith, q.same_attempts);
  over = λ h. (q.final h, q.same_attempts);
}

Stands-then :
    (j : Job) (a b : List Job) → Stands j a → ((k : Job) → In k a → Stands k b) → Stands j b
Stands-then j a b (k, i, x) f = let (l, m, y) = f k i in (l, m, Kept-then j k l x y)

image-Kept :
    (p : Job → Bool) (f : Job → Job) (j : Job) → (p j ≡ true → Kept j (f j)) → Kept j (image p f j)
image-Kept p f j h = elim (Bool-cases (p j)) [ inl e ↦ rw e (h e) | inr e ↦ rw e (Kept-self j) ]

Calm-Stands : (a b : List Job) (j : Job) → Calm a b → In j a → Stands j b
Calm-Stands a b j (same _) i = (j, i, Kept-self j)
Calm-Stands a b j (calms p f _ q) i =
    (image p f j, In-updated p f a j i, image-Kept p f j (λ e. Quiet-Kept j (f j) (q j e)))
Calm-Stands a c j (after _ b _ x y) i =
    Stands-then j b c (Calm-Stands a b j x i) (λ k m. Calm-Stands b c k y m)

Added-Stands : (a b : List Job) (j : Job) → Added a b → In j a → Stands j b
Added-Stands a b j nothing i = (j, i, Kept-self j)
Added-Stands a b j (appends n _ _) i = (j, In-first a (n ∷ []) j i, Kept-self j)

leased-Kept :
    (legacy : Bool) (token : String) (now : ℕ) (jobs : List Job) (c : Candidate) (j : Job)
    → is_leasable legacy now jobs c j ≡ true
    → Kept j (as_leased token now j)
leased-Kept legacy token now jobs c j h =
    let l : is_live j.status ≡ true = ground arith in
    record {
      same_rowid = refl;
      same_id = refl;
      same_email = refl;
      same_account = refl;
      attempts_grow = omega arith;
      over = λ n. cc;
    }

lease_all-Stands :
    (legacy : Bool) (token : String) (now : ℕ) (cs : List Candidate) (jobs : List Job) (j : Job)
    → In j jobs
    → Stands j (lease_all legacy token now cs jobs)
unfolding lease_all
lease_all-Stands legacy token now [] jobs j i = (j, i, Kept-self j)
lease_all-Stands legacy token now (c ∷ cs) jobs j i =
    let p = is_leasable legacy now jobs c in
    let f = as_leased token now in
    Stands-then j (updated p f jobs) _
      (
        image p f j,
        In-updated p f jobs j i,
        image-Kept p f j (leased-Kept legacy token now jobs c j),
      )
      (λ k m. lease_all-Stands legacy token now cs (updated p f jobs) k m)

pub write-Stands : (st : State) (w : Write) (j : Job) → In j st.jobs → Stands j (write st w).jobs
unfolding write
write-Stands st (insert_write intent) j i = Added-Stands st.jobs _ j (insert-Added intent st.jobs) i
write-Stands st (supersede_write email operation id now) j i =
    Calm-Stands st.jobs _ j (supersede_older-Calm email operation id now st.jobs) i
write-Stands st (flag_write email operation desired) j i = (j, i, Kept-self j)
write-Stands st (drop_email_write email) j i = (j, i, Kept-self j)
write-Stands st (recover_write legacy now) j i =
    Calm-Stands st.jobs _ j (recover-Calm legacy now st.jobs) i
write-Stands st (select_write request legacy now limit) j i = (j, i, Kept-self j)
write-Stands st (lease_write request legacy token now) j i =
    lease_all-Stands legacy token now (or_else (get st.claims request) []) st.jobs j i
write-Stands st (result_write job newer requested body token now) j i =
    Calm-Stands st.jobs _ j (report_write-Calm job newer requested body token now st) i
