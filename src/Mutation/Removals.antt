-- ===== src/Mutation/Removals.antt =====
-- worker/src/unified/job_pruning.ts and the purge of accounts in worker/src/unified/shard_routes.ts:
-- the deletions of jobs, among the writes of the queue.
use one_mail.Base.{
  Key, ◌<◌, sym, ◌∙◌, ℕ, ◌-◌, ◌*◌, ◌≡◌, ◌⊎◌, inl, inr, refl, String, Option, none, some, List, [],
  ◌∷◌, Bool, true, false, not, ◌&&◌, any, includes, select, In-select, In, limit_to, ltb, ◌==◌,
  if◌then◌else◌, text_key, nat_key, arith, Bool-cases, get, subst, any-witness, ◌===◌, same-eq,
  In-select_inv, In-limit_to,
}
use one_mail.Fleet.Contracts.{or_else}
use one_mail.Mutation.{JobStatus, succeeded, failed, unsupported, superseded, Job, State, Candidate}
use one_mail.Mutation.Writes.{is_leasable, as_leased, lease_all}
use one_mail.Mutation.Turns.{
  is_live, Calm, same, calms, after, supersede_older-Calm, recover-Calm, report_write-Calm,
}
use one_mail.Mutation.Sound.{Ascending, Ascending-updated, Ascending-rowids, image-Quiet}
use one_mail.Mutation.Insertions.{Added, nothing, appends, insert-Added, Ascending-append}
use one_mail.Mutation.History.{
  Write, insert_write, supersede_write, flag_write, drop_email_write, recover_write, select_write,
  lease_write, result_write, write,
}
use one_mail.Mutation.Kept.{Kept, Stands, Kept-self, Kept-then, write-Stands}

-- `MUTATION_TERMINAL_STATUSES`
abbrev pub is_terminal : JobStatus → Bool
is_terminal succeeded = true
is_terminal failed = true
is_terminal unsupported = true
is_terminal superseded = true
is_terminal _ = false

-- `boundedDays` and `boundedBatch`, of whole numbers.
abbrev pub bounded_days : ℕ → ℕ
bounded_days value = if ltb value 1 then 30 else value

abbrev pub bounded_batch : ℕ → ℕ
bounded_batch value = if ltb value 1 then 500 else if ltb value 5000 then value else 5000

abbrev pub prune_cutoff : ℕ → ℕ → ℕ
prune_cutoff now days = now - bounded_days days * 24 * 60 * 60 * 1000

abbrev pub is_prunable : ℕ → Job → Bool
is_prunable cutoff j = is_terminal j.status && ltb (or_else j.completed_at j.updated_at) cutoff

-- The first statement of `pruneTerminalJobs`. Its subquery has a limit and no order: `scan` is the
-- order in which the database meets the rowids.
abbrev pub pruned_rowids : ℕ → ℕ → List ℕ → List Job → List ℕ
pruned_rowids cutoff limit scan jobs =
    limit_to limit (select (λ r. any (λ j. j.rowid == r && is_prunable cutoff j) jobs) scan)

unfoldable pub prune_terminal_jobs : ℕ → ℕ → ℕ → List ℕ → List Job → List Job
prune_terminal_jobs now days batch_limit scan jobs =
    let rowids = pruned_rowids (prune_cutoff now days) (bounded_batch batch_limit) scan jobs in
    select (λ j. not (includes rowids j.rowid)) jobs

abbrev pub is_of : List String → Option String → Bool
is_of accounts none = false
is_of accounts (some a) = includes accounts a

-- The statements of `/shard/accounts/purge` on jobs and messages.
unfoldable pub purge_accounts : List String → State → State
purge_accounts accounts st = record st {
  emails = select (λ e. not (is_of accounts e.account_id)) st.emails;
  jobs = select (λ j. not (is_of accounts j.account_id)) st.jobs;
}

-- What happens to the tables: a write of the queue, a pruning, or a purge.
pub data Event : Type 0 where
  writes : (w : Write) → Event
  prunes : (now days batch_limit : ℕ) (scan : List ℕ) → Event
  purges : (accounts : List String) → Event

unfoldable pub happen : State → Event → State
unfolding prune_terminal_jobs purge_accounts
happen st (writes w) = write st w
happen st (prunes now days batch_limit scan) = record st {
  jobs = prune_terminal_jobs now days batch_limit scan st.jobs;
}
happen st (purges accounts) = purge_accounts accounts st

unfoldable pub happen_all : State → List Event → State
unfolding happen
happen_all st [] = st
happen_all st (e ∷ es) = happen_all (happen st e) es

-- The rowids stay distinct.
Calm-Ascending : (a b : List Job) → Calm a b → Ascending a → Ascending b
Calm-Ascending a b (same _) h = h
Calm-Ascending a b (calms p f _ q) h =
    Ascending-updated p f a (λ j. let v = image-Quiet p f j (q j) in (v.same_rowid, v.same_id)) h
Calm-Ascending a c (after _ b _ x y) h = Calm-Ascending b c y (Calm-Ascending a b x h)

Added-Ascending : (a b : List Job) → Added a b → Ascending a → Ascending b
Added-Ascending a b nothing h = h
Added-Ascending a b (appends n l _) h = Ascending-append a n l h

lease_all-Ascending :
    (legacy : Bool) (token : String) (now : ℕ) (cs : List Candidate) (jobs : List Job)
    → Ascending jobs
    → Ascending (lease_all legacy token now cs jobs)
unfolding lease_all
lease_all-Ascending legacy token now [] jobs h = h
lease_all-Ascending legacy token now (c ∷ cs) jobs h =
    let p = is_leasable legacy now jobs c in
    lease_all-Ascending legacy token now cs _ (
      Ascending-updated p (as_leased token now) jobs
        (λ j. elim (Bool-cases (p j)) [ inl e ↦ rw e (refl, refl) | inr e ↦ rw e (refl, refl) ]) h)

write-Ascending : (st : State) (w : Write) → Ascending st.jobs → Ascending (write st w).jobs
unfolding write
write-Ascending st (insert_write i) h = Added-Ascending st.jobs _ (insert-Added i st.jobs) h
write-Ascending st (supersede_write email operation id now) h =
    Calm-Ascending st.jobs _ (supersede_older-Calm email operation id now st.jobs) h
write-Ascending st (flag_write email operation desired) h = h
write-Ascending st (drop_email_write email) h = h
write-Ascending st (recover_write legacy now) h =
    Calm-Ascending st.jobs _ (recover-Calm legacy now st.jobs) h
write-Ascending st (select_write request legacy now limit) h = h
write-Ascending st (lease_write request legacy token now) h =
    lease_all-Ascending legacy token now (or_else (get st.claims request) []) st.jobs h
write-Ascending st (result_write job newer requested body token now) h =
    Calm-Ascending st.jobs _ (report_write-Calm job newer requested body token now st) h

select-Ascending : (p : Job → Bool) (jobs : List Job) → Ascending jobs → Ascending (select p jobs)
select-Ascending p [] h = tt
select-Ascending p (j ∷ jobs) h = elim (Bool-cases (p j)) [
  | inl e ↦ rw e ((λ k i. h.0 k (In-select_inv p jobs k i).0), select-Ascending p jobs h.1)
  | inr e ↦ rw e (select-Ascending p jobs h.1)
]

happen-Ascending : (st : State) (e : Event) → Ascending st.jobs → Ascending (happen st e).jobs
unfolding happen prune_terminal_jobs purge_accounts
happen-Ascending st (writes w) h = write-Ascending st w h
happen-Ascending st (prunes now days batch_limit scan) h = select-Ascending _ st.jobs h
happen-Ascending st (purges accounts) h = select-Ascending _ st.jobs h

-- A row that a pruning takes is over and old.
includes-In : {K : Type 0} ⦃key : Key K⦄ (rs : List K) (r : K) → includes rs r ≡ true → In r rs
includes-In {K} ⦃key⦄ rs r h =
    let (x, i, e) = any-witness (λ x. x === r) rs h in subst (λ y. In y rs) (same-eq x r e) i

pruned-is_prunable :
    (cutoff limit : ℕ) (scan : List ℕ) (jobs : List Job) (j : Job)
    → Ascending jobs
    → In j jobs
    → includes (pruned_rowids cutoff limit scan jobs) j.rowid ≡ true
    → is_prunable cutoff j ≡ true
pruned-is_prunable cutoff limit scan jobs j a i h =
    let m = includes-In (pruned_rowids cutoff limit scan jobs) j.rowid h in
    let (_, e) =
      In-select_inv (λ r. any (λ j. j.rowid == r && is_prunable cutoff j) jobs) scan j.rowid
        (In-limit_to limit _ j.rowid m) in
    let (k, x, q) = any-witness (λ (k : Job). k.rowid == j.rowid && is_prunable cutoff k) jobs e in
    let same = Ascending-rowids jobs k j a x i (ground arith) in
    subst (λ z. is_prunable cutoff z ≡ true) same (ground arith)

is_terminal-over : (s : JobStatus) → is_terminal s ≡ true → is_live s ≡ false
is_terminal-over s h = ground arith

is_prunable-over :
    (cutoff : ℕ) (j : Job)
    → is_prunable cutoff j ≡ true
    → (is_live j.status ≡ false) × (or_else j.completed_at j.updated_at < cutoff)
is_prunable-over cutoff j h = (is_terminal-over j.status (ground arith), ground arith)

is_of-In :
    (accounts : List String) (account : Option String)
    → is_of accounts account ≡ true
    → (a : String) × (account ≡ some a) × In a accounts
is_of-In accounts none h = cc
is_of-In accounts (some a) h = (a, refl, includes-In accounts a h)

-- A deletion of the sequence takes the job out of the table of its time: a pruning, when the job is
-- over and older than the cutoff, or a purge of its account.
pub data Removed (j : Job) : State → List Event → Type 0 where
  pruned :
      (st : State) (now days batch_limit : ℕ) (scan : List ℕ) (es : List Event) (k : Job)
      → In k st.jobs
      → Kept j k
      → is_live k.status ≡ false
      → or_else k.completed_at k.updated_at < prune_cutoff now days
      → Removed j st (prunes now days batch_limit scan ∷ es)
  purged :
      (st : State) (accounts : List String) (es : List Event) (k : Job)
      → In k st.jobs
      → Kept j k
      → (a : String) → j.account_id ≡ some a
      → In a accounts
      → Removed j st (purges accounts ∷ es)
  later :
      (st : State) (e : Event) (es : List Event)
      → Removed j (happen st e) es
      → Removed j st (e ∷ es)

Removed-then :
    (i j : Job) (st : State) (es : List Event) → Kept i j → Removed j st es → Removed i st es
Removed-then i j st es a (pruned _ now days n scan _ k m b o l) =
    pruned st now days n scan _ k m (Kept-then i j k a b) o l
Removed-then i j st es a (purged _ accounts _ k m b n e x) =
    purged st accounts _ k m (Kept-then i j k a b) n (sym a.same_account ∙ e) x
Removed-then i j st es a (later _ e _ x) = later st e _ (Removed-then i j (happen st e) _ a x)

happen-Stands :
    (st : State) (e : Event) (es : List Event) (j : Job)
    → Ascending st.jobs
    → In j st.jobs
    → Stands j (happen st e).jobs ⊎ Removed j st (e ∷ es)
unfolding happen prune_terminal_jobs purge_accounts
happen-Stands st (writes w) es j a i = inl (write-Stands st w j i)
happen-Stands st (prunes now days batch_limit scan) es j a i =
    let rowids = pruned_rowids (prune_cutoff now days) (bounded_batch batch_limit) scan st.jobs in
    elim (Bool-cases (includes rowids j.rowid)) [
      | inl e ↦
          let (o, l) = is_prunable-over (prune_cutoff now days) j (
            pruned-is_prunable (prune_cutoff now days) (bounded_batch batch_limit) scan st.jobs j a
              i e) in
          inr (pruned st now days batch_limit scan es j i (Kept-self j) o l)
      | inr e ↦
          inl
            (j, In-select (λ k. not (includes rowids k.rowid)) st.jobs j i (rw e refl), Kept-self j)
    ]
happen-Stands st (purges accounts) es j a i = elim (Bool-cases (is_of accounts j.account_id)) [
  | inl e ↦
      let (n, f, x) = is_of-In accounts j.account_id e in
      inr (purged st accounts es j i (Kept-self j) n f x)
  | inr e ↦
      inl
        (j, In-select (λ k. not (is_of accounts k.account_id)) st.jobs j i (rw e refl), Kept-self j)
]

-- A job is lost to the two deletions alone, and an outcome is final: through any sequence of writes of
-- the queue, prunings and purges of accounts, a job stays in the table under its rowid, id, email and
-- account, its attempts never go down, and once it has succeeded, failed, is not supported or was
-- superseded it keeps that status; or a pruning of the sequence takes it when it is over and was
-- completed (or, without that time, updated) before the cutoff, or a purge of the sequence names its account.
pub happen_all-Stands :
    (st : State) (es : List Event) (j : Job)
    → Ascending st.jobs
    → In j st.jobs
    → Stands j (happen_all st es).jobs ⊎ Removed j st es
unfolding happen_all
happen_all-Stands st [] j a i = inl (j, i, Kept-self j)
happen_all-Stands st (e ∷ es) j a i = elim (happen-Stands st e es j a i) [
  | inr r ↦ inr r
  | inl (k, m, x) ↦ elim (happen_all-Stands (happen st e) es k (happen-Ascending st e a) m) [
    | inl (l, n, y) ↦ inl (l, n, Kept-then j k l x y)
    | inr r ↦ inr (later st e es (Removed-then j k (happen st e) es x r))
  ]
]
