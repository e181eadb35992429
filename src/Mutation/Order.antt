-- ===== src/Mutation/Order.antt =====
-- worker/src/unified/mutation_jobs.ts: through any interleaving of users, claims and reports the jobs
-- of an email are processed one at a time and in their order.
use one_mail.Base.{
  ℕ, ◌≤◌, ◌≡◌, inl, inr, refl, sym, subst, String, Option, some, List, [], ◌∷◌, Bool, true, not,
  ◌&&◌, get, put, get-put, In, leb, text_key, arith, Bool-cases, Option-cases,
}
use one_mail.Fleet.Contracts.{or_else}
use one_mail.Mutation.{
  Operation, set_read, set_starred, move, delete, is_location, is_processing, Email, Job, Candidate,
  State,
}
use one_mail.Mutation.Writes.{max_attempts, candidates}
use one_mail.Mutation.Turns.{
  Calm, is_live, leads, supersede_older-Calm, recover-Calm, report_write-Calm,
}
use one_mail.Mutation.Reports.{
  Requested, ask_retry, ask_succeeded, ask_failed, ask_unsupported, ResultBody, report_success,
  report_write, normalized_move_projection,
}
use one_mail.Mutation.Sound.{Sound, Ready, Ascending-rowids, Calm-Sound, Calm-Ready}
use one_mail.Mutation.Insertions.{insert-Added, Added-Sound, Added-Ready}
use one_mail.Mutation.Leases.{lease_all-Sound, lease_all-Ready, candidates-Ready}
use one_mail.Mutation.History.{
  Write, insert_write, supersede_write, flag_write, drop_email_write, recover_write, select_write,
  lease_write, result_write, write, write_all,
}

-- What holds of the jobs and of the claims that have selected candidates.
pub record Ordered (st : State) : Type 0 where
  pub sound : Sound st.jobs
  pub ready :
      (request : String) (c : Candidate)
      → In c (or_else (get st.claims request) [])
      → Ready st.jobs c

calm-Ordered :
    (st : State) (jobs : List Job) (emails : List Email)
    → Calm st.jobs jobs
    → Ordered st
    → Ordered (record st { emails = emails; jobs = jobs })
calm-Ordered st jobs emails m o = record {
  sound = Calm-Sound st.jobs jobs m o.sound;
  ready = λ q c i. Calm-Ready st.jobs jobs c m (o.ready q c i);
}

select-Ordered :
    (st : State) (request : String) (cs : List Candidate)
    → ((c : Candidate) → In c cs → Ready st.jobs c)
    → Ordered st
    → Ordered (record st { claims = put st.claims request cs })
select-Ordered st request cs r o = record {
  sound = o.sound;
  ready = λ q c i. elim (text_key.same request q) [
    | yes e ↦
        let g : get (put st.claims request cs) q ≡ some cs =
          ground (arith, get-put st.claims request q cs) in
        r c (subst (λ x. In c (or_else x [])) g i)
    | no n ↦
        let g : get (put st.claims request cs) q ≡ get st.claims q =
          ground (arith, get-put st.claims request q cs) in
        o.ready q c (subst (λ x. In c (or_else x [])) g i)
  ];
}

success-claims :
    (operation : Operation) (job : Job) (newer : Bool) (body : ResultBody) (token : String)
    (error : Option String) (now : ℕ) (st : State)
    → job.operation ≡ operation
    → (report_success job newer body token error now st).0.claims ≡ st.claims
unfolding report_success
success-claims move job newer body token error now st e =
    elim (Option-cases (normalized_move_projection job body)) [
      | inl n ↦ simp (report_success, e, n) refl
      | inr (place, n) ↦ simp (report_success, e, n) refl
    ]
success-claims delete job newer body token error now st e = simp (report_success, e) refl
success-claims set_read job newer body token error now st e = simp (report_success, e) refl
success-claims set_starred job newer body token error now st e = simp (report_success, e) refl

report_write-claims :
    (job : Job) (newer : Bool) (requested : Requested) (body : ResultBody) (token : String)
    (now : ℕ) (st : State)
    → (report_write job newer requested body token now st).0.claims ≡ st.claims
unfolding report_write
report_write-claims job newer ask_succeeded body token now st =
    success-claims job.operation job newer body token _ now st refl
report_write-claims job newer ask_failed body token now st = refl
report_write-claims job newer ask_unsupported body token now st = refl
report_write-claims job newer ask_retry body token now st =
    elim (Bool-cases (newer && not (is_location job.operation))) [
      | inl e ↦ rw e refl
      | inr e ↦
          elim (Bool-cases (leb max_attempts job.attempts && not (is_location job.operation))) [
            | inl f ↦ rw (e, f) refl
            | inr f ↦ rw (e, f) refl
          ]
    ]

pub write-Ordered : (st : State) (w : Write) → Ordered st → Ordered (write st w)
unfolding write
write-Ordered st (insert_write i) o =
    let a = insert-Added i st.jobs in
    record {
      sound = Added-Sound st.jobs _ a o.sound;
      ready = λ q c x. Added-Ready st.jobs _ c a (o.ready q c x);
    }
write-Ordered st (supersede_write email operation id now) o =
    calm-Ordered st _ st.emails (supersede_older-Calm email operation id now st.jobs) o
write-Ordered st (flag_write email operation desired) o = record {
  sound = o.sound;
  ready = o.ready;
}
write-Ordered st (drop_email_write email) o = record { sound = o.sound; ready = o.ready }
write-Ordered st (recover_write legacy now) o =
    calm-Ordered st _ st.emails (recover-Calm legacy now st.jobs) o
write-Ordered st (select_write request legacy now limit) o =
    select-Ordered st request (candidates legacy now limit st.jobs)
      (λ c i. candidates-Ready legacy now limit st.jobs c i) o
write-Ordered st (lease_write request legacy token now) o =
    let cs = or_else (get st.claims request) [] in
    record {
      sound = lease_all-Sound legacy token now cs st.jobs o.sound (o.ready request);
      ready = λ q c x.
          lease_all-Ready legacy token now cs st.jobs o.sound (o.ready request) c (o.ready q c x);
    }
write-Ordered st (result_write job newer requested body token now) o =
    let m = report_write-Calm job newer requested body token now st in
    record {
      sound = Calm-Sound st.jobs _ m o.sound;
      ready = λ q c i. Calm-Ready st.jobs _ c m (
          o.ready q c (
            subst (λ d. In c (or_else (get d q) []))
              (report_write-claims job newer requested body token now st) i));
    }

pub write_all-Ordered : (st : State) (ws : List Write) → Ordered st → Ordered (write_all st ws)
unfolding write_all
write_all-Ordered st [] o = o
write_all-Ordered st (w ∷ ws) o = write_all-Ordered (write st w) ws (write-Ordered st w o)

-- However users, agents, claims and reports interleave, a job that was handed out and is not over comes
-- first among the live jobs of its email: no later job of the email is handed out before it is over,
-- and no two jobs of one email are ever processed together.
pub write_all-exclusive :
    (st : State) (ws : List Write) (j k : Job)
    → Ordered st
    → In j (write_all st ws).jobs
    → In k (write_all st ws).jobs
    → k.email_id ≡ j.email_id
    → (leads j ≡ true → is_live k.status ≡ true → j.rowid ≤ k.rowid)
      × (is_processing j.status ≡ true → is_processing k.status ≡ true → j ≡ k)
write_all-exclusive st ws j k o x y e =
    let s = (write_all-Ordered st ws o).sound in
    (
      (λ l m. s.first j k x y l m e),
      (λ a b.
          let l : leads j ≡ true = ground (arith, s.started j x a) in
          let m : leads k ≡ true = ground (arith, s.started k y b) in
          let p = s.first j k x y l (ground arith) e in
          let q = s.first k j y x m (ground arith) (sym e) in
          Ascending-rowids (write_all st ws).jobs j k s.ascending x y (omega arith)),
    )
