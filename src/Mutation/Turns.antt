-- ===== src/Mutation/Turns.antt =====
-- worker/src/unified/mutation_jobs.ts: what a write does to the jobs, lease by lease.
use one_mail.Base.{
  ℕ, ◌≡◌, inl, inr, refl, String, Option, List, Bool, true, false, not, ◌&&◌, any, updated, ltb,
  leb, if◌then◌else◌, text_key, arith, Bool-cases, Option-cases,
}
use one_mail.Mutation.{
  Operation, set_read, set_starred, move, delete, JobStatus, pending, processing, succeeded, failed,
  unsupported, superseded, is_pending, is_processing, is_location, Job, State,
}
use one_mail.Mutation.Writes.{
  max_attempts, supersede_older, is_older, as_superseded, recover, has_expired, as_recovered,
  is_duplicate, is_fenced, as_done, Place, as_moved, is_later, as_deleted, finish_move,
  finish_delete,
}
use one_mail.Mutation.Reports.{
  Requested, ask_retry, ask_succeeded, ask_failed, ask_unsupported, ResultBody, report_success,
  report_write, normalized_move_projection,
}

-- A job that is not over.
abbrev pub is_live : JobStatus → Bool
is_live pending = true
is_live processing = true
is_live _ = false

-- A live job that was handed out before: its outcome may be unknown.
abbrev pub leads : Job → Bool
leads j = is_live j.status && ltb 0 j.attempts

-- What every write but a lease makes of a job: it may end or go back to the queue.
pub record Quiet (j k : Job) : Type 0 where
  pub same_rowid : k.rowid ≡ j.rowid
  pub same_id : k.id ≡ j.id
  pub same_email : k.email_id ≡ j.email_id
  pub same_attempts : k.attempts ≡ j.attempts
  pub same_operation : k.operation ≡ j.operation
  pub same_account : k.account_id ≡ j.account_id
  pub was_live : is_live k.status ≡ true → is_live j.status ≡ true
  pub was_processing : is_processing k.status ≡ true → is_processing j.status ≡ true
  pub final : is_live j.status ≡ false → k.status ≡ j.status

abbrev pub image : (Job → Bool) → (Job → Job) → Job → Job
image p f j = if p j then f j else j

pub quiet-self : (j : Job) → Quiet j j
quiet-self j = record {
  same_rowid = refl;
  same_id = refl;
  same_email = refl;
  same_attempts = refl;
  same_operation = refl;
  same_account = refl;
  was_live = λ h. h;
  was_processing = λ h. h;
  final = λ h. refl;
}

-- The jobs change by updates of jobs that are not over, to a status that is not `processing`.
pub data Calm : List Job → List Job → Type 0 where
  same : (jobs : List Job) → Calm jobs jobs
  calms :
      (p : Job → Bool) (f : Job → Job) (jobs : List Job)
      → ((j : Job) → p j ≡ true → Quiet j (f j))
      → Calm jobs (updated p f jobs)
  after : (a b c : List Job) → Calm a b → Calm b c → Calm a c

-- A live job that takes a status other than `processing`.
quiet-ends :
    (j : Job) (k : Job)
    → k.rowid ≡ j.rowid
    → k.id ≡ j.id
    → k.email_id ≡ j.email_id
    → k.attempts ≡ j.attempts
    → k.operation ≡ j.operation
    → k.account_id ≡ j.account_id
    → is_live j.status ≡ true
    → is_processing k.status ≡ false
    → Quiet j k
quiet-ends j k a b c d o u l n = record {
  same_rowid = a;
  same_id = b;
  same_email = c;
  same_attempts = d;
  same_operation = o;
  same_account = u;
  was_live = λ h. l;
  was_processing = λ h. cc;
  final = λ h. cc;
}

live_of_pending : (s : JobStatus) → is_pending s ≡ true → is_live s ≡ true
live_of_pending s h = ground arith

live_of_processing : (s : JobStatus) → is_processing s ≡ true → is_live s ≡ true
live_of_processing s h = ground arith

pub supersede_older-Calm :
    (email : String) (operation : Operation) (id : String) (now : ℕ) (jobs : List Job)
    → Calm jobs (supersede_older email operation id now jobs)
unfolding supersede_older
supersede_older-Calm email operation id now jobs =
    calms (is_older jobs email operation id) (as_superseded now) jobs λ j h.
      quiet-ends j _ refl refl refl refl refl refl (live_of_pending j.status (ground arith)) refl

duplicates-Calm :
    (locations : Bool) (now : ℕ) (jobs : List Job)
    → Calm jobs (updated (is_duplicate locations jobs) (as_superseded now) jobs)
duplicates-Calm locations now jobs =
    calms (is_duplicate locations jobs) (as_superseded now) jobs λ j h.
      quiet-ends j _ refl refl refl refl refl refl (live_of_pending j.status (ground arith)) refl

recovered-Calm :
    (now : ℕ) (jobs : List Job) → Calm jobs (updated (has_expired now) (as_recovered now) jobs)
recovered-Calm now jobs = calms (has_expired now) (as_recovered now) jobs λ j h.
    quiet-ends j _ refl refl refl refl refl refl (live_of_processing j.status (ground arith)) refl

pub recover-Calm : (legacy : Bool) (now : ℕ) (jobs : List Job) → Calm jobs (recover legacy now jobs)
unfolding recover
recover-Calm true now jobs = after jobs _ _ (recovered-Calm now jobs) (duplicates-Calm false now _)
recover-Calm false now jobs =
    after jobs _ _ (recovered-Calm now jobs)
      (after _ _ _ (duplicates-Calm false now _) (duplicates-Calm true now _))

fenced-Calm :
    (id token : String) (now : ℕ) (f : Job → Job) (jobs : List Job)
    → ((j : Job) → is_live j.status ≡ true → Quiet j (f j))
    → Calm jobs (updated (is_fenced id token now) f jobs)
fenced-Calm id token now f jobs q =
    calms (is_fenced id token now) f jobs λ j h. q j (live_of_processing j.status (ground arith))

done-Quiet :
    (status : JobStatus) (error : Option String) (now : ℕ)
    → is_processing status ≡ false
    → (j : Job) → is_live j.status ≡ true
    → Quiet j (as_done status error now j)
done-Quiet status error now n j l = quiet-ends j _ refl refl refl refl refl refl l n

moved-Calm :
    (email id : String) (place : Place) (now : ℕ) (jobs : List Job)
    → Calm jobs (updated (is_later jobs email id) (as_moved place now) jobs)
moved-Calm email id place now jobs = calms (is_later jobs email id) (as_moved place now) jobs λ j h.
    record {
      same_rowid = refl;
      same_id = refl;
      same_email = refl;
      same_attempts = refl;
      same_operation = refl;
      same_account = refl;
      was_live = λ x. x;
      was_processing = λ x. x;
      final = λ x. refl;
    }

finish_move-Calm :
    (job : Job) (token : String) (place : Place) (error : Option String) (now : ℕ) (jobs : List Job)
    → Calm jobs (finish_move job token place error now jobs)
unfolding finish_move
finish_move-Calm job token place error now jobs =
    let end : (js : List Job)
        → Calm js (updated (is_fenced job.id token now) (as_done succeeded error now) js) =
      λ js. fenced-Calm job.id token now _ js (done-Quiet succeeded error now refl) in
    elim (Bool-cases (any (is_fenced job.id token now) jobs)) [
      | inl e ↦ rw e (after jobs _ _ (moved-Calm job.email_id job.id place now jobs) (end _))
      | inr e ↦ rw e (end jobs)
    ]

finish_delete-Calm :
    (job : Job) (token : String) (error : Option String) (now : ℕ) (jobs : List Job)
    → Calm jobs (finish_delete job token error now jobs)
unfolding finish_delete
finish_delete-Calm job token error now jobs =
    let end : (js : List Job)
        → Calm js (updated (is_fenced job.id token now) (as_done succeeded error now) js) =
      λ js. fenced-Calm job.id token now _ js (done-Quiet succeeded error now refl) in
    let drop : Calm jobs (updated (is_later jobs job.email_id job.id) (as_deleted now) jobs) =
      calms (is_later jobs job.email_id job.id) (as_deleted now) jobs λ j h.
        quiet-ends j _ refl refl refl refl refl refl (live_of_pending j.status (ground arith))
          refl in
    elim (Bool-cases (any (is_fenced job.id token now) jobs)) [
      | inl e ↦ rw e (after jobs _ _ drop (end _))
      | inr e ↦ rw e (end jobs)
    ]

success-Calm :
    (operation : Operation) (job : Job) (newer : Bool) (body : ResultBody) (token : String)
    (error : Option String) (now : ℕ) (st : State)
    → job.operation ≡ operation
    → Calm st.jobs (report_success job newer body token error now st).0.jobs
unfolding report_success
success-Calm move job newer body token error now st e =
    elim (Option-cases (normalized_move_projection job body)) [
      | inl n ↦ simp (report_success, e, n) (same st.jobs)
      | inr (place, n) ↦
          simp (report_success, e, n) (finish_move-Calm job token place error now st.jobs)
    ]
success-Calm delete job newer body token error now st e =
    simp (report_success, e) (finish_delete-Calm job token error now st.jobs)
success-Calm set_read job newer body token error now st e =
    simp (report_success, e)
      (fenced-Calm job.id token now _ st.jobs (done-Quiet succeeded error now refl))
success-Calm set_starred job newer body token error now st e =
    simp (report_success, e)
      (fenced-Calm job.id token now _ st.jobs (done-Quiet succeeded error now refl))

pub report_write-Calm :
    (job : Job) (newer : Bool) (requested : Requested) (body : ResultBody) (token : String)
    (now : ℕ) (st : State)
    → Calm st.jobs (report_write job newer requested body token now st).0.jobs
unfolding report_write
report_write-Calm job newer ask_succeeded body token now st =
    success-Calm job.operation job newer body token _ now st refl
report_write-Calm job newer ask_failed body token now st =
    fenced-Calm job.id token now _ st.jobs (done-Quiet failed _ now refl)
report_write-Calm job newer ask_unsupported body token now st =
    fenced-Calm job.id token now _ st.jobs (done-Quiet unsupported _ now refl)
report_write-Calm job newer ask_retry body token now st =
    elim (Bool-cases (newer && not (is_location job.operation))) [
      | inl e ↦ rw e (fenced-Calm job.id token now _ st.jobs (done-Quiet superseded _ now refl))
      | inr e ↦
          elim (Bool-cases (leb max_attempts job.attempts && not (is_location job.operation))) [
            | inl f ↦
                rw (e, f) (fenced-Calm job.id token now _ st.jobs (done-Quiet failed _ now refl))
            | inr f ↦
                rw (e, f)
                  (fenced-Calm job.id token now _ st.jobs
                    (λ j l. quiet-ends j _ refl refl refl refl refl refl l refl))
          ]
    ]
