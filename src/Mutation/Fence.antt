-- ===== src/Mutation/Fence.antt =====
-- worker/src/unified/mutation_jobs.ts: a report without a lease changes nothing, and no job is lost.
use one_mail.Base.{
  ℕ, ◌≡◌, ◌⊎◌, inl, inr, refl, String, Option, Bool, false, not, ◌&&◌, any, updated-none, any-none,
  leb, ◌===◌, text_key, arith, Bool-cases, Option-cases,
}
use one_mail.Mutation.{
  Operation, set_read, set_starred, move, delete, succeeded, is_location, Email, Job, State,
}
use one_mail.Mutation.Writes.{max_attempts, is_fenced, as_done}
use one_mail.Mutation.Reports.{
  as_placed, set_flag, wants, Requested, ask_retry, ask_succeeded, ask_failed, ask_unsupported,
  ResultBody, ReportAnswer, stale_lease, invalid_projection, update_emails, fenced_update,
  report_success, report_write, normalized_move_projection,
}

-- A report is refused, and nothing is written.
abbrev pub Refused : State → State × ReportAnswer → Type 0
Refused st r = (r.0 ≡ st) × ((r.1 ≡ stale_lease) ⊎ (r.1 ≡ invalid_projection))

module _ (job : Job) (token : String) (now : ℕ) (st : State)
    (lost : any (is_fenced job.id token now) st.jobs ≡ false) where
  fenced_update-Refused :
      (f : Job → Job) (answer : ReportAnswer) → Refused st (fenced_update job token now f answer st)
  fenced_update-Refused f answer =
      let (a, b) = updated-none (is_fenced job.id token now) f st.jobs lost in
      rw (a, b) (refl, inl refl)

  emails-same :
      (p : Email → Bool) (f : Email → Email)
      → ((e : Email) → p e ≡ false)
      → update_emails p f st.emails ≡ st.emails
  emails-same p f h = (updated-none p f st.emails (any-none p st.emails h)).0

  success-Refused :
      (operation : Operation) (newer : Bool) (body : ResultBody) (error : Option String)
      → job.operation ≡ operation
      → Refused st (report_success job newer body token error now st)
  unfolding report_success
  success-Refused move newer body error e =
      let (a, c) =
        updated-none (is_fenced job.id token now) (as_done succeeded error now) st.jobs lost in
      elim (Option-cases (normalized_move_projection job body)) [
        | inl n ↦ simp (report_success, e, n) (refl, inr refl)
        | inr (place, n) ↦
            let b =
              emails-same (λ x. x.id === job.email_id && false) (as_placed place)
                (λ x. ground arith) in
            simp (report_success, e, n, lost, a, b, c) (refl, inl refl)
      ]
  success-Refused delete newer body error e =
      let (a, c) =
        updated-none (is_fenced job.id token now) (as_done succeeded error now) st.jobs lost in
      simp (report_success, e, lost, a, c) (refl, inl refl)
  success-Refused set_read newer body error e =
      let (a, c) =
        updated-none (is_fenced job.id token now) (as_done succeeded error now) st.jobs lost in
      let b =
        emails-same (λ x. x.id === job.email_id && false && not newer)
          (set_flag set_read (wants job.desired_value)) (λ x. ground arith) in
      simp (report_success, e, lost, a, b, c) (refl, inl refl)
  success-Refused set_starred newer body error e =
      let (a, c) =
        updated-none (is_fenced job.id token now) (as_done succeeded error now) st.jobs lost in
      let b =
        emails-same (λ x. x.id === job.email_id && false && not newer)
          (set_flag set_starred (wants job.desired_value)) (λ x. ground arith) in
      simp (report_success, e, lost, a, b, c) (refl, inl refl)

-- A report is fenced: where no job is being processed under its id and token with a lease that has not
-- run out, whatever it says, it is refused and nothing is written, neither a job nor a message.
pub report_write-Refused :
    (job : Job) (newer : Bool) (requested : Requested) (body : ResultBody) (token : String)
    (now : ℕ) (st : State)
    → any (is_fenced job.id token now) st.jobs ≡ false
    → Refused st (report_write job newer requested body token now st)
unfolding report_write
report_write-Refused job newer ask_succeeded body token now st h =
    success-Refused job token now st h job.operation newer body _ refl
report_write-Refused job newer ask_failed body token now st h =
    fenced_update-Refused job token now st h _ _
report_write-Refused job newer ask_unsupported body token now st h =
    fenced_update-Refused job token now st h _ _
report_write-Refused job newer ask_retry body token now st h =
    elim (Bool-cases (newer && not (is_location job.operation))) [
      | inl e ↦ rw e (fenced_update-Refused job token now st h _ _)
      | inr e ↦
          elim (Bool-cases (leb max_attempts job.attempts && not (is_location job.operation))) [
            | inl f ↦ rw (e, f) (fenced_update-Refused job token now st h _ _)
            | inr f ↦ rw (e, f) (fenced_update-Refused job token now st h _ _)
          ]
    ]
