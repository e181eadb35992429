-- ===== src/Mutation/Writes.antt =====
-- worker/src/unified/mutation_jobs.ts and mutation_claim_legacy.ts: the statements and batches that
-- write jobs, each as one step.
use one_mail.Base.{
  limit_to, select, updated, ℕ, ◌+◌, ◌*◌, String, Option, none, some, List, [], ◌∷◌, ◌++◌, map,
  Bool, true, false, not, ◌&&◌, ◌||◌, any, ltb, leb, ◌==◌, ◌===◌, if◌then◌else◌, text_key,
}
use one_mail.Mutation.{
  Operation, JobStatus, pending, processing, succeeded, superseded, is_pending, is_processing,
  is_location, same_kind, Job, Candidate, next_rowid, is_before, is_after, is_busy, is_blocked,
  order_jobs,
}

-- `MAX_ATTEMPTS`, `LEASE_MS`, `MAX_RETRY_MS`
abbrev pub max_attempts : ℕ
max_attempts = 5

abbrev pub lease_ms : ℕ
lease_ms = 60000

abbrev pub max_retry_ms : ℕ
max_retry_ms = 5 * 60000

-- The insertion of `queueExternalMutation`: a job that has no rowid yet.
unfoldable pub insert : Job → List Job → List Job
insert j jobs =
    if any (λ (o : Job). o.id === j.id) jobs
    then jobs
    else jobs ++ (record j { rowid = next_rowid jobs } ∷ [])

abbrev pub as_superseded : ℕ → Job → Job
as_superseded now j = record j { status = superseded; completed_at = some now; updated_at = now }

-- The condition of `supersedeOlderPendingIntent`.
abbrev pub is_older : List Job → String → Operation → String → Job → Bool
is_older jobs email operation id j =
    is_pending j.status
    && (j.email_id === email
        && same_kind operation j.operation
        && (not (is_location operation) || j.attempts == 0)
        && not (j.id === id)
        && is_before jobs id j)

-- `supersedeOlderPendingIntent`
unfoldable pub supersede_older : String → Operation → String → ℕ → List Job → List Job
supersede_older email operation id now jobs =
    updated (is_older jobs email operation id) (as_superseded now) jobs

abbrev pub is_past : ℕ → Option ℕ → Bool
is_past now none = false
is_past now (some until) = leb until now

abbrev pub has_expired : ℕ → Job → Bool
has_expired now j = is_processing j.status && is_past now j.lease_until

abbrev pub as_recovered : ℕ → Job → Job
as_recovered now j = record j {
  status = pending;
  lease_token = none;
  lease_until = none;
  updated_at = now;
}

-- A newer pending job of the same email and kind exists.
abbrev pub has_newer : List Job → Job → Bool
has_newer jobs j =
    any
      (λ (n : Job).
        n.email_id === j.email_id
        && same_kind j.operation n.operation
        && is_pending n.status
        && ltb j.rowid n.rowid)
      jobs

-- The two statements of `collapseDuplicatePendingIntents`.
abbrev pub is_duplicate : Bool → List Job → Job → Bool
is_duplicate locations jobs j =
    is_pending j.status
    && ((if locations
          then is_location j.operation && j.attempts == 0
          else not (is_location j.operation))
        && has_newer jobs j)

-- The first batch of `claimMutationJobs`; the older endpoint leaves out the last statement.
unfoldable pub recover : Bool → ℕ → List Job → List Job
recover legacy now jobs =
    let jobs₁ = updated (has_expired now) (as_recovered now) jobs in
    let jobs₂ = updated (is_duplicate false jobs₁) (as_superseded now) jobs₁ in
    if legacy then jobs₂ else updated (is_duplicate true jobs₂) (as_superseded now) jobs₂

-- The operations that an endpoint hands out.
abbrev pub hands_out : Bool → Operation → Bool
hands_out legacy operation = not legacy || not (is_location operation)

abbrev pub is_candidate : Bool → ℕ → List Job → Job → Bool
is_candidate legacy now jobs j =
    is_pending j.status
    && (hands_out legacy j.operation
        && leb j.next_attempt_at now
        && not (is_busy jobs j.email_id)
        && not (is_blocked jobs j))

-- The query for candidates.
unfoldable pub candidates : Bool → ℕ → ℕ → List Job → List Candidate
unfolding order_jobs
candidates legacy now requested jobs =
    map (λ j. record { job = j.id; email = j.email_id })
      (limit_to requested (order_jobs (select (is_candidate legacy now jobs) jobs)))

abbrev pub is_leasable : Bool → ℕ → List Job → Candidate → Job → Bool
is_leasable legacy now jobs c j =
    is_pending j.status
    && (j.id === c.job
        && leb j.next_attempt_at now
        && hands_out legacy j.operation
        && not (is_busy jobs c.email))

abbrev pub as_leased : String → ℕ → Job → Job
as_leased token now j = record j {
  status = processing;
  attempts = j.attempts + 1;
  lease_token = some token;
  lease_until = some (now + lease_ms);
  updated_at = now;
}

-- The second batch of `claimMutationJobs`: a statement sees the leases of those before it.
unfoldable pub lease_all : Bool → String → ℕ → List Candidate → List Job → List Job
lease_all legacy token now [] jobs = jobs
lease_all legacy token now (c ∷ cs) jobs =
    lease_all legacy token now cs
      (updated (is_leasable legacy now jobs c) (as_leased token now) jobs)

-- The fence of a report: the lease is held by the token and has not expired.
abbrev pub holds_token : String → Option String → Bool
holds_token token none = false
holds_token token (some t) = t === token

abbrev pub is_running : ℕ → Option ℕ → Bool
is_running now none = false
is_running now (some until) = ltb now until

abbrev pub is_fenced : String → String → ℕ → Job → Bool
is_fenced id token now j =
    is_processing j.status
    && (j.id === id && holds_token token j.lease_token && is_running now j.lease_until)

-- The outcomes that a report writes.
abbrev pub as_done : JobStatus → Option String → ℕ → Job → Job
as_done status error now j = record j {
  status = status;
  last_error = error;
  lease_token = none;
  lease_until = none;
  completed_at = some now;
  updated_at = now;
}

abbrev pub as_retried : ℕ → Option String → ℕ → Job → Job
as_retried at error now j = record j {
  status = pending;
  next_attempt_at = at;
  last_error = error;
  lease_token = none;
  lease_until = none;
  updated_at = now;
}

-- The new place of a moved message: `normalizedMoveProjection`.
pub record Place : Type 0 where
  pub folder : String
  pub folder_id : Option String
  pub key : String
  pub message_id : Option String

abbrev pub as_moved : Place → ℕ → Job → Job
as_moved p now j = record j {
  source_folder = some p.folder;
  source_folder_id = p.folder_id;
  source_key = some p.key;
  provider_message_id = p.message_id;
  updated_at = now;
}

-- The pending jobs of an email after a job.
abbrev pub is_later : List Job → String → String → Job → Bool
is_later jobs email id j = is_pending j.status && (j.email_id === email && is_after jobs id j)

abbrev pub or_text : Option String → String → Option String
or_text none s = some s
or_text (some t) s = some t

abbrev pub as_deleted : ℕ → Job → Job
as_deleted now j = record j {
  status = superseded;
  completed_at = some now;
  updated_at = now;
  last_error = or_text j.last_error "message deleted by earlier provider mutation";
}

-- The batch for a succeeded move, on the jobs.
unfoldable pub finish_move : Job → String → Place → Option String → ℕ → List Job → List Job
finish_move job token place error now jobs =
    let held = any (is_fenced job.id token now) jobs in
    let jobs₁ =
      if held
      then updated (is_later jobs job.email_id job.id) (as_moved place now) jobs
      else jobs in
    updated (is_fenced job.id token now) (as_done succeeded error now) jobs₁

-- The batch for a succeeded deletion, on the jobs.
unfoldable pub finish_delete : Job → String → Option String → ℕ → List Job → List Job
finish_delete job token error now jobs =
    let held = any (is_fenced job.id token now) jobs in
    let jobs₁ =
      if held then updated (is_later jobs job.email_id job.id) (as_deleted now) jobs else jobs in
    updated (is_fenced job.id token now) (as_done succeeded error now) jobs₁
