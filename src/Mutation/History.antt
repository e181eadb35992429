-- ===== src/Mutation/History.antt =====
-- worker/src/unified/mutation_jobs.ts: the writes of users, agents and claims in the order in which
-- the database runs them. A claim selects its candidates and leases them in two steps, a report
-- reads its job and writes in two, and other requests may write in between.
use one_mail.Base.{
  select, ℕ, String, Option, none, some, List, [], ◌∷◌, Bool, not, ◌&&◌, ◌||◌, get, put, find, ltb,
  ◌===◌, if◌then◌else◌, text_key,
}
use one_mail.Fleet.Contracts.{or_else}
use one_mail.Fleet.Parse.{codes, units}
use one_mail.Unified.ShardMap.{trim}
use one_mail.Mutation.{Operation, pending, is_location, Job, State, order_jobs, is_processing}
use one_mail.Mutation.Writes.{
  insert, supersede_older, recover, candidates, lease_all, is_fenced, holds_token,
}
use one_mail.Mutation.Reports.{
  Requested, ResultBody, ReportAnswer, stale_lease, invalid_result, update_emails, set_flag,
  drop_email, newer_intent_exists, report_write,
}

-- What `queueExternalMutation` puts into a new row.
pub record Intent : Type 0 where
  pub id : String
  pub email_id : String
  pub account_id : Option String
  pub source : Option String
  pub to_addr : Option String
  pub provider : String
  pub operation : Operation
  pub desired_value : Option Bool
  pub source_folder : Option String
  pub source_folder_id : Option String
  pub target_folder : Option String
  pub target_folder_id : Option String
  pub provider_message_id : Option String
  pub source_key : Option String
  pub message_id_header : Option String
  pub now : ℕ

-- The new row; the table gives it its rowid.
abbrev pub new_job : Intent → Job
new_job i = record {
  rowid = 0;
  id = i.id;
  email_id = i.email_id;
  account_id = i.account_id;
  source = i.source;
  to_addr = i.to_addr;
  provider = i.provider;
  operation = i.operation;
  desired_value = i.desired_value;
  source_folder = i.source_folder;
  source_folder_id = i.source_folder_id;
  target_folder = i.target_folder;
  target_folder_id = i.target_folder_id;
  provider_message_id = i.provider_message_id;
  source_key = i.source_key;
  message_id_header = i.message_id_header;
  status = pending;
  attempts = 0;
  next_attempt_at = 0;
  lease_token = none;
  lease_until = none;
  last_error = none;
  created_at = i.now;
  updated_at = i.now;
  completed_at = none;
}

pub data Write : Type 0 where
  insert_write : (intent : Intent) → Write
  supersede_write : (email : String) (operation : Operation) (id : String) (now : ℕ) → Write
  flag_write : (email : String) (operation : Operation) (desired : Bool) → Write
  drop_email_write : (email : String) → Write
  recover_write : (legacy : Bool) (now : ℕ) → Write
  select_write : (request : String) (legacy : Bool) (now limit : ℕ) → Write
  lease_write : (request : String) (legacy : Bool) (token : String) (now : ℕ) → Write
  result_write :
      (job : Job) (newer : Bool) (requested : Requested) (body : ResultBody) (token : String)
      (now : ℕ)
      → Write

unfoldable pub write : State → Write → State
unfolding insert supersede_older recover candidates lease_all report_write
write st (insert_write intent) = record st { jobs = insert (new_job intent) st.jobs }
write st (supersede_write email operation id now) = record st {
  jobs = supersede_older email operation id now st.jobs;
}
write st (flag_write email operation desired) = record st {
  emails = update_emails (λ e. e.id === email) (set_flag operation desired) st.emails;
}
write st (drop_email_write email) = record st { emails = drop_email email st.emails }
write st (recover_write legacy now) = record st { jobs = recover legacy now st.jobs }
write st (select_write request legacy now limit) = record st {
  claims = put st.claims request (candidates legacy now limit st.jobs);
}
write st (lease_write request legacy token now) = record st {
  jobs = lease_all legacy token now (or_else (get st.claims request) []) st.jobs;
}
write st (result_write job newer requested body token now) =
    (report_write job newer requested body token now st).0

unfoldable pub write_all : State → List Write → State
unfolding write
write_all st [] = st
write_all st (w ∷ ws) = write_all (write st w) ws

-- `claimMutationJobs`, and the older endpoint: other requests write between its query and its batch.
-- The body is checked before; `none` is its refusal.
unfoldable pub claim_mutation_jobs :
    Bool → String → Option String → Option ℕ → ℕ → List Write → State → State × Option (List Job)
unfolding write_all
claim_mutation_jobs legacy request token limit now others st = elim token [
  | none ↦ (st, none)
  | some raw ↦
      let t = trim raw in
      let n = or_else limit 0 in
      let st₁ =
        write_all (write (write st (recover_write legacy now)) (select_write request legacy now n))
          others in
      let st₂ = write st₁ (lease_write request legacy t now) in
      if t === "" || ltb 200 (units (codes t)) || ltb n 1 || ltb 50 n then (st, none) else (
        st₂,
        some (
            order_jobs (
              select
                (λ j.
                  is_processing j.status
                  && (holds_token t j.lease_token && (not legacy || not (is_location j.operation))))
                st₂.jobs)),
      )
]

-- `reportMutationResult`: other requests write between its queries and its write.
unfoldable pub report_mutation_result :
    String → ResultBody → ℕ → ℕ → List Write → State → State × ReportAnswer
unfolding write_all newer_intent_exists
report_mutation_result id body claim_now now others st =
    let token = trim (or_else body.lease_token "") in
    elim body.requested [
      | none ↦ (st, invalid_result)
      | some requested ↦
          if token === ""
          then (st, invalid_result)
          else elim (find (is_fenced id token claim_now) st.jobs) [
            | none ↦ (st, stale_lease)
            | some job ↦
                report_write job (newer_intent_exists st.jobs job) requested body token now
                  (write_all st others)
          ]
    ]

-- `queueExternalMutation`
unfoldable pub queue_external_mutation : Intent → State → State
unfolding write
queue_external_mutation i st =
    let st₁ =
      write (write st (insert_write i)) (supersede_write i.email_id i.operation i.id i.now) in
    elim i.desired_value [
      | none ↦ st₁
      | some desired ↦
          if is_location i.operation
          then st₁
          else write st₁ (flag_write i.email_id i.operation desired)
    ]
