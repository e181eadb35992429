-- ===== src/Mutation/Reports.antt =====
-- worker/src/unified/mutation_jobs.ts: `reportMutationResult`, what an agent says of a leased job.
use one_mail.Base.{
  updated, ℕ, ◌+◌, ◌-◌, ◌*◌, ◌^◌, String, Option, none, some, List, [], ◌∷◌, map, Bool, true, false,
  not, ◌&&◌, ◌||◌, any, ltb, leb, ◌==◌, ◌===◌, if◌then◌else◌, text_key,
}
use one_mail.Fleet.Parse.{codes, units}
use one_mail.Unified.ShardMap.{trim}
use one_mail.Mutation.{
  Operation, set_read, move, delete, JobStatus, succeeded, failed, unsupported, superseded,
  is_superseded, is_location, same_kind, Email, Job, State, changed, is_after,
}
use one_mail.Mutation.Writes.{
  max_attempts, max_retry_ms, is_fenced, as_done, as_retried, Place, finish_move, finish_delete,
}

-- A text of the body, if it is one: `boundedText`.
unfoldable pub bounded_text : Option String → ℕ → Option String
bounded_text none max = none
bounded_text (some s) max =
    let t = trim s in if t === "" || ltb max (units (codes t)) then none else some t

-- A delay that was asked for: none, a whole number, a negative one, or one that is not finite.
pub data Delay : Type 0 where
  no_delay negative not_finite : Delay
  whole : ℕ → Delay

pub data Requested : Type 0 where
  ask_retry : Requested
  ask_succeeded ask_failed ask_unsupported : Requested

-- `MutationResultBody`: what is no text or no known status is `none`. The error is cut to 500
-- characters before.
pub record ResultBody : Type 0 where
  pub lease_token : Option String
  pub requested : Option Requested
  pub error : Option String
  pub retry_after : Delay
  pub source_folder : Option String
  pub source_folder_id : Option String
  pub source_key : Option String
  pub provider_message_id : Option String

-- The answers of a report.
pub data ReportAnswer : Type 0 where
  invalid_result stale_lease invalid_projection : ReportAnswer
  reported : JobStatus → ReportAnswer
  retried : (at : ℕ) → ReportAnswer

abbrev pub is_text : Option String → String → Bool
is_text none s = false
is_text (some t) s = t === s

abbrev pub same_text : Option String → Option String → Bool
same_text (some a) (some b) = a === b
same_text none none = true
same_text _ _ = false

abbrev is_given : Option String → Bool
is_given none = false
is_given (some s) = not (s === "")

-- The place of a message that an IMAP provider has moved: the key must be a new one.
abbrev imap_place : Job → String → String → Option Place
imap_place job folder key =
    if is_text job.source_key key
    then none
    else some (record {
      folder = folder;
      folder_id = none;
      key = key;
      message_id = job.provider_message_id;
    })

-- The place of a message that Graph has moved: the folder is the target and the message keeps its id.
abbrev graph_place : Job → ResultBody → String → String → Option Place
graph_place job body folder key =
    let folder_id = bounded_text body.source_folder_id 2048 in
    let message_id = bounded_text body.provider_message_id 4096 in
    if not (is_given job.target_folder_id)
      || not (same_text folder_id job.target_folder_id)
      || not (is_given job.provider_message_id)
      || not (same_text message_id job.provider_message_id)
    then none
    else some
        (record { folder = folder; folder_id = folder_id; key = key; message_id = message_id })

-- `normalizedMoveProjection`
unfoldable pub normalized_move_projection : Job → ResultBody → Option Place
unfolding bounded_text
normalized_move_projection job body = elim (bounded_text body.source_folder 1024) [
  | none ↦ none
  | some folder ↦
      if not (is_text job.target_folder folder)
      then none
      else elim (bounded_text body.source_key 4096) [
        | none ↦ none
        | some key ↦
            if job.provider === "imap"
            then imap_place job folder key
            else if job.provider === "graph"
            then graph_place job body folder key
            else none
      ]
]

-- `newerIntentExists`
unfoldable pub newer_intent_exists : List Job → Job → Bool
newer_intent_exists jobs job =
    any
      (λ (n : Job).
        n.email_id === job.email_id
        && same_kind job.operation n.operation
        && is_after jobs job.id n
        && not (is_superseded n.status))
      jobs

-- The delay of a retry: between a second and five minutes.
abbrev pub clamp : ℕ → ℕ
clamp ms = if ltb max_retry_ms ms then max_retry_ms else if ltb ms 1000 then 1000 else ms

unfoldable pub retry_after : Delay → ℕ → ℕ
retry_after no_delay attempts = clamp (5000 * 2 ^ (attempts - 1))
retry_after negative attempts = 1000
retry_after not_finite attempts = 5000
retry_after (whole ms) attempts = clamp ms

abbrev pub update_emails : (Email → Bool) → (Email → Email) → List Email → List Email
update_emails p f emails = map (λ e. if p e then f e else e) emails

abbrev or_default : Option String → String → String
or_default none s = s
or_default (some t) s = if t === "" then s else t

abbrev is_key : Option String → Option String
is_key none = none
is_key (some s) = if s === "" then none else some s

-- One statement on the fenced job, and the answer if it changed a row.
abbrev pub fenced_update :
    Job → String → ℕ → (Job → Job) → ReportAnswer → State → State × ReportAnswer
fenced_update job token now f answer st =
    let p = is_fenced job.id token now in
    (
      record st { jobs = updated p f st.jobs },
      (if changed p st.jobs == 1 then answer else stale_lease),
    )

abbrev pub set_flag : Operation → Bool → Email → Email
set_flag set_read b e = record e { is_read = b }
set_flag _ b e = record e { is_starred = b }

abbrev pub as_placed : Place → Email → Email
as_placed p e = record e {
  source_folder = some p.folder;
  source_folder_id = p.folder_id;
  source_key = some p.key;
  provider_message_id = p.message_id;
  imap_uid = if is_text e.provider "imap" then some p.key else e.imap_uid;
}

abbrev pub wants : Option Bool → Bool
wants (some true) = true
wants _ = false

-- `DELETE FROM emails WHERE id = ?`
abbrev pub drop_email : String → List Email → List Email
drop_email id [] = []
drop_email id (e ∷ emails) =
    let rest = drop_email id emails in if e.id === id then rest else e ∷ rest

-- A succeeded report. `newer` is what `newerIntentExists` said.
unfoldable pub report_success :
    Job → Bool → ResultBody → String → Option String → ℕ → State → State × ReportAnswer
unfolding finish_move finish_delete normalized_move_projection
report_success job newer body token error now st =
    let p = is_fenced job.id token now in
    let held = any p st.jobs in
    let answer = if changed p st.jobs == 1 then reported succeeded else stale_lease in
    elim job.operation [
      | move ↦ elim (normalized_move_projection job body) [
        | none ↦ (st, invalid_projection)
        | some place ↦ (
          record st {
            emails = update_emails (λ e. e.id === job.email_id && held) (as_placed place) st.emails;
            jobs = finish_move job token place error now st.jobs;
          },
          answer,
        )
      ]
      | delete ↦ (
        record st {
          emails = (elim held [ true ↦ drop_email job.email_id st.emails | false ↦ st.emails ]);
          jobs = finish_delete job token error now st.jobs;
        },
        answer,
      )
      | flag ↦ (
        record st {
          emails =
              update_emails (λ e. e.id === job.email_id && held && not newer)
                (set_flag flag (wants job.desired_value)) st.emails;
          jobs = updated p (as_done succeeded error now) st.jobs;
        },
        answer,
      )
    ]

-- The write of a report, for the job and the newer intent that its queries found.
unfoldable pub report_write :
    Job → Bool → Requested → ResultBody → String → ℕ → State → State × ReportAnswer
unfolding report_success retry_after
report_write job newer ask_retry body token now st =
    let error = is_key body.error in
    let at = now + retry_after body.retry_after job.attempts in
    if newer && not (is_location job.operation)
    then fenced_update job token now (as_done superseded error now) (reported superseded) st
    else if leb max_attempts job.attempts && not (is_location job.operation)
    then fenced_update job token now
        (as_done failed (some (or_default error "retry limit exceeded")) now) (reported failed) st
    else fenced_update job token now (as_retried at error now) (retried at) st
report_write job newer ask_failed body token now st =
    fenced_update job token now (as_done failed (is_key body.error) now) (reported failed) st
report_write job newer ask_unsupported body token now st =
    fenced_update job token now (as_done unsupported (is_key body.error) now) (reported unsupported)
      st
report_write job newer ask_succeeded body token now st =
    report_success job newer body token (is_key body.error) now st
