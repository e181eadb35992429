-- ===== src/Mutation.antt =====
-- worker/src/unified/mutation_jobs.ts: the rows of `emails` and `mail_mutation_jobs`, and the
-- selections and updates of jobs that its statements share.
pub mod Writes
pub mod Reports
pub mod History
pub mod Turns
pub mod Sound
pub mod Insertions
pub mod Leases
pub mod Order
pub mod Progress
pub mod Endpoints
pub mod Fence
pub mod Kept
pub mod Removals
pub mod Handlers
pub mod Supported
mod Tests
use one_mail.Base.{
  select, order_by, ℕ, zero, suc, ◌+◌, ◌-◌, String, Option, none, some, List, [], ◌∷◌, map, Bool,
  true, false, not, ◌&&◌, ◌||◌, Dict, any, find, ltb, leb, ◌==◌, ◌===◌, if◌then◌else◌, length,
  text_key,
}

-- `MailMutationOperation`
pub data Operation : Type 0 where
  set_read set_starred move delete : Operation

pub data JobStatus : Type 0 where
  pending processing succeeded failed unsupported superseded : JobStatus

abbrev pub is_pending : JobStatus → Bool
is_pending pending = true
is_pending _ = false

abbrev pub is_processing : JobStatus → Bool
is_processing processing = true
is_processing _ = false

abbrev pub is_superseded : JobStatus → Bool
is_superseded superseded = true
is_superseded _ = false

-- `isLocationOperation`
abbrev pub is_location : Operation → Bool
is_location move = true
is_location delete = true
is_location _ = false

abbrev pub same_operation : Operation → Operation → Bool
same_operation set_read set_read = true
same_operation set_starred set_starred = true
same_operation move move = true
same_operation delete delete = true
same_operation _ _ = false

-- The intents that replace each other.
abbrev pub same_kind : Operation → Operation → Bool
same_kind a b = if is_location a then is_location b else same_operation a b

-- `MutableEmailRow`; the two flags are whether the column is 1.
pub record Email : Type 0 where
  pub id : String
  pub source : Option String
  pub account_id : Option String
  pub to_addr : Option String
  pub is_read : Bool
  pub is_starred : Bool
  pub provider : Option String
  pub source_folder : Option String
  pub source_folder_id : Option String
  pub provider_message_id : Option String
  pub source_key : Option String
  pub imap_uid : Option String
  pub message_id_header : Option String

-- `MutationJobRow`, with its rowid. A desired value is 0, 1 or null.
pub record Job : Type 0 where
  pub rowid : ℕ
  pub id : String
  pub email_id : String
  pub account_id : Option String
  pub source : Option String
  pub to_addr : Option String
  pub provider : String
  pub operation : Operation
  pub desired_value : Option Bool
  pub source_folder : Option String
  pub source_folder_id : Option String
  pub target_folder : Option String
  pub target_folder_id : Option String
  pub provider_message_id : Option String
  pub source_key : Option String
  pub message_id_header : Option String
  pub status : JobStatus
  pub attempts : ℕ
  pub next_attempt_at : ℕ
  pub lease_token : Option String
  pub lease_until : Option ℕ
  pub last_error : Option String
  pub created_at : ℕ
  pub updated_at : ℕ
  pub completed_at : Option ℕ

-- The id and the email of a job that a claim has selected.
pub record Candidate : Type 0 where
  pub job : String
  pub email : String

-- The tables, and the candidates of the claims that have selected theirs, by the request.
pub record State : Type 0 where
  pub emails : List Email
  pub jobs : List Job
  pub claims : Dict String (List Candidate)

-- The number of rows that an update changes.
abbrev pub changed : (Job → Bool) → List Job → ℕ
changed p jobs = length (select p jobs)

abbrev largest : List Job → ℕ
largest [] = 0
largest (j ∷ jobs) = let rest = largest jobs in if ltb rest j.rowid then j.rowid else rest

-- The rowid that a new row takes.
abbrev pub next_rowid : List Job → ℕ
next_rowid jobs = largest jobs + 1

-- `rowid < (SELECT rowid FROM mail_mutation_jobs WHERE id = ?)`: no row, no comparison.
abbrev pub is_before : List Job → String → Job → Bool
is_before jobs id j = elim (find (λ (o : Job). o.id === id) jobs) [
  | none ↦ false
  | some o ↦ ltb j.rowid o.rowid
]

-- `rowid > (SELECT rowid FROM mail_mutation_jobs WHERE id = ?)`
abbrev pub is_after : List Job → String → Job → Bool
is_after jobs id j = elim (find (λ (o : Job). o.id === id) jobs) [
  | none ↦ false
  | some o ↦ ltb o.rowid j.rowid
]

-- A job of the email is being processed.
abbrev pub is_busy : List Job → String → Bool
is_busy jobs email = any (λ (p : Job). p.email_id === email && is_processing p.status) jobs

-- A job of the same email that is still pending came earlier.
abbrev pub is_blocked : List Job → Job → Bool
is_blocked jobs j =
    any (λ (e : Job). e.email_id === j.email_id && is_pending e.status && ltb e.rowid j.rowid) jobs

-- `ORDER BY created_at ASC, rowid ASC`
abbrev pub job_before : Job → Job → Bool
job_before a b =
    ltb a.created_at b.created_at || (a.created_at == b.created_at && ltb a.rowid b.rowid)

unfoldable pub order_jobs : List Job → List Job
unfolding order_by
order_jobs jobs = order_by job_before jobs
