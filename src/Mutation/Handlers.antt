-- ===== src/Mutation/Handlers.antt =====
-- worker/src/unified/mutation_jobs.ts: what a user asks of a message. `lower` stands for
-- `toLowerCase`.
use one_mail.Base.{
  ℕ, String, Option, none, some, List, [], ◌∷◌, Bool, true, false, not, ◌&&◌, ◌||◌, find, ◌==◌,
  ◌===◌, if◌then◌else◌, text_key,
}
use one_mail.Fleet.Contracts.{or_else}
use one_mail.Fleet.Parse.{codes}
use one_mail.Unified.ShardMap.{trim}
use one_mail.Mutation.{Operation, set_read, set_starred, move, delete, Email, State}
use one_mail.Mutation.Reports.{bounded_text, same_text}
use one_mail.Mutation.History.{Intent, queue_external_mutation, write, flag_write, drop_email_write}

abbrev prefixes : List ℕ → List ℕ → Bool
prefixes [] cs = true
prefixes (p ∷ ps) [] = false
prefixes (p ∷ ps) (c ∷ cs) = c == p && prefixes ps cs

-- `s.startsWith(prefix)`
abbrev starts_with : String → String → Bool
starts_with s prefix = prefixes (codes prefix) (codes s)

-- `a || b || ""`
abbrev pub text_or : Option String → String → String
text_or none s = s
text_or (some t) s = if t === "" then s else t

-- `!!a`
abbrev pub is_set : Option String → Bool
is_set none = false
is_set (some t) = not (t === "")

-- A folder of the mail account, as `resolveMoveTarget` finds it.
pub record Folder : Type 0 where
  pub canonical_name : String
  pub provider_folder_id : Option String

-- `inferMutationProvider`
unfoldable pub infer_mutation_provider : (String → String) → Email → String
infer_mutation_provider lower row =
    let explicit = lower (trim (text_or row.provider "")) in
    let key = lower (text_or row.source_key (text_or row.imap_uid "")) in
    let source = lower (text_or row.source "") in
    if not (explicit === "")
    then explicit
    else if starts_with key "graph:"
    then "graph"
    else if starts_with key "pop3:"
    then "pop3"
    else if not (key === "")
    then "imap"
    else if source === "cf_routing" || source === "cloudflare"
    then "native"
    else if source === "graph_outlook"
    then "graph"
    else if starts_with source "imap_"
    then "imap"
    else "unknown"

pub data Support : Type 0 where
  supported : (provider : String) → Support
  unsupported_by : (provider code : String) → Support

-- What `providerMutationSupport` says of a provider.
unfoldable pub support_for : String → Email → Support
support_for provider row =
    if provider === "native"
    then supported provider
    else if not (is_set row.account_id)
    then unsupported_by provider "missing_mail_account_identity"
    else if provider === "pop3"
    then unsupported_by provider "provider_write_unsupported"
    else if provider === "graph"
    then (if is_set row.provider_message_id
        then supported provider
        else unsupported_by provider "missing_provider_message_identity")
    else if provider === "imap"
    then (if is_set row.source_folder && (is_set row.source_key || is_set row.imap_uid)
        then supported provider
        else unsupported_by provider "missing_imap_message_identity")
    else unsupported_by provider "provider_write_unsupported"

-- `providerMutationSupport`
unfoldable pub provider_mutation_support : (String → String) → Email → Support
unfolding infer_mutation_provider support_for
provider_mutation_support lower row = support_for (infer_mutation_provider lower row) row

-- The answers to a user.
pub data Reply : Type 0 where
  missing forbidden bad_folder no_target : Reply
  refused : (provider code : String) (operation : Operation) → Reply
  done : (operation : Operation) → Reply
  queued : (id : String) (operation : Operation) → Reply

-- What `queueExternalMutation` puts into the row of a job.
abbrev pub intent_for :
    String → ℕ → Email → String → Operation → Option Bool → Option Folder → Intent
intent_for id now row provider operation desired target = record {
  id = id;
  email_id = row.id;
  account_id = row.account_id;
  source = row.source;
  to_addr = row.to_addr;
  provider = provider;
  operation = operation;
  desired_value = desired;
  source_folder = row.source_folder;
  source_folder_id = row.source_folder_id;
  target_folder = (elim target [ none ↦ none | some f ↦ some f.canonical_name ]);
  target_folder_id = (elim target [ none ↦ none | some f ↦ f.provider_folder_id ]);
  provider_message_id = row.provider_message_id;
  source_key = (if is_set row.source_key then row.source_key else row.imap_uid);
  message_id_header = row.message_id_header;
  now = now;
}

-- The row of a message, and whether the request may see it.
abbrev pub load : (Email → Bool) → String → State → (Email → State × Reply) → State × Reply
load allowed id st act = elim (find (λ (e : Email). e.id === id) st.emails) [
  | none ↦ (st, missing)
  | some row ↦ if allowed row then act row else (st, forbidden)
]

module _ (lower : String → String) (allowed : Email → Bool) (job_id : String) (now : ℕ) where
  -- `mutateMessageState`; without a desired value the flag is turned over.
  unfoldable pub mutate_message_state : Bool → Option Bool → String → State → State × Reply
  unfolding provider_mutation_support queue_external_mutation write
  mutate_message_state starred explicit id st = load allowed id st λ row.
      let operation = if starred then set_starred else set_read in
      let desired = or_else explicit (not (if starred then row.is_starred else row.is_read)) in
      elim (provider_mutation_support lower row) [
        | unsupported_by provider code ↦ (st, refused provider code operation)
        | supported provider ↦
            if provider === "native"
            then (write st (flag_write row.id operation desired), done operation)
            else (
              queue_external_mutation
                  (intent_for job_id now row provider operation (some desired) none) st,
              queued job_id operation,
            )
      ]

  -- The same folder: by the provider's ids where both are there, by name otherwise.
  abbrev pub same_folder : Email → Folder → Bool
  same_folder row target =
      if is_set target.provider_folder_id && is_set row.source_folder_id
      then same_text target.provider_folder_id row.source_folder_id
      else same_text (some target.canonical_name) row.source_folder

  -- The last step of a move, with the folder at hand.
  abbrev pub move_to : Email → String → Folder → State → State × Reply
  move_to row provider target st =
      if provider === "graph" && not (is_set (bounded_text target.provider_folder_id 2048))
      then (st, refused "graph" "missing_provider_folder_identity" move)
      else if same_folder row target
      then (st, done move)
      else (
        queue_external_mutation (intent_for job_id now row provider move none (some target)) st,
        queued job_id move,
      )

  -- `moveEmail`: `targets` is `resolveMoveTarget`, and a folder id that is no positive safe integer is
  -- `none`.
  unfoldable pub move_email :
      ((account provider : String) → ℕ → Option Folder) → Option ℕ → String → State → State × Reply
  unfolding provider_mutation_support queue_external_mutation bounded_text
  move_email targets folder_id id st = load allowed id st λ row.
      elim (provider_mutation_support lower row) [
        | unsupported_by provider code ↦ (st, refused provider code move)
        | supported provider ↦
            if provider === "native"
            then (st, refused "native" "native_folder_move_unsupported" move)
            else if provider === "imap" && not (is_set (bounded_text row.message_id_header 4096))
            then (st, refused "imap" "missing_imap_message_id" move)
            else if not (is_set row.account_id)
            then (st, bad_folder)
            else elim folder_id [
              | none ↦ (st, bad_folder)
              | some n ↦ elim (targets (text_or row.account_id "") provider n) [
                | none ↦ (st, no_target)
                | some target ↦ move_to row provider target st
              ]
            ]
      ]

  -- `deleteEmail`
  unfoldable pub delete_email : String → State → State × Reply
  unfolding provider_mutation_support queue_external_mutation write
  delete_email id st = load allowed id st λ row. elim (provider_mutation_support lower row) [
    | unsupported_by provider code ↦ (st, refused provider code delete)
    | supported provider ↦
        if provider === "native" then (write st (drop_email_write row.id), done delete) else (
          queue_external_mutation (intent_for job_id now row provider delete none none) st,
          queued job_id delete,
        )
  ]
