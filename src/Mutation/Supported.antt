-- ===== src/Mutation/Supported.antt =====
-- worker/src/unified/mutation_jobs.ts: what a user's request may change.
use one_mail.Base.{
  ℕ, ◌≡◌, ◌⊎◌, inl, inr, refl, String, Option, none, some, Bool, true, false, not, ◌&&◌, find,
  ◌===◌, text_key, arith, Bool-cases, Option-cases,
}
use one_mail.Mutation.{Email, State}
use one_mail.Mutation.Reports.{bounded_text}
use one_mail.Mutation.Handlers.{
  is_set, Support, supported, unsupported_by, provider_mutation_support, Reply, missing, forbidden,
  bad_folder, no_target, refused, load, move_to, same_folder, text_or, mutate_message_state,
  move_email, delete_email, Folder,
}

-- The answers that refuse a request.
abbrev pub rejects : Reply → Bool
rejects missing = true
rejects forbidden = true
rejects bad_folder = true
rejects no_target = true
rejects (refused provider code operation) = true
rejects _ = false

abbrev pub Unchanged : State → State × Reply → Type 0
Unchanged st r = rejects r.1 ≡ true → r.0 ≡ st

load-Unchanged :
    (allowed : Email → Bool) (id : String) (st : State) (act : Email → State × Reply)
    → ((row : Email) → Unchanged st (act row))
    → Unchanged st (load allowed id st act)
load-Unchanged allowed id st act h =
    elim (Option-cases (find (λ (e : Email). e.id === id) st.emails)) [
      | inl n ↦ rw (load, n) (λ r. refl)
      | inr (row, n) ↦ elim (Bool-cases (allowed row)) [
        | inl a ↦ rw (load, n, a) (h row)
        | inr a ↦ rw (load, n, a) (λ r. refl)
      ]
    ]

Support-cases :
    (s : Support)
    → ((p : String) × (s ≡ supported p)) ⊎ ((p : String) × (c : String) × (s ≡ unsupported_by p c))
Support-cases (supported p) = inl (p, refl)
Support-cases (unsupported_by p c) = inr (p, c, refl)

module _ (lower : String → String) (allowed : Email → Bool) (job_id : String) (now : ℕ)
    (id : String) (st : State) where
  delete_email-Unchanged : Unchanged st (delete_email lower allowed job_id now id st)
  unfolding delete_email
  delete_email-Unchanged = load-Unchanged allowed id st _ λ row.
      elim (Support-cases (provider_mutation_support lower row)) [
        | inr (p, c, e) ↦ rw e (λ r. refl)
        | inl (p, e) ↦ elim (Bool-cases (p === "native")) [
          | inl n ↦ rw (e, n) (λ r. cc)
          | inr n ↦ rw (e, n) (λ r. cc)
        ]
      ]

  mutate_message_state-Unchanged :
      (starred : Bool) (explicit : Option Bool)
      → Unchanged st (mutate_message_state lower allowed job_id now starred explicit id st)
  unfolding mutate_message_state
  mutate_message_state-Unchanged starred explicit = load-Unchanged allowed id st _ λ row.
      elim (Support-cases (provider_mutation_support lower row)) [
        | inr (p, c, e) ↦ rw e (λ r. refl)
        | inl (p, e) ↦ elim (Bool-cases (p === "native")) [
          | inl n ↦ rw (e, n) (λ r. cc)
          | inr n ↦ rw (e, n) (λ r. cc)
        ]
      ]

  move_to-Unchanged :
      (row : Email) (p : String) (target : Folder)
      → Unchanged st (move_to lower allowed job_id now row p target st)
  move_to-Unchanged row p target =
      elim (Bool-cases
        (p === "graph" && not (is_set (bounded_text target.provider_folder_id 2048)))) [
          | inl a ↦ rw a (λ r. refl)
          | inr a ↦ elim (Bool-cases (same_folder lower allowed job_id now row target)) [
            | inl b ↦ rw (a, b) (λ r. refl)
            | inr b ↦ rw (a, b) (λ r. cc)
          ]
        ]

  move_email-Unchanged :
      (targets : (account provider : String) → ℕ → Option Folder) (folder_id : Option ℕ)
      → Unchanged st (move_email lower allowed job_id now targets folder_id id st)
  unfolding move_email
  move_email-Unchanged targets none = load-Unchanged allowed id st _ λ row.
      elim (Support-cases (provider_mutation_support lower row)) [
        | inr (p, c, e) ↦ rw e (λ r. refl)
        | inl (p, e) ↦ rw e (ground arith)
      ]
  move_email-Unchanged targets (some n) = load-Unchanged allowed id st _ λ row.
      elim (Support-cases (provider_mutation_support lower row)) [
        | inr (p, c, e) ↦ rw e (λ r. refl)
        | inl (p, e) ↦ elim (Option-cases (targets (text_or row.account_id "") p n)) [
          | inl t ↦ rw (e, t) (ground arith)
          | inr (target, t) ↦
              let m = move_to-Unchanged row p target in rw (e, t) (ground (arith, m))
        ]
      ]

  -- A request that is refused changes nothing: where a change of a flag, a move or a deletion answers that
  -- the message or folder is missing, the access forbidden or the provider unable, every message, job
  -- and claim is as it was.
  pub handlers-Unchanged :
      (starred : Bool) (explicit : Option Bool)
      (targets : (account provider : String) → ℕ → Option Folder) (folder_id : Option ℕ)
      → Unchanged st (mutate_message_state lower allowed job_id now starred explicit id st)
        × Unchanged st (move_email lower allowed job_id now targets folder_id id st)
        × Unchanged st (delete_email lower allowed job_id now id st)
  handlers-Unchanged starred explicit targets folder_id = (
    mutate_message_state-Unchanged starred explicit,
    move_email-Unchanged targets folder_id,
    delete_email-Unchanged,
  )
