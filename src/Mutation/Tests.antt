-- ===== src/Mutation/Tests.antt =====
-- worker/src/unified/mutation_jobs.ts: two jobs of one message, and requests about it.
use one_mail.Base.{
  ◌⊎◌, ℕ, ◌≤◌, ◌≡◌, ◌≢◌, refl, inl, inr, String, Option, none, some, List, [], ◌∷◌, true, false, In,
  text_key, same-ne, subst, sym, get, put, order_by, insert_by, ◌<◌, text_dec, arith,
}
use one_mail.Mutation.{
  is_processing, is_location, set_starred, order_jobs, Operation, set_read, move, delete,
  processing, Email, Job, State,
}
use one_mail.Mutation.Writes.{insert, recover, candidates, lease_all}
use one_mail.Mutation.Reports.{ask_succeeded, ResultBody, no_delay, report_write}
use one_mail.Mutation.History.{
  Intent, new_job, Write, insert_write, recover_write, select_write, lease_write, result_write,
  write, write_all, claim_mutation_jobs,
}
use one_mail.Mutation.Turns.{is_live, leads}
use one_mail.Mutation.Sound.{Sound}
use one_mail.Mutation.Endpoints.{claim_mutation_jobs-agrees}
use one_mail.Mutation.Progress.{HeldBy, lease_write-progress}
use one_mail.Mutation.Order.{Ordered, write_all-exclusive}
use one_mail.Mutation.Kept.{Stands}
use one_mail.Mutation.Removals.{
  Event, writes, prunes, purges, happen_all, Removed, happen_all-Stands,
}
use one_mail.Mutation.Fence.{Refused, report_write-Refused}
use one_mail.Mutation.Handlers.{Folder, mutate_message_state, move_email, delete_email}
use one_mail.Mutation.Supported.{Unchanged, handlers-Unchanged}

abbrev message : Email
message = record {
  id = "e";
  source = none;
  account_id = some "acc";
  to_addr = none;
  is_read = false;
  is_starred = false;
  provider = some "imap";
  source_folder = some "INBOX";
  source_folder_id = none;
  provider_message_id = none;
  source_key = some "k";
  imap_uid = none;
  message_id_header = some "<m>";
}

abbrev intent : String → Operation → Intent
intent id operation = record {
  id = id;
  email_id = "e";
  account_id = some "acc";
  source = none;
  to_addr = none;
  provider = "imap";
  operation = operation;
  desired_value = none;
  source_folder = some "INBOX";
  source_folder_id = none;
  target_folder = none;
  target_folder_id = none;
  provider_message_id = none;
  source_key = some "k";
  message_id_header = some "<m>";
  now = 10;
}

-- The first job is being processed under a lease, the second waits.
abbrev moving : Job
moving = record (new_job (intent "a" move)) {
  rowid = 1;
  status = processing;
  attempts = 1;
  lease_token = some "t";
  lease_until = some 60020;
  updated_at = 20;
}

abbrev deleting : Job
deleting = record (new_job (intent "b" delete)) { rowid = 2 }

abbrev start : State
start = record { emails = message ∷ []; jobs = moving ∷ deleting ∷ []; claims = [] }

-- What holds of two jobs holds of every job in a table of them.
for_both : {i j : Job} (P : Job → Type 0) → P i → P j → (k : Job) → In k (i ∷ j ∷ []) → P k
for_both P a b k (inl e) = subst P e a
for_both P a b k (inr (inl e)) = subst P e b
for_both P a b k (inr (inr i)) = elim i [ ]

other_id : moving.id ≢ deleting.id
unfolding text_dec
other_id = same-ne "a" "b" refl

start-Ordered : Ordered start
unfolding get
start-Ordered = record {
  sound = record {
    ascending = (
      (λ k i. elim i [
        | inl e ↦ subst (λ x. (1 < x.rowid) × ("a" ≢ x.id)) e (omega arith, other_id)
        | inr j ↦ elim j [ ]
      ]),
      ((λ k i. elim i [ ]), tt),
    );
    started = for_both _ (λ h. refl) (λ h. cc);
    first = λ j k x y l m e.
        for_both (λ u. leads u ≡ true → u.rowid ≤ k.rowid)
          (λ a. for_both (λ v. 1 ≤ v.rowid) (omega arith) (omega arith) k y) (λ a. cc) j x l;
  };
  ready = λ q c i. elim i [ ];
}

-- A third job comes, and an agent asks for work while the first is under way.
abbrev history : List Write
history =
    insert_write (intent "c" set_read)
    ∷ recover_write false 30
    ∷ select_write "r" false 30 20
    ∷ lease_write "r" false "u" 31
    ∷ []

abbrev reading : Job
reading = record (new_job (intent "c" set_read)) { rowid = 3 }

history-jobs : (write_all start history).jobs ≡ moving ∷ deleting ∷ reading ∷ []
unfolding write_all write insert recover candidates lease_all order_jobs order_by insert_by get put
    text_dec
history-jobs = refl

write_all-exclusive_example :
    (leads moving ≡ true → is_live reading.status ≡ true → 1 ≤ 3)
    × (is_processing moving.status ≡ true → is_processing reading.status ≡ true → moving ≡ reading)
write_all-exclusive_example =
    write_all-exclusive start history moving reading start-Ordered
      (subst (In moving) (sym history-jobs) (inl refl))
      (subst (In reading) (sym history-jobs) (inr (inr (inl refl)))) refl

abbrev body : ResultBody
body = record {
  lease_token = some "t";
  requested = some ask_succeeded;
  error = none;
  retry_after = no_delay;
  source_folder = none;
  source_folder_id = none;
  source_key = none;
  provider_message_id = none;
}

-- The first job ends and is pruned after a month, and an account is purged.
abbrev events : List Event
events =
    writes (insert_write (intent "c" set_read))
    ∷ writes (result_write moving false ask_succeeded body "t" 1000)
    ∷ prunes 3000000000 30 500 (1 ∷ 2 ∷ [])
    ∷ purges ("other" ∷ [])
    ∷ []

happen_all-Stands_example :
    Stands moving (happen_all start events).jobs ⊎ Removed moving start events
happen_all-Stands_example =
    happen_all-Stands start events moving start-Ordered.sound.ascending (inl refl)

-- The lease of the first job ran out at 60020.
report_write-Refused_example :
    Refused start (report_write moving false ask_succeeded body "t" 60020 start)
unfolding text_dec
report_write-Refused_example =
    report_write-Refused moving false ask_succeeded body "t" 60020 start refl

abbrev unchanged_case : String → String
unchanged_case s = s

abbrev targets : (account provider : String) → ℕ → Option Folder
targets account provider n = none

handlers-Unchanged_example :
    Unchanged start (mutate_message_state unchanged_case (λ e. false) "j" 40 true none "e" start)
    × Unchanged start (move_email unchanged_case (λ e. false) "j" 40 targets (some 3) "e" start)
    × Unchanged start (delete_email unchanged_case (λ e. false) "j" 40 "e" start)
handlers-Unchanged_example =
    handlers-Unchanged unchanged_case (λ e. false) "j" 40 "e" start true none targets (some 3)

-- The two jobs wait, and an agent asks for work.
abbrev waiting : Job
waiting = record (new_job (intent "a" move)) { rowid = 1 }

abbrev queue : State
queue = record { emails = message ∷ []; jobs = waiting ∷ deleting ∷ []; claims = [] }

queue-Sound : Sound queue.jobs
queue-Sound = record {
  ascending = (
    (λ k i. elim i [
      | inl e ↦ subst (λ x. (1 < x.rowid) × ("a" ≢ x.id)) e (omega arith, other_id)
      | inr j ↦ elim j [ ]
    ]),
    ((λ k i. elim i [ ]), tt),
  );
  started = for_both _ (λ h. cc) (λ h. cc);
  first =
      λ j k x y l m e. for_both (λ u. leads u ≡ true → u.rowid ≤ k.rowid) (λ a. cc) (λ a. cc) j x l;
}

lease_write-progress_example :
    (k : Job) × In k
      (write (write queue (select_write "r" false 30 1)) (lease_write "r" false "u" 30)).jobs
    × (k.id ≡ "a")
    × HeldBy "u" 30 k
unfolding text_dec
lease_write-progress_example =
    lease_write-progress queue "r" "u" false 30 1 waiting queue-Sound (inl refl) refl (omega arith)

-- A flag waits, and another is queued while an agent asks for work.
abbrev flags : State
flags = record {
  emails = message ∷ [];
  jobs = record (new_job (intent "a" set_read)) { rowid = 1 } ∷ [];
  claims = [];
}

abbrev starring : List Write
starring = insert_write (intent "b" set_starred) ∷ []

claim_mutation_jobs-agrees_example :
    claim_mutation_jobs true "r" (some "t") (some 20) 30 starring flags
    ≡ claim_mutation_jobs false "r" (some "t") (some 20) 30 starring flags
claim_mutation_jobs-agrees_example =
    claim_mutation_jobs-agrees "r" (some "t") (some 20) 30 starring flags
      (λ k i. elim i [
        | inl e ↦ subst (λ (x : Job). is_location x.operation ≡ false) e refl
        | inr n ↦ elim n [ ]
      ])
      refl
