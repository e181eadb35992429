-- ===== src/Send/Reroutes.antt =====
-- worker/src/mails_api/send_mail_limit_utils.ts: the idempotency keys of replies that Gmail sends, the
-- table `gmail_reroute_idempotency`, with the pruning of worker/src/unified/job_pruning.ts.
use one_mail.Base.{
  ℕ, ◌≡◌, inl, inr, String, none, some, List, [], ◌∷◌, Bool, true, false, not, ◌&&◌, Dict, get, put,
  delete, get-put, get-delete, ltb, ◌===◌, if◌then◌else◌, text_key, arith, Option-cases,
}

-- A row, under its key; an empty job id is a reservation whose job is not written yet.
pub record Reroute : Type 0 where
  pub request_hash : String
  pub job_id : String
  pub created_at : ℕ

abbrev pub is_open : Reroute → Bool
is_open r = r.job_id === ""

-- `SendMailIdempotencyReservation`
pub data Claimed : Type 0 where
  reserved : (owned : Bool) → Claimed
  replay : (job : String) → Claimed
  conflict : Claimed

abbrev pub claimed_before : Reroute → String → Claimed
claimed_before r hash =
    if not (r.request_hash === hash)
    then conflict
    else if is_open r
    then reserved false
    else replay r.job_id

-- `reserveSendMailIdempotency`: the primary key refuses a second row.
unfoldable pub reserve_idempotency :
    String → String → ℕ → Dict String Reroute → Dict String Reroute × Claimed
reserve_idempotency key hash now rows = elim (get rows key) [
  | none ↦
      (put rows key (record { request_hash = hash; job_id = ""; created_at = now }), reserved true)
  | some r ↦ (rows, claimed_before r hash)
]

-- `completeSendMailIdempotency`
unfoldable pub complete_idempotency : String → String → Dict String Reroute → Dict String Reroute
complete_idempotency key job rows = elim (get rows key) [
  | none ↦ rows
  | some r ↦ if is_open r then put rows key (record r { job_id = job }) else rows
]

-- `releaseSendMailIdempotency`
unfoldable pub release_idempotency : String → Dict String Reroute → Dict String Reroute
release_idempotency key rows = elim (get rows key) [
  | none ↦ rows
  | some r ↦ if is_open r then delete rows key else rows
]

-- The third statement of `pruneTerminalJobs`, on one of the rows that its limit lets it take.
unfoldable pub prune_reservation : ℕ → String → Dict String Reroute → Dict String Reroute
prune_reservation cutoff key rows = elim (get rows key) [
  | none ↦ rows
  | some r ↦ if is_open r && ltb r.created_at cutoff then delete rows key else rows
]

pub data Step : Type 0 where
  reserve_step : (key hash : String) (now : ℕ) → Step
  complete_step : (key job : String) → Step
  release_step : (key : String) → Step
  prune_step : (cutoff : ℕ) (key : String) → Step

unfoldable pub step : Dict String Reroute → Step → Dict String Reroute
unfolding reserve_idempotency complete_idempotency release_idempotency prune_reservation
step rows (reserve_step key hash now) = (reserve_idempotency key hash now rows).0
step rows (complete_step key job) = complete_idempotency key job rows
step rows (release_step key) = release_idempotency key rows
step rows (prune_step cutoff key) = prune_reservation cutoff key rows

unfoldable pub step_all : Dict String Reroute → List Step → Dict String Reroute
unfolding step
step_all rows [] = rows
step_all rows (s ∷ ss) = step_all (step rows s) ss

module _ (rows : Dict String Reroute) (key : String) (r : Reroute) (held : get rows key ≡ some r)
    (written : is_open r ≡ false) where
  -- Another row at a key: it is another key, or this row, whose job is written.
  step-held : (s : Step) → get (step rows s) key ≡ some r
  unfolding step reserve_idempotency complete_idempotency release_idempotency prune_reservation
  step-held (reserve_step k hash now) =
      ground
        (arith, get-put rows k key (record { request_hash = hash; job_id = ""; created_at = now }))
  step-held (complete_step k job) = elim (Option-cases (get rows k)) [
    | inl n ↦ ground (arith, held, n)
    | inr (q, n) ↦ ground (arith, held, written, n, get-put rows k key (record q { job_id = job }))
  ]
  step-held (release_step k) = elim (Option-cases (get rows k)) [
    | inl n ↦ ground (arith, held, n)
    | inr (q, n) ↦ ground (arith, held, written, n, get-delete rows k key)
  ]
  step-held (prune_step cutoff k) = elim (Option-cases (get rows k)) [
    | inl n ↦ ground (arith, held, n)
    | inr (q, n) ↦ ground (arith, held, written, n, get-delete rows k key)
  ]

step_all-held :
    (rows : Dict String Reroute) (ss : List Step) (key : String) (r : Reroute)
    → get rows key ≡ some r
    → is_open r ≡ false
    → get (step_all rows ss) key ≡ some r
unfolding step_all
step_all-held rows [] key r h w = h
step_all-held rows (s ∷ ss) key r h w =
    step_all-held (step rows s) ss key r (step-held rows key r h w s) w

-- A reply is sent once for a key: when its job is written, then after any sequence of reservations,
-- completions, releases and prunings the same request gets that job again, another request is a
-- conflict, and no request gets the key for itself.
pub step_all-replays :
    (rows : Dict String Reroute) (ss : List Step) (key hash : String) (now : ℕ) (r : Reroute)
    → get rows key ≡ some r
    → is_open r ≡ false
    → (reserve_idempotency key hash now (step_all rows ss)).1
      ≡ (if r.request_hash === hash then replay r.job_id else conflict)
unfolding reserve_idempotency
step_all-replays rows ss key hash now r h w =
    let e = step_all-held rows ss key r h w in rw (reserve_idempotency, e) (ground (arith, w))
