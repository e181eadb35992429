-- ===== src/Mutation/Endpoints.antt =====
-- worker/src/unified/mutation_jobs.ts and mutation_claim_legacy.ts: the two endpoints of claims on a
-- queue of read and star flags.
use one_mail.Base.{
  ℕ, ◌≡◌, inl, inr, refl, sym, ap, ◌∙◌, String, Option, none, some, List, [], ◌∷◌, map, Bool, true,
  false, not, ◌&&◌, ◌||◌, get, put, In, In-updated_inv, In-append, updated, updated-same,
  updated-cong, select, select-cong, limit_to, ltb, ◌===◌, if◌then◌else◌, text_key, arith,
  Bool-cases, any,
}
use one_mail.Fleet.Contracts.{or_else}
use one_mail.Fleet.Parse.{codes, units}
use one_mail.Unified.ShardMap.{trim}
use one_mail.Mutation.{is_processing, is_location, Job, Candidate, State, order_jobs}
use one_mail.Mutation.Writes.{
  holds_token, insert, recover, as_superseded, is_duplicate, is_candidate, candidates, is_leasable,
  as_leased, lease_all,
}
use one_mail.Mutation.Turns.{
  Calm, same, calms, after, image, supersede_older-Calm, recover-Calm, report_write-Calm,
}
use one_mail.Mutation.Sound.{origin}
use one_mail.Mutation.History.{
  Intent, new_job, Write, insert_write, supersede_write, flag_write, drop_email_write,
  recover_write, select_write, lease_write, result_write, write, write_all, claim_mutation_jobs,
}

-- The queue holds no move and no deletion.
abbrev pub FlagsOnly : List Job → Type 0
FlagsOnly jobs = (j : Job) → In j jobs → is_location j.operation ≡ false

-- A write that queues no move and no deletion.
abbrev pub queues_flags : Write → Bool
queues_flags (insert_write i) = not (is_location i.operation)
queues_flags _ = true

abbrev pub all_queue_flags : List Write → Bool
all_queue_flags [] = true
all_queue_flags (w ∷ ws) = queues_flags w && all_queue_flags ws

Calm-FlagsOnly : (a b : List Job) → Calm a b → FlagsOnly a → FlagsOnly b
Calm-FlagsOnly a b (same _) h = h
Calm-FlagsOnly a b (calms p f _ q) h =
    λ k i. let (j, x, v) = origin p f a q k i in ap is_location v.same_operation ∙ h j x
Calm-FlagsOnly a c (after _ b _ x y) h = Calm-FlagsOnly b c y (Calm-FlagsOnly a b x h)

module _ (legacy : Bool) (token : String) (now : ℕ) where
  leased-FlagsOnly :
      (c : Candidate) (jobs : List Job)
      → FlagsOnly jobs
      → FlagsOnly (updated (is_leasable legacy now jobs c) (as_leased token now) jobs)
  leased-FlagsOnly c jobs h k i =
      let p = is_leasable legacy now jobs c in
      let (j, x, e) = In-updated_inv p (as_leased token now) jobs k i in
      let o : (image p (as_leased token now) j).operation ≡ j.operation = elim (Bool-cases (p j)) [
        | inl q ↦ rw q refl
        | inr q ↦ rw q refl
      ] in
      sym (ap (λ z. is_location z.operation) e) ∙ ap is_location o ∙ h j x

  lease_all-FlagsOnly :
      (cs : List Candidate) (jobs : List Job)
      → FlagsOnly jobs
      → FlagsOnly (lease_all legacy token now cs jobs)
  unfolding lease_all
  lease_all-FlagsOnly [] jobs h = h
  lease_all-FlagsOnly (c ∷ cs) jobs h = lease_all-FlagsOnly cs _ (leased-FlagsOnly c jobs h)

insert-FlagsOnly :
    (i : Intent) (jobs : List Job)
    → is_location i.operation ≡ false
    → FlagsOnly jobs
    → FlagsOnly (insert (new_job i) jobs)
unfolding insert
insert-FlagsOnly i jobs e h = elim (Bool-cases (any (λ (o : Job). o.id === i.id) jobs)) [
  | inl q ↦ rw q h
  | inr q ↦ rw q (λ k x. elim (In-append jobs _ k x) [
    | inl y ↦ h k y
    | inr (inl y) ↦ sym (ap (λ z. is_location z.operation) y) ∙ e
    | inr (inr y) ↦ elim y [ ]
  ])
]

write-FlagsOnly :
    (st : State) (w : Write)
    → queues_flags w ≡ true
    → FlagsOnly st.jobs
    → FlagsOnly (write st w).jobs
unfolding write
write-FlagsOnly st (insert_write i) q h = insert-FlagsOnly i st.jobs (ground arith) h
write-FlagsOnly st (supersede_write email operation id now) q h =
    Calm-FlagsOnly st.jobs _ (supersede_older-Calm email operation id now st.jobs) h
write-FlagsOnly st (flag_write email operation desired) q h = h
write-FlagsOnly st (drop_email_write email) q h = h
write-FlagsOnly st (recover_write legacy now) q h =
    Calm-FlagsOnly st.jobs _ (recover-Calm legacy now st.jobs) h
write-FlagsOnly st (select_write request legacy now limit) q h = h
write-FlagsOnly st (lease_write request legacy token now) q h =
    lease_all-FlagsOnly legacy token now (or_else (get st.claims request) []) st.jobs h
write-FlagsOnly st (result_write job newer requested body token now) q h =
    Calm-FlagsOnly st.jobs _ (report_write-Calm job newer requested body token now st) h

write_all-FlagsOnly :
    (st : State) (ws : List Write)
    → all_queue_flags ws ≡ true
    → FlagsOnly st.jobs
    → FlagsOnly (write_all st ws).jobs
unfolding write_all
write_all-FlagsOnly st [] q h = h
write_all-FlagsOnly st (w ∷ ws) q h =
    write_all-FlagsOnly (write st w) ws (ground arith) (write-FlagsOnly st w (ground arith) h)

recover_agrees :
    (now : ℕ) (jobs : List Job) → FlagsOnly jobs → recover true now jobs ≡ recover false now jobs
unfolding recover
recover_agrees now jobs h =
    let f = Calm-FlagsOnly jobs _ (recover-Calm true now jobs) h in
    sym (
      updated-same (is_duplicate true (recover true now jobs)) (as_superseded now)
        (recover true now jobs) (λ j i. let e = f j i in ground (arith, e)))

candidates_agree :
    (now limit : ℕ) (jobs : List Job)
    → FlagsOnly jobs
    → candidates true now limit jobs ≡ candidates false now limit jobs
unfolding candidates
candidates_agree now limit jobs h =
    ap
      (λ rows.
        map (λ (j : Job). record { job = j.id; email = j.email_id })
          (limit_to limit (order_jobs rows)))
      (select-cong (is_candidate true now jobs) (is_candidate false now jobs) jobs
        (λ j i. let e = h j i in ground (arith, e)))

lease_all_agrees :
    (token : String) (now : ℕ) (cs : List Candidate) (jobs : List Job)
    → FlagsOnly jobs
    → lease_all true token now cs jobs ≡ lease_all false token now cs jobs
unfolding lease_all
lease_all_agrees token now [] jobs h = refl
lease_all_agrees token now (c ∷ cs) jobs h =
    lease_all_agrees token now cs _ (leased-FlagsOnly true token now c jobs h)
    ∙ ap (lease_all false token now cs) (
        updated-cong (is_leasable true now jobs c) (is_leasable false now jobs c)
          (as_leased token now) jobs (λ j i. let e = h j i in ground (arith, e)))

module _ (request token : String) (now limit : ℕ) (others : List Write) (st : State)
    (h : FlagsOnly st.jobs) (q : all_queue_flags others ≡ true) where
  -- What a claim has selected, what it leases, and what it returns.
  abbrev selected : Bool → State
  selected legacy =
      write_all
        (write (write st (recover_write legacy now)) (select_write request legacy now limit)) others

  abbrev leased : Bool → State
  leased legacy = write (selected legacy) (lease_write request legacy token now)

  abbrev handed_out : Bool → State → State × Option (List Job)
  handed_out legacy s = (
    s,
    some (
        order_jobs (
          select
            (λ j.
              is_processing j.status
              && (holds_token token j.lease_token && (not legacy || not (is_location j.operation))))
            s.jobs)),
  )

  selected_agrees : (selected true ≡ selected false) × FlagsOnly (selected true).jobs
  unfolding write
  selected_agrees =
      let f = Calm-FlagsOnly st.jobs _ (recover-Calm true now st.jobs) h in
      let r : State = write st (recover_write true now) in
      let e : r ≡ write st (recover_write false now) =
        ap (λ js. record st { jobs = js }) (recover_agrees now st.jobs h) in
      let a : write r (select_write request true now limit)
          ≡ write r (select_write request false now limit) =
        ap (λ cs. record r { claims = put r.claims request cs })
          (candidates_agree now limit r.jobs f) in
      (
        ap (λ s. write_all s others)
            (a ∙ ap (λ s. write s (select_write request false now limit)) e),
        write_all-FlagsOnly (write r (select_write request true now limit)) others q f,
      )

  leased_agrees : (leased true ≡ leased false) × FlagsOnly (leased true).jobs
  unfolding write
  leased_agrees =
      let (e, f) = selected_agrees in
      let s : State = selected true in
      let a : leased true ≡ write s (lease_write request false token now) =
        ap (λ js. record s { jobs = js })
          (lease_all_agrees token now (or_else (get s.claims request) []) s.jobs f) in
      (
        a ∙ ap (λ x. write x (lease_write request false token now)) e,
        lease_all-FlagsOnly true token now (or_else (get s.claims request) []) s.jobs f,
      )

  handed_out_agrees : handed_out true (leased true) ≡ handed_out false (leased false)
  handed_out_agrees =
      let (e, f) = leased_agrees in
      ap (λ rows. (leased true, some (order_jobs rows)))
        (select-cong _ _ (leased true).jobs (λ j i. let n = f j i in ground (arith, n)))
      ∙ ap (handed_out false) e

-- On a queue without moves and deletions the two endpoints of claims are one: for the same body, the
-- same time and the same writes between their statements, of which none queues a move or a deletion,
-- they leave the same tables and answer with the same jobs or the same refusal.
pub claim_mutation_jobs-agrees :
    (request : String) (token : Option String) (limit : Option ℕ) (now : ℕ) (others : List Write)
    (st : State)
    → FlagsOnly st.jobs
    → all_queue_flags others ≡ true
    → claim_mutation_jobs true request token limit now others st
      ≡ claim_mutation_jobs false request token limit now others st
unfolding claim_mutation_jobs
claim_mutation_jobs-agrees request none limit now others st h q = refl
claim_mutation_jobs-agrees request (some raw) limit now others st h q =
    let t = trim raw in
    let n = or_else limit 0 in
    ap
      (λ (answer : State × Option (List Job)).
        if t === "" || ltb 200 (units (codes t)) || ltb n 1 || ltb 50 n then (st, none) else answer)
      (handed_out_agrees request t now n others st h q)
