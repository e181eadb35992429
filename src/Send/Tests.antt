-- ===== src/Send/Tests.antt =====
-- worker/src/mails_api: the reservations on small tables.
use one_mail.Base.{
  if◌then◌else◌, ◌===◌, ◌+◌, ◌≡◌, ◌⊎◌, refl, inl, String, some, List, [], ◌∷◌, true, get, text_key,
  arith, text_dec,
}
use one_mail.Send.{released, pending, sent, Reservation, Database}
use one_mail.Send.Writes.{Request, new_row, release_expired}
use one_mail.Send.Rows.{Distinct}
use one_mail.Send.History.{
  Write, purge_write, insert_write, dispatch_started_write, dispatch_succeeded_write, settle_write,
  release_expired_write, write_all,
}
use one_mail.Send.Counters.{daily, monthly, Daily, Monthly, purged_all, write_all-Counted}
use one_mail.Send.Unique.{write_all-Distinct}
use one_mail.Send.Capacity.{Fits, write_all-Fits}
use one_mail.Send.Lifecycle.{Standing, Purged, write_all-Delivered}
use one_mail.Send.Limits.{reserve_slot}
use one_mail.Send.Replays.{answer_for, reserve_slot-replays}
use one_mail.Send.Reroutes.{
  Reroute, replay, conflict, reserve_idempotency, release_step, prune_step, complete_step, step_all,
  step_all-replays,
}
use one_mail.Send.Refunds.{Refunded, refund_times, refund_times-balance}

abbrev nothing : Database
nothing = record {
  reservations = [];
  daily_counts = [];
  monthly_counts = [];
  senders = [];
  addresses = [];
}

abbrev request : String → String → Request
request id key = record {
  id = id;
  daily_key = some 7;
  monthly_key = some 2;
  daily_limit = some 1;
  monthly_limit = some 5;
  now = 100;
  idempotency_key = some key;
  request_hash = some "h";
}

-- Two requests race for one slot; the first is sent, committed and purged.
abbrev race : List Write
race =
    insert_write (request "a" "k")
    ∷ insert_write (request "b" "l")
    ∷ dispatch_started_write "a" 110
    ∷ dispatch_succeeded_write "a" 120
    ∷ settle_write "a" true 130
    ∷ release_expired_write 140 100
    ∷ purge_write 1000 100
    ∷ []

write_all-Counted_example :
    Daily (write_all nothing race) 7 (0 + purged_all daily 7 nothing race)
    × Monthly (write_all nothing race) 7 (0 + purged_all monthly 7 nothing race)
unfolding get
write_all-Counted_example = write_all-Counted nothing race 7 0 0 tt (omega arith) (omega arith)

write_all-Distinct_example : Distinct (write_all nothing race).reservations
write_all-Distinct_example = write_all-Distinct nothing race tt

write_all-Fits_example : Fits (write_all nothing race) 7 2 1 5
unfolding get
write_all-Fits_example =
    write_all-Fits nothing race 7 2 1 5 tt
      ((λ e l f. ground arith), ((λ e l f. ground arith), (tt, (tt, (tt, (tt, (tt, tt)))))))
      ((λ e l f. ground arith), ((λ e l f. ground arith), (tt, (tt, (tt, (tt, (tt, tt)))))))
      (omega arith, omega arith)

abbrev delivered : Reservation
delivered = record (new_row (request "a" "k")) { dispatch_state = sent; updated_at = 120 }

abbrev one_sent : Database
one_sent = record nothing {
  reservations = delivered ∷ [];
  daily_counts = (7, 1) ∷ [];
  monthly_counts = (2, 1) ∷ [];
}

one_sent-Distinct : Distinct one_sent.reservations
one_sent-Distinct = ((λ s i. elim i [ ]), tt)

write_all-Delivered_example :
    Standing delivered (write_all one_sent race).reservations ⊎ Purged delivered one_sent race
write_all-Delivered_example =
    write_all-Delivered one_sent race delivered one_sent-Distinct (inl refl) (refl, refl)

reserve_slot-replays_example :
    reserve_slot 150 race (request "c" "k") one_sent
    ≡ ((release_expired 150 100 one_sent).0, answer_for delivered (some "h"))
reserve_slot-replays_example =
    reserve_slot-replays one_sent delivered (request "c" "k") "k" 150 race one_sent-Distinct
      (inl refl) refl refl refl refl

abbrev rejected : Reservation
rejected = record delivered {
  status = released;
  dispatch_state = pending;
  sender_address = some "m@x.org";
  sender_address_id = some "5";
  balance_reserved = true;
}

abbrev refunding : Database
refunding = record nothing {
  reservations = rejected ∷ [];
  senders = ("m@x.org", record { balance = 3; enabled = true }) ∷ [];
  addresses = ("5", "m@x.org") ∷ [];
}

refund_times-balance_example :
    Refunded "a" "m@x.org" "5" 200
      (3 + 4)
      (record { balance = 3; enabled = true })
      (rejected ∷ [])
      (refund_times 4 "a" "m@x.org" "5" 200 refunding)
unfolding get text_dec
refund_times-balance_example =
    refund_times-balance "a" "m@x.org" "5" 200 4 refunding (record { balance = 3; enabled = true })
      refl (refl, refl)

abbrev written : Reroute
written = record { request_hash = "h"; job_id = "j"; created_at = 5 }

step_all-replays_example :
    (reserve_idempotency "k" "h" 30 (
      step_all
        (("k", written) ∷ [])
        (release_step "k" ∷ prune_step 20 "k" ∷ complete_step "k" "other" ∷ []))).1
    ≡ (if written.request_hash === "h" then replay "j" else conflict)
unfolding get text_dec
step_all-replays_example =
    step_all-replays (("k", written) ∷ [])
      (release_step "k" ∷ prune_step 20 "k" ∷ complete_step "k" "other" ∷ []) "k" "h" 30 written
      refl refl
