-- ===== src/Send/History.antt =====
-- worker/src/mails_api: the writes of concurrent requests, in the order in which the database runs
-- them. A request is a sequence of writes, so every interleaving of requests is such a list.
use one_mail.Base.{ℕ, String, List, [], ◌∷◌, Bool, true, false}
use one_mail.Send.{pending, unknown, Database}
use one_mail.Send.Writes.{
  Request, release_expired, promote_sent, purge, confirm_sent, reject_unknown, settle,
  advance_dispatch, mark_balance_reserved, delete_released, insert_reservation,
}
use one_mail.Send.Balance.{
  ensure_default_send_balance, reserve_send_balance, refund_send_balance, refund_resolved,
}

pub data Write : Type 0 where
  release_expired_write purge_write : (instant batch : ℕ) → Write
  promote_sent_write : (now : ℕ) → Write
  confirm_sent_write reject_unknown_write : (id : String) (now : ℕ) → Write
  settle_write : (id : String) (commits : Bool) (now : ℕ) → Write
  dispatch_started_write dispatch_succeeded_write : (id : String) (now : ℕ) → Write
  mark_balance_write refund_resolved_write : (id address address_id : String) (now : ℕ) → Write
  delete_released_write : (id : String) → Write
  insert_write : (q : Request) → Write
  ensure_balance_write : (default : ℕ) (address : String) → Write
  reserve_balance_write refund_balance_write : (address : String) → Write

unfoldable pub write : Database → Write → Database
unfolding release_expired promote_sent purge confirm_sent reject_unknown settle advance_dispatch
    mark_balance_reserved delete_released insert_reservation ensure_default_send_balance
    reserve_send_balance refund_send_balance refund_resolved
write db (release_expired_write now batch) = (release_expired now batch db).0
write db (purge_write before batch) = (purge before batch db).0
write db (promote_sent_write now) = (promote_sent now db).0
write db (confirm_sent_write id now) = (confirm_sent id now db).0
write db (reject_unknown_write id now) = (reject_unknown id now db).0
write db (settle_write id commits now) = (settle id commits now db).0
write db (dispatch_started_write id now) = (advance_dispatch id false pending now db).0
write db (dispatch_succeeded_write id now) = (advance_dispatch id true unknown now db).0
write db (mark_balance_write id address address_id now) =
    (mark_balance_reserved id address address_id now db).0
write db (refund_resolved_write id address address_id now) =
    (refund_resolved id address address_id now db).0
write db (delete_released_write id) = (delete_released id db).0
write db (insert_write q) = (insert_reservation q db).0
write db (ensure_balance_write default address) = ensure_default_send_balance default address db
write db (reserve_balance_write address) = (reserve_send_balance address db).0
write db (refund_balance_write address) = refund_send_balance address db

unfoldable pub write_all : Database → List Write → Database
unfolding write
write_all db [] = db
write_all db (w ∷ ws) = write_all (write db w) ws
