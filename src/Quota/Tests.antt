-- ===== src/Quota/Tests.antt =====
-- The coordinator of worker/src/core/d1_quota_coordinator_do.ts on a few calls.
use one_mail.Base.{
  ℕ, ◌+◌, ◌≡◌, refl, none, some, List, [], ◌∷◌, true, false, arith, text_dec, get, put, delete,
  ℕ_discrete,
}
use one_mail.Quota.Telemetry.{
  Isolate, Bindings, QuotaDelta, idle, empty_snapshot, holds, add_quota_delta, record_quota,
  parse_snapshot, remember_snapshot,
}
use one_mail.Quota.Telemetry.Flush.{
  broken, answers, Signal, records, flushes, replied, react, react_all, flush_quota, start_commit,
  start_coordinated, coordinator_replies, delivered, drain,
}
use one_mail.Quota.Telemetry.Books.{Books, Balanced, book_all}
use one_mail.Quota.Telemetry.React.{react_all-Balanced}
use one_mail.Quota.Coordinator.{
  marker_dec, DeltaRequest, KvBinding, post_delta, checked_state, retention_floor_at,
}
use one_mail.Quota.Coordinator.Cleanup.{cleanup}
use one_mail.Quota.Coordinator.Handle.{
  Event, fetch, alarm, respond_all, respond, handle, settle, valid_delta, publish, count_delta,
  add_delta, is_due,
}
use one_mail.Quota.Coordinator.Ledger.{
  Ledger, new_coordinator, new_coordinator-Ledger, counted_all, respond_all-Ledger,
}
use one_mail.Quota.Coordinator.Pace.{Paced, sent_all, respond_all-Paced}

abbrev noon : ℕ
noon = 1728000000000

abbrev delta : DeltaRequest
delta = record {
  is_delta = true;
  shard_id = some "s";
  utc_date = some 739528;
  delta_id = some "delta-one";
  rows_read = some 5;
  rows_written = some 2;
  now = some noon;
}

-- A delta whose snapshot is lost, its retry, and the alarm.
abbrev calls : List Event
calls =
    fetch noon KvBinding.rejects (post_delta (some delta))
    ∷ fetch (noon + 1000) KvBinding.accepts (post_delta (some delta))
    ∷ fetch (noon + 400000) KvBinding.accepts (post_delta (some delta))
    ∷ alarm (noon + 500000)
    ∷ []

respond_all-Ledger_example :
    Ledger (respond_all new_coordinator calls) (counted_all new_coordinator calls [])
respond_all-Ledger_example = respond_all-Ledger new_coordinator calls [] new_coordinator-Ledger

respond_all-Paced_example :
    Paced (respond_all new_coordinator calls) (sent_all new_coordinator calls [])
respond_all-Paced_example =
    respond_all-Paced new_coordinator calls []
      (omega arith, (omega arith, (omega arith, (omega arith, tt)))) tt

sent_twice : sent_all new_coordinator calls [] ≡ (noon + 400000) ∷ (noon ∷ [])
unfolding respond handle settle valid_delta publish count_delta add_delta is_due cleanup
    checked_state retention_floor_at get put text_dec marker_dec ℕ_discrete
sent_twice = refl

abbrev env : Bindings
env = record { has_kv = true; has_coordinator = true; shard_id = "s" }

abbrev fresh : Isolate
fresh = record {
  pending = [];
  known = [];
  last_attempt = none;
  last_write = none;
  batches = [];
  issues = record { invalid_meta = false; counter_overflow = false; expired_delta = false };
  missing = [];
  phase = idle;
}

abbrev no_books : Books
no_books = record { recorded = []; settled = []; given_up = [] }

fresh-Balanced : Balanced env fresh no_books
unfolding get
fresh-Balanced = record {
  read_balance = λ d. refl;
  written_balance = λ d. refl;
  batch_fits = λ d x h. cc;
  phase_fits = tt;
}

abbrev rows : ℕ → QuotaDelta
rows n = record { rows_read = n; rows_written = 1 }

-- Rows that come while an answer is lost stay for the next batch.
abbrev signals : List Signal
signals =
    records noon (rows 3)
    ∷ flushes (noon + 1) "batch-one"
    ∷ records (noon + 2) (rows 4)
    ∷ replied (noon + 3) broken
    ∷ flushes (noon + 4) "batch-two"
    ∷ replied (noon + 5) (answers true (holds 1 (empty_snapshot "s" 739528)))
    ∷ []

react_all-Balanced_example :
    Balanced env (react_all env fresh signals) (book_all env fresh signals no_books)
react_all-Balanced_example = react_all-Balanced env fresh signals no_books fresh-Balanced

second_batch : (book_all env fresh signals no_books).settled ≡ (739528, rows 3) ∷ []
unfolding react record_quota add_quota_delta flush_quota start_commit start_coordinated
    coordinator_replies delivered drain remember_snapshot parse_snapshot get put delete text_dec
    ℕ_discrete
second_batch = refl
