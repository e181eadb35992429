-- ===== src/Quota/Coordinator/Cleanup.antt =====
-- worker/src/core/d1_quota_coordinator_do.ts: `cleanup`, the alarm.
use one_mail.Base.{
  ℕ, zero, suc, ◌+◌, some, List, [], ◌∷◌, Bool, ◌&&◌, ◌||◌, Dict, delete, Key, ltb, ◌==◌,
  if◌then◌else◌, length, text_key, nat_key,
}
use one_mail.Fleet.Placement.{lt_text}
use one_mail.Quota.Coordinator.{
  Marker, marker_key, Coordinator, retention_floor_at, next_midnight_alarm,
}

abbrev cleanup_batch_size : ℕ
cleanup_batch_size = 128

-- The keys of a storage come in order, no more than the limit.
abbrev pub date_before : ℕ → ℕ → Bool
date_before a b = ltb a b

abbrev pub marker_before : Marker → Marker → Bool
marker_before (a, s) (b, t) = ltb a b || (a == b && lt_text s t)

unfoldable pub insert_key : {K : Type 0} → (K → K → Bool) → K → List K → List K
insert_key before k [] = k ∷ []
insert_key before k (j ∷ js) =
    let rest = insert_key before k js in if before k j then k ∷ (j ∷ js) else j ∷ rest

unfoldable pub expired_keys : {K V : Type 0} → (K → K → Bool) → (K → ℕ) → ℕ → Dict K V → List K
expired_keys before date_in floor [] = []
expired_keys before date_in floor ((k, v) ∷ d) =
    let rest = expired_keys before date_in floor d in
    if ltb (date_in k) floor then insert_key before k rest else rest

unfoldable pub take_keys : {K : Type 0} → ℕ → List K → List K
take_keys zero ks = []
take_keys (suc n) [] = []
take_keys (suc n) (k ∷ ks) = k ∷ take_keys n ks

unfoldable pub delete_keys : {K V : Type 0} ⦃key : Key K⦄ → Dict K V → List K → Dict K V
delete_keys d [] = d
delete_keys d (k ∷ ks) = delete_keys (delete d k) ks

unfoldable pub cleanup : Coordinator → ℕ → Coordinator
unfolding insert_key expired_keys take_keys delete_keys
cleanup c now =
    let floor = retention_floor_at c now in
    let old_deltas =
      take_keys cleanup_batch_size (expired_keys marker_before (λ m. m.0) floor c.deltas) in
    let old_states =
      take_keys cleanup_batch_size (expired_keys date_before (λ d. d) floor c.states) in
    let more = length old_deltas == cleanup_batch_size || length old_states == cleanup_batch_size in
    record c {
      retention_floor = some floor;
      deltas = delete_keys c.deltas old_deltas;
      states = delete_keys c.states old_states;
      alarm = some (if more then now + 1000 else next_midnight_alarm now);
    }
