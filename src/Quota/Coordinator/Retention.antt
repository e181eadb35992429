-- ===== src/Quota/Coordinator/Retention.antt =====
-- worker/src/core/d1_quota_coordinator_do.ts: the alarm touches only what lies before the floor.
use one_mail.Base.{
  ℕ, zero, suc, ◌≤◌, ◌<◌, ◌≡◌, inl, inr, refl, ap, ◌∙◌, some, List, [], ◌∷◌, Bool, Dict, Key, get,
  delete, get-delete, All, ltb, arith, Bool-cases, nat_key,
}
use one_mail.Fleet.Contracts.{or_else}
use one_mail.Quota.Coordinator.{Marker, marker_key, Coordinator, retention_floor_at}
use one_mail.Quota.Coordinator.Cleanup.{
  insert_key, expired_keys, take_keys, delete_keys, cleanup, marker_before, date_before,
}

module _ {K : Type 0} (before : K → K → Bool) (date_in : K → ℕ) (floor : ℕ) where
  abbrev Old : List K → Type 0
  Old ks = All (λ k. date_in k < floor) ks

  insert_key-Old : (k : K) (ks : List K) → date_in k < floor → Old ks → Old (insert_key before k ks)
  unfolding insert_key
  insert_key-Old k [] h o = (h, tt)
  insert_key-Old k (j ∷ js) h o = elim (Bool-cases (before k j)) [
    | inl e ↦ rw e (h, o)
    | inr e ↦ rw e (o.0, insert_key-Old k js h o.1)
  ]

  expired_keys-Old : {V : Type 0} (d : Dict K V) → Old (expired_keys before date_in floor d)
  unfolding expired_keys
  expired_keys-Old [] = tt
  expired_keys-Old ((k, v) ∷ d) = elim (Bool-cases (ltb (date_in k) floor)) [
    | inl e ↦ rw e (insert_key-Old k _ (ground arith) (expired_keys-Old d))
    | inr e ↦ rw e (expired_keys-Old d)
  ]

  take_keys-Old : (n : ℕ) (ks : List K) → Old ks → Old (take_keys n ks)
  unfolding take_keys
  take_keys-Old zero ks o = tt
  take_keys-Old (suc n) [] o = tt
  take_keys-Old (suc n) (k ∷ ks) o = (o.0, take_keys-Old n ks o.1)

module _ {K V : Type 0} ⦃key : Key K⦄ (date_in : K → ℕ) (floor : ℕ) where
  get-delete_keys :
      (d : Dict K V) (ks : List K) (k : K)
      → All (λ j. date_in j < floor) ks
      → floor ≤ date_in k
      → get (delete_keys d ks) k ≡ get d k
  unfolding delete_keys
  get-delete_keys d [] k o h = refl
  get-delete_keys d (j ∷ js) k o h = get-delete_keys (delete d j) js k o.1 h ∙ elim (key.same j k) [
    | yes e ↦ ground (arith, ap date_in e, o.0)
    | no n ↦ ground (arith, get-delete d j k)
  ]

get-delete_expired :
    {K V : Type 0} ⦃key : Key K⦄ (before : K → K → Bool) (date_in : K → ℕ) (floor n : ℕ)
    (d : Dict K V) (k : K)
    → floor ≤ date_in k
    → get (delete_keys d (take_keys n (expired_keys before date_in floor d))) k ≡ get d k
get-delete_expired before date_in floor n d k h =
    get-delete_keys date_in floor d (take_keys n (expired_keys before date_in floor d)) k
      (take_keys-Old before date_in floor n (expired_keys before date_in floor d)
        (expired_keys-Old before date_in floor d))
      h

pub cleanup-deltas :
    (c : Coordinator) (now : ℕ) (k : Marker)
    → retention_floor_at c now ≤ k.0
    → get (cleanup c now).deltas k ≡ get c.deltas k
unfolding cleanup
cleanup-deltas c now k h =
    get-delete_expired marker_before (λ m. m.0) (retention_floor_at c now) 128 c.deltas k h

pub cleanup-states :
    (c : Coordinator) (now d : ℕ)
    → retention_floor_at c now ≤ d
    → get (cleanup c now).states d ≡ get c.states d
unfolding cleanup
cleanup-states c now d h =
    get-delete_expired date_before (λ m. m) (retention_floor_at c now) 128 c.states d h

pub le-retention_floor_at :
    (c : Coordinator) (now : ℕ) → or_else c.retention_floor 0 ≤ retention_floor_at c now
unfolding retention_floor_at
le-retention_floor_at c now = ground arith

pub cleanup-kept :
    (c : Coordinator) (now : ℕ) → (cleanup c now).retention_floor ≡ some (retention_floor_at c now)
unfolding cleanup
cleanup-kept c now = refl

-- The floor never goes back.
pub cleanup-floor :
    (c : Coordinator) (now : ℕ)
    → or_else c.retention_floor 0 ≤ or_else (cleanup c now).retention_floor 0
cleanup-floor c now = ground (arith, cleanup-kept c now, le-retention_floor_at c now)
