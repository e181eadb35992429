-- ===== src/Quota/Coordinator/Pace.antt =====
-- worker/src/core/d1_quota_coordinator_do.ts: the pace of the publications.
use one_mail.Base.{
  ℕ, ◌+◌, ◌≤◌, ◌<◌, ◌≡◌, ◌⊎◌, ◌∙◌, inl, inr, refl, sym, subst, Option, none, some, List, [], ◌∷◌,
  ◌++◌, map, true, All, ◌==◌, arith, Bool-cases,
}
use one_mail.Fleet.Contracts.{or_else}
use one_mail.Quota.Coordinator.{
  Coordinator, ensure_alarm, KvBinding, get_quota, post_delta, other_method, flush_interval_ms,
}
use one_mail.Quota.Coordinator.Cleanup.{cleanup}
use one_mail.Quota.Coordinator.Handle.{
  Delta, is_due, Turn, settle, handle, valid_delta, Publication, Event, fetch, alarm, respond,
  respond_all,
}
use one_mail.Quota.Coordinator.Counting.{counts}
use one_mail.Quota.Coordinator.Steps.{Publishes, Settles, settle-Settles}

abbrev pub time_of : Event → ℕ
time_of (fetch now kv q) = now
time_of (alarm now) = now

-- The times of the snapshots that a history sent, the last one first.
abbrev pub sent_all : Coordinator → List Event → List ℕ → List ℕ
sent_all c [] before = before
sent_all c (e ∷ es) before =
    sent_all (respond c e).after es (map (λ p. p.at) (respond c e).sent ++ before)

-- Each time is at least the interval after the one before it.
abbrev pub Spaced : List ℕ → Type 0
Spaced [] = Unit
Spaced (t ∷ []) = Unit
Spaced (t ∷ u ∷ ts) = (u + flush_interval_ms ≤ t) × Spaced (u ∷ ts)

abbrev pub Paced : Coordinator → List ℕ → Type 0
Paced c [] = Unit
Paced c (t ∷ ts) = (c.last_attempt ≡ some t) × (0 < t) × Spaced (t ∷ ts)

-- What a call sends: nothing, or one snapshot when the slot was free, and takes the slot.
data Sends (c : Coordinator) (now : ℕ) (t : Turn) : Type 0 where
  quiet : t.after.last_attempt ≡ c.last_attempt → t.sent ≡ [] → Sends c now t
  sends :
      (p : Publication) (last : ℕ)
      → t.after.last_attempt ≡ some now
      → t.sent ≡ p ∷ []
      → p.at ≡ now
      → ((u : ℕ) → c.last_attempt ≡ some u → last ≡ u)
      → (last ≡ 0) ⊎ (last + flush_interval_ms ≤ now)
      → Sends c now t

is_due-free :
    (c : Coordinator) (kv : KvBinding) (last now : ℕ)
    → is_due c kv last now ≡ true
    → (last ≡ 0) ⊎ (last + flush_interval_ms ≤ now)
unfolding is_due
is_due-free c kv last now h = elim (Bool-cases (last == 0)) [
  | inl e ↦ inl (ground arith)
  | inr e ↦ inr (ground arith)
]

Settles-Sends :
    (c : Coordinator) (now : ℕ) (kv : KvBinding) (b : Delta) (t : Turn)
    → Settles c now kv b t
    → Sends c now t
Settles-Sends c now kv b t (Settles.refused e s) = quiet (ground arith) s
Settles-Sends c now kv b t (Settles.settled c₁ r o f (counts s g _ d _ w) p) = go p
  where
    same : c₁.last_attempt ≡ c.last_attempt
    same = elim w [ inl (m, e, y) ↦ ground arith | inr (m, y, e, _, _, _) ↦ ground arith ]

    due :
        r.snapshot_due ≡ true
        → is_due c kv (or_else c.last_attempt s.last_kv_snapshot_at) now ≡ true
    due q = sym d ∙ q

    go : Publishes c₁ now b.utc_date r t.after o t.sent → Sends c now t
    go (Publishes.unsent e _ n) = quiet (ground arith) n
    go (Publishes.refused q e _ n) =
        sends _ (or_else c.last_attempt s.last_kv_snapshot_at) (ground arith) n refl
          (λ u h. ground arith) (is_due-free c kv _ now (due q))
    go (Publishes.taken r' q _ e _ _ n) =
        sends _ (or_else c.last_attempt s.last_kv_snapshot_at) (ground arith) n refl
          (λ u h. ground arith) (is_due-free c kv _ now (due q))

cleanup-last_attempt : (c : Coordinator) (now : ℕ) → (cleanup c now).last_attempt ≡ c.last_attempt
unfolding cleanup
cleanup-last_attempt c now = refl

respond-Sends : (c : Coordinator) (e : Event) → Sends c (time_of e) (respond c e)
unfolding respond handle
respond-Sends c (alarm now) = quiet (cleanup-last_attempt c now) refl
respond-Sends c (fetch now kv (get_quota date shard)) = quiet refl refl
respond-Sends c (fetch now kv other_method) = quiet refl refl
respond-Sends c (fetch now kv (post_delta body)) = go (valid_delta body) refl
  where
    go : (o : Option Delta) → valid_delta body ≡ o → Sends c now (handle c now kv (post_delta body))
    go none e = quiet (ground arith) (ground arith)
    go (some b) e = subst (Sends c now) (ground arith) (
        rearm (
          Settles-Sends (ensure_alarm c now) now kv b (settle (ensure_alarm c now) now kv b)
            (settle-Settles (ensure_alarm c now) now kv b)))
      where
        rearm : {t : Turn} → Sends (ensure_alarm c now) now t → Sends c now t
        rearm (quiet x y) = quiet x y
        rearm (sends p l x y z u v) = sends p l x y z u v

Sends-Paced :
    (c : Coordinator) (now : ℕ) (t : Turn) (ts : List ℕ)
    → 0 < now
    → Sends c now t
    → Paced c ts
    → Paced t.after (map (λ p. p.at) t.sent ++ ts)
Sends-Paced c now t ts pos (quiet x y) p = rw y (go ts p)
  where
    go : (ts : List ℕ) → Paced c ts → Paced t.after ts
    go [] p = tt
    go (u ∷ us) (a, b, s) = (x ∙ a, b, s)
Sends-Paced c now t ts pos (sends q l x y z u v) p =
    subst (λ (l : List Publication). Paced t.after (map (λ p. p.at) l ++ ts)) (sym y)
      (subst (λ m. Paced t.after (m ∷ ts)) (sym z) (x, pos, go ts p))
  where
    go : (ts : List ℕ) → Paced c ts → Spaced (now ∷ ts)
    go [] p = tt
    go (w ∷ ws) (a, b, s) = (ground (arith, u w a), s)

-- However calls, alarms, retries and failures of the namespace follow each other, the snapshots
-- that the object sends are at least five minutes apart, provided that its clock is past 1970.
pub respond_all-Paced :
    (c : Coordinator) (es : List Event) (ts : List ℕ)
    → All (λ e. 0 < time_of e) es
    → Paced c ts
    → Paced (respond_all c es) (sent_all c es ts)
unfolding respond_all
respond_all-Paced c [] ts pos p = p
respond_all-Paced c (e ∷ es) ts pos p =
    respond_all-Paced (respond c e).after es (map (λ q. q.at) (respond c e).sent ++ ts) pos.1
      (Sends-Paced c (time_of e) (respond c e) ts pos.0 (respond-Sends c e) p)
