-- ===== src/Unified/Lockout.antt =====
-- worker/src/unified/admin_lockout.ts: the count of failed admin logins of an address in a window of
-- fifteen minutes, and the decision on a request to the admin surface. An instant is in
-- milliseconds; no count stands for the -1 of an unreachable namespace.
use Prim.Native.Char.{code}
use one_mail.Base.{
  List, [], ◌∷◌, any, ◌∙◌, get-put, get-delete, same-yes, same-no, Bool-cases, ℕ, ◌+◌, ◌*◌, ◌/◌,
  ◌≤◌, ◌≡◌, ◌⊎◌, refl, ap, String, Option, none, some, Bool, true, false, not, ◌&&◌, ◌||◌, Dict,
  get, put, delete, ltb, leb, ◌==◌, ◌===◌, if◌then◌else◌, text_key, arith, inl, inr,
}
use one_mail.Fleet.Contracts.{or_else}
use one_mail.Quota.Coordinator.{Marker, marker_key}
use one_mail.Unified.ShardMap.{trim}

abbrev window_sec : ℕ
window_sec = 900

abbrev max_failures : ℕ
max_failures = 10

abbrev window_bucket : ℕ → ℕ
window_bucket now = now / (window_sec * 1000)

abbrev cons_text : String → Option String
cons_text s = if s === "" then none else some s

unfoldable before_comma : String → String
before_comma String.[] = String.[]
before_comma (String.◌∷◌ c s) =
    let rest = before_comma s in if code c == 44 then String.[] else String.◌∷◌ c rest

-- The headers `cf-connecting-ip` and `x-forwarded-for`.
unfoldable pub client_ip : Option String → Option String → String
unfolding before_comma
client_ip connecting forwarded = elim (cons_text (or_else connecting "")) [
  | some ip ↦ ip
  | none ↦ or_else (cons_text (trim (before_comma (or_else forwarded "")))) "unknown"
]

-- The namespace: not bound, or the counts that it holds for each bucket. Each access to it is
-- reachable or throws.
pub data FailureStore : Type 0 where
  unbound : FailureStore
  holding : Dict Marker ℕ → FailureStore

abbrev pub bucket_key : ℕ → String → Marker
bucket_key now ip = (window_bucket now, ip)

abbrev pub count_at : Dict Marker ℕ → Marker → ℕ
count_at d m = or_else (get d m) 0

unfoldable pub get_admin_fail_count : Bool → FailureStore → ℕ → String → Option ℕ
get_admin_fail_count reachable unbound now ip = none
get_admin_fail_count reachable (holding d) now ip =
    if reachable then some (count_at d (bucket_key now ip)) else none

-- The writes of other requests that come between a read and a write.
abbrev write_others : Dict Marker ℕ → List (Marker × ℕ) → Dict Marker ℕ
write_others d [] = d
write_others d ((m, n) ∷ es) = write_others (put d m n) es

-- Whether its read and its write reach the namespace, and what others write between them.
unfoldable pub record_admin_failure :
    Bool → Bool → List (Marker × ℕ) → FailureStore → ℕ → String → FailureStore × Option ℕ
record_admin_failure read written between unbound now ip = (unbound, none)
record_admin_failure read written between (holding d) now ip =
    let count = count_at d (bucket_key now ip) + 1 in
    let others = write_others d between in
    if read && written
    then (holding (put others (bucket_key now ip) count), some count)
    else (holding others, none)

abbrev is_known_zero : Option ℕ → Bool
is_known_zero (some n) = n == 0
is_known_zero none = false

-- A bucket that is absent is not deleted, which changes nothing.
unfoldable pub clear_admin_failures :
    Bool → Bool → FailureStore → ℕ → String → Option ℕ → FailureStore
clear_admin_failures read deleted unbound now ip known = unbound
clear_admin_failures read deleted (holding d) now ip known =
    if not (is_known_zero known) && (read && deleted)
    then holding (delete d (bucket_key now ip))
    else holding d

abbrev pub locks : Option ℕ → Bool
locks none = true
locks (some count) = leb max_failures count

unfoldable pub is_admin_locked_out : Bool → FailureStore → ℕ → String → Bool
is_admin_locked_out reachable s now ip = locks (get_admin_fail_count reachable s now ip)

-- The payload of an access token that was verified; `exp` is in seconds.
pub record TokenPayload : Type 0 where
  pub exp : Option ℕ
  pub user_role : Option String

pub record AdminAuthCheckInput : Type 0 where
  pub has_admin_auth : Bool
  pub has_access_token : Bool
  pub admin_auth_valid : Bool
  pub admin_fail_count : Option ℕ
  pub admin_user_role : Option String
  pub disable_admin_password_check : Bool
  pub access_token_payload : Option TokenPayload

pub data RefusalKind : Type 0 where
  rate_limit access_token_expired role_not_admin need_admin_password : RefusalKind

pub data AdminAuthDecision : Type 0 where
  relay : AdminAuthDecision
  refuse : (status : ℕ) (record_failure : Bool) → RefusalKind → AdminAuthDecision

abbrev is_expired : Option ℕ → ℕ → Bool
is_expired none now = true
is_expired (some exp) now = exp == 0 || ltb exp (now / 1000)

abbrev has_role : Option String → String → Bool
has_role none role = false
has_role (some r) role = r === role

-- The end of the decision: the bypass of the operator, or the password.
abbrev bypass : AdminAuthCheckInput → Bool → AdminAuthDecision
bypass i record_failure =
    if i.disable_admin_password_check then relay else refuse 401 record_failure need_admin_password

unfoldable pub decide_admin_auth : AdminAuthCheckInput → ℕ → AdminAuthDecision
decide_admin_auth i now =
    if (i.has_admin_auth || i.has_access_token) && locks i.admin_fail_count
    then refuse 429 false rate_limit
    else if i.admin_auth_valid
    then relay
    else elim (cons_text (or_else i.admin_user_role "")) [
      | none ↦ bypass i i.has_admin_auth
      | some role ↦
          if not i.has_access_token
          then bypass i i.has_admin_auth
          else elim i.access_token_payload [
            | none ↦ bypass i true
            | some payload ↦
                if is_expired payload.exp now
                then refuse 401 true access_token_expired
                else if not (has_role payload.user_role role)
                then refuse 401 true role_not_admin
                else bypass i true
          ]
    ]

-- The role of a user is no authority: a request passes only with the admin password or the bypass
-- of the operator, and with no credential at all where the address is locked out.
pub decide_admin_auth-relay :
    (i : AdminAuthCheckInput) (now : ℕ)
    → decide_admin_auth i now ≡ relay
    → ((i.admin_auth_valid ≡ true) ⊎ (i.disable_admin_password_check ≡ true))
      × ((locks i.admin_fail_count ≡ false)
          ⊎ ((i.has_admin_auth ≡ false) × (i.has_access_token ≡ false)))
unfolding decide_admin_auth
decide_admin_auth-relay i now h = ground arith

-- What happens to the counts: a failure is recorded, or a success clears them.
pub data Attempt : Type 0 where
  fails : (read written : Bool) (between : List (Marker × ℕ)) (now : ℕ) (ip : String) → Attempt
  clears : (read deleted : Bool) (now : ℕ) (ip : String) (known : Option ℕ) → Attempt

unfoldable pub attempt : FailureStore → Attempt → FailureStore
unfolding record_admin_failure clear_admin_failures
attempt s (fails read written between now ip) =
    (record_admin_failure read written between s now ip).0
attempt s (clears read deleted now ip known) = clear_admin_failures read deleted s now ip known

unfoldable pub attempt_all : FailureStore → List Attempt → FailureStore
unfolding attempt
attempt_all s [] = s
attempt_all s (a ∷ tries) = attempt_all (attempt s a) tries

-- The failures of a bucket that were recorded since it was last cleared.
abbrev pub next_tally : Marker → ℕ → Attempt → ℕ
next_tally m c (fails read written between now ip) =
    if bucket_key now ip === m && (read && written) then c + 1 else c
next_tally m c (clears read deleted now ip known) =
    if bucket_key now ip === m && (not (is_known_zero known) && (read && deleted)) then 0 else c

abbrev pub tally : Marker → ℕ → List Attempt → ℕ
tally m c [] = c
tally m c (a ∷ tries) = tally m (next_tally m c a) tries

-- No request about the bucket overlaps another: between a read and a write others write other
-- buckets.
abbrev pub keeps_apart : Marker → Attempt → Bool
keeps_apart m (fails read written between now ip) =
    not (any (λ (e : Marker × ℕ). e.0 === m) between)
keeps_apart m (clears read deleted now ip known) = true

abbrev pub all_apart : Marker → List Attempt → Bool
all_apart m [] = true
all_apart m (a ∷ tries) = keeps_apart m a && all_apart m tries

write_others-count :
    (d : Dict Marker ℕ) (es : List (Marker × ℕ)) (m : Marker)
    → any (λ (e : Marker × ℕ). e.0 === m) es ≡ false
    → count_at (write_others d es) m ≡ count_at d m
write_others-count d [] m h = refl
write_others-count d ((k, n) ∷ es) m h =
    write_others-count (put d k n) es m (ground arith) ∙ ground (arith, get-put d k m n)

attempt-count :
    (d : Dict Marker ℕ) (a : Attempt) (m : Marker)
    → keeps_apart m a ≡ true
    → (e : Dict Marker ℕ) × (attempt (holding d) a ≡ holding e)
      × (count_at e m ≡ next_tally m (count_at d m) a)
unfolding attempt record_admin_failure clear_admin_failures
attempt-count d (fails read written between now ip) m h =
    let b = bucket_key now ip in
    let o = write_others d between in
    let w = write_others-count d between m (ground arith) in
    elim (Bool-cases (read && written)) [
      | inl r ↦ (
        put o b (count_at d b + 1),
        ground (arith, r),
        elim (marker_key.same b m) [
          | yes e ↦
              let x = ap (count_at d) e in
              ground (arith, r, get-put o b m (count_at d b + 1), same-yes b m e, x)
          | no n ↦ ground (arith, r, w, get-put o b m (count_at d b + 1), same-no b m n)
        ],
      )
      | inr r ↦ (o, ground (arith, r), ground (arith, r, w))
    ]
attempt-count d (clears read deleted now ip known) m h =
    let b = bucket_key now ip in
    elim (Bool-cases (not (is_known_zero known) && (read && deleted))) [
      | inl r ↦ (delete d b, ground (arith, r), ground (arith, r, get-delete d b m))
      | inr r ↦ (d, ground (arith, r), ground (arith, r))
    ]

attempt_all-count :
    (tries : List Attempt) (d : Dict Marker ℕ) (m : Marker)
    → all_apart m tries ≡ true
    → (e : Dict Marker ℕ) × (attempt_all (holding d) tries ≡ holding e)
      × (count_at e m ≡ tally m (count_at d m) tries)
unfolding attempt_all
attempt_all-count [] d m h = (d, refl, refl)
attempt_all-count (a ∷ tries) d m h =
    let (e, p, q) = attempt-count d a m (ground arith) in
    let (f, r, t) = attempt_all-count tries e m (ground arith) in
    (f, ap (λ s. attempt_all s tries) p ∙ r, t ∙ ap (λ c. tally m c tries) q)

-- What the store holds for a bucket.
abbrev pub held_at : FailureStore → Marker → ℕ
held_at unbound m = 0
held_at (holding d) m = count_at d m

attempt_all-unbound : (tries : List Attempt) → attempt_all unbound tries ≡ unbound
unfolding attempt_all attempt record_admin_failure clear_admin_failures
attempt_all-unbound [] = refl
attempt_all-unbound (fails read written between now ip ∷ tries) = attempt_all-unbound tries
attempt_all-unbound (clears read deleted now ip known ∷ tries) = attempt_all-unbound tries

fail_count-locks :
    (s : FailureStore) (tries : List Attempt) (now : ℕ) (ip : String) (reachable : Bool)
    → all_apart (bucket_key now ip) tries ≡ true
    → 10 ≤ tally (bucket_key now ip) (held_at s (bucket_key now ip)) tries
    → locks (get_admin_fail_count reachable (attempt_all s tries) now ip) ≡ true
unfolding get_admin_fail_count
fail_count-locks s tries now ip false h l =
    elim (attempt_all s tries) as (λ t. locks (get_admin_fail_count false t now ip) ≡ true) [
      | unbound ↦ refl
      | holding d ↦ refl
    ]
fail_count-locks unbound tries now ip true h l = rw (attempt_all-unbound tries) refl
fail_count-locks (holding d) tries now ip true h l =
    let (e, p, q) = attempt_all-count tries d (bucket_key now ip) h in rw p (ground (arith, q))

pub decide_admin_auth-locked :
    (s : FailureStore) (tries : List Attempt) (now : ℕ) (ip : String) (reachable : Bool)
    (i : AdminAuthCheckInput)
    → all_apart (bucket_key now ip) tries ≡ true
    → 10 ≤ tally (bucket_key now ip) (held_at s (bucket_key now ip)) tries
    → i.admin_fail_count ≡ get_admin_fail_count reachable (attempt_all s tries) now ip
    → (i.has_admin_auth || i.has_access_token) ≡ true
    → decide_admin_auth i now ≡ refuse 429 false rate_limit
unfolding decide_admin_auth
decide_admin_auth-locked s tries now ip reachable i h l f c =
    let k : locks i.admin_fail_count ≡ true =
      ap locks f ∙ fail_count-locks s tries now ip reachable h l in
    rw (c, k) refl
