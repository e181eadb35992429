-- ===== src/Fleet/Placement.antt =====
-- worker/src/fleet/placement.ts: which shard takes a new mailbox. A `bigint` is a number here; a
-- difference whose sign is tested is a comparison of the two sides.
pub mod Scores
pub mod Sound
pub mod Chosen
use Prim.Native.Char.{code}
use one_mail.Base.{
  ℕ, ◌+◌, ◌-◌, ◌*◌, ◌/◌, String, Option, none, some, List, [], ◌∷◌, ◌++◌, Bool, true, false, not,
  ◌&&◌, ◌||◌, Dict, get, put_all, includes, ltb, leb, ◌==◌, ◌===◌, if◌then◌else◌, text_key,
}
use one_mail.Fleet.Contracts.{
  ShardState, Shard, CloudAccount, MetricSeries, ResourceBudget, FleetConfig, ErrorCode,
  registry_unavailable, no_capacity, stale_metrics, Result, ok, fail, or_else, ◌>>=◌,
}
use one_mail.Fleet.Validation.{safe_add}
use one_mail.Fleet.Metrics.{is_current}

abbrev pub empty_budget : ResourceBudget
empty_budget = record {
  reserved_read = 0;
  reserved_write = 0;
  reserved_worker_requests = 0;
  reserved_bytes = 0;
}

abbrev is_healthy : ShardState → Bool
is_healthy ShardState.healthy = true
is_healthy _ = false

abbrev is_same : Bool → Bool → Bool
is_same true b = b
is_same false b = not b

pub record Score : Type 0 where
  pub used : ℕ
  pub limit : ℕ

-- `compare(a, b) < 0`
abbrev pub less : Score → Score → Bool
less a b = ltb (a.used * b.limit) (b.used * a.limit)

-- `compare(a, b) === 0`
abbrev pub level : Score → Score → Bool
level a b = a.used * b.limit == b.used * a.limit

-- `maximumScore`, from a running maximum.
unfoldable pub maximum_from : Score → List Score → Score
maximum_from m [] = m
maximum_from m (s ∷ ss) = maximum_from (if less m s then s else m) ss

abbrev pub zero_score : Score
zero_score = record { used = 0; limit = 1 }

-- `20n * (score.used * best.limit - best.used * score.limit) <= score.limit * best.limit`
abbrev pub within_affinity_window : Score → Score → Bool
within_affinity_window s best =
    leb (20 * (s.used * best.limit)) (s.limit * best.limit + 20 * (best.used * s.limit))

pub record PlacementInput : Type 0 where
  pub config : FleetConfig
  pub metrics : Dict String MetricSeries
  pub account_reservations : Dict String ResourceBudget
  pub shard_reserved_bytes : Dict String ℕ
  pub affinity_shards : List String
  pub now : ℕ

pub record Candidate : Type 0 where
  pub shard_id : String
  pub account_key : String
  pub score : Score
  pub affinity : Bool

pub data PlacementDecision : Type 0 where
  placed : (shard_id account_key : String) (score_ppm : ℕ) → PlacementDecision
  refused : ErrorCode → PlacementDecision

-- What the body of the first loop makes of a shard.
pub data Verdict : Type 0 where
  skipped unmeasured full : Verdict
  eligible : Candidate → Verdict

abbrev score_of : ℕ → ℕ → Score
score_of used limit = record { used = used; limit = limit }

-- The four ratios of a shard that has a snapshot and a size.
unfoldable pub score_shard : PlacementInput → Shard → CloudAccount → MetricSeries → ℕ → Result Score
score_shard i shard account series size =
    let reserved = or_else (get i.account_reservations account.account_key) empty_budget in
    let demand = i.config.allocation_budget in
    do
      reads ←
          safe_add
            (series.report.projected_rows_read ∷ reserved.reserved_read ∷ demand.reserved_read ∷ [])
      writes ← safe_add (
          series.report.projected_rows_written ∷ reserved.reserved_write ∷ demand.reserved_write
          ∷ [])
      requests ← safe_add (
          series.report.projected_worker_requests ∷ reserved.reserved_worker_requests
          ∷ demand.reserved_worker_requests ∷ [])
      bytes ← safe_add (
          size ∷ or_else (get i.shard_reserved_bytes shard.shard_id) 0 ∷ demand.reserved_bytes ∷ [])
      ok (
          maximum_from zero_score (
            score_of reads account.daily_read_limit
            ∷ score_of writes account.daily_write_limit
            ∷ score_of requests account.worker_request_limit
            ∷ score_of bytes shard.storage_limit_bytes
            ∷ []))

-- The configuration's conditions on a shard and its account.
unfoldable pub is_usable : PlacementInput → Shard → CloudAccount → Bool
is_usable i shard account =
    account.enabled
    && not (shard.shard_id === i.config.primary_shard_id)
    && is_healthy shard.state
    && shard.schema_version == i.config.required_schema_version
    && shard.protocol_version == i.config.required_protocol_version

-- The snapshot of a series that qualifies, with the shard's size.
unfoldable pub measured : PlacementInput → Shard → Option MetricSeries → Option (MetricSeries × ℕ)
measured i shard none = none
measured i shard (some series) =
    if ltb series.consecutive_valid_samples 3 || not (is_current series.report.snapshot i.now)
    then none
    else elim (get series.report.snapshot.shard_sizes shard.shard_id) [
      | none ↦ none
      | some size ↦ some (series, size)
    ]

weigh : PlacementInput → Shard → CloudAccount → Option (MetricSeries × ℕ) → Result Verdict
weigh i shard account none = ok unmeasured
weigh i shard account (some (series, size)) = do
  score ← score_shard i shard account series size
  if leb (score.limit * 7) (score.used * 10)
      then ok full
      else ok (
          eligible (record {
            shard_id = shard.shard_id;
            account_key = account.account_key;
            score = score;
            affinity = includes i.affinity_shards shard.shard_id;
          }))

judge_on : PlacementInput → Shard → Option CloudAccount → Result Verdict
judge_on i shard none = ok skipped
judge_on i shard (some account) =
    if is_usable i shard account
    then weigh i shard account (measured i shard (get i.metrics account.account_key))
    else ok skipped

unfoldable pub judge : PlacementInput → Shard → Result Verdict
unfolding weigh judge_on
judge i shard =
    judge_on i shard (get (put_all (λ a. a.account_key) [] i.config.accounts) shard.account_key)

-- The variables of the first loop.
pub record Scan : Type 0 where
  pub candidates : List Candidate
  pub best : Option Candidate
  pub is_stale : Bool

unfoldable pub better : Option Candidate → Candidate → Candidate
better none c = c
better (some b) c = if less c.score b.score then c else b

unfoldable pub absorb : Scan → Verdict → Scan
unfolding better
absorb s skipped = s
absorb s unmeasured = record s { is_stale = true }
absorb s full = s
absorb s (eligible c) = record s {
  candidates = s.candidates ++ c ∷ [];
  best = some (better s.best c);
}

unfoldable pub scan : PlacementInput → List Shard → Scan → Result Scan
scan i [] s = ok s
scan i (shard ∷ shards) s = judge i shard >>= λ v. scan i shards (absorb s v)

-- `a < b` on texts: by the codes of their characters.
unfoldable pub lt_text : String → String → Bool
lt_text s String.[] = false
lt_text String.[] (String.◌∷◌ d t) = true
lt_text (String.◌∷◌ c s) (String.◌∷◌ d t) =
    ltb (code c) (code d) || (code c == code d && lt_text s t)

-- The second loop prefers affinity, then a lower score, then the first name.
unfoldable pub preferred : Candidate → Candidate → Bool
preferred c s =
    (c.affinity && not s.affinity)
    || (is_same c.affinity s.affinity && less c.score s.score)
    || (is_same c.affinity s.affinity && level c.score s.score && lt_text c.shard_id s.shard_id)

unfoldable pub choose : Option Candidate → Candidate → Candidate
unfolding preferred
choose none c = c
choose (some s) c = if preferred c s then c else s

unfoldable pub select : Score → Option Candidate → List Candidate → Option Candidate
select best selected [] = selected
select best selected (c ∷ cs) =
    select best (if within_affinity_window c.score best then some (choose selected c) else selected)
      cs

abbrev ppm : Score → ℕ
ppm s = (s.used * 1000000 + s.limit - 1) / s.limit

-- `selected!`: a missing winner is an exception, which the registry reports as unavailable.
unfoldable pub award : Option Candidate → Result PlacementDecision
award none = fail registry_unavailable 503 true
award (some c) = ok (placed c.shard_id c.account_key (ppm c.score))

unfoldable pub decide_placement : Scan → Result PlacementDecision
unfolding award
decide_placement s = elim s.best [
  | none ↦ ok (refused (if s.is_stale then stale_metrics else no_capacity))
  | some b ↦ award (select b.score none s.candidates)
]

unfoldable pub choose_placement : PlacementInput → Result PlacementDecision
choose_placement i = do
  s ← scan i i.config.shards (record { candidates = []; best = none; is_stale = false })
  decide_placement s
