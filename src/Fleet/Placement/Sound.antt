-- ===== src/Fleet/Placement/Sound.antt =====
-- worker/src/fleet/placement.ts: what the chosen shard satisfies.
use one_mail.Base.{
  ℕ, ◌+◌, ◌*◌, ◌≤◌, ◌<◌, ◌≡◌, ◌≢◌, subst, Option, some, List, [], ◌∷◌, true, get, put_all, In,
  arith, Bool-cases, Option-cases, inl, inr, text_key,
}
use one_mail.Fleet.Contracts.{
  Confidence, ShardState, Shard, CloudAccount, MetricSeries, MetricSnapshot, ResourceBudget, ok,
  or_else,
}
use one_mail.Fleet.Validation.{safe_add-three}
use one_mail.Fleet.Metrics.{is_current, date_of, metric_max_age_ms}
use one_mail.Fleet.Placement.{
  Score, maximum_from, zero_score, PlacementInput, Candidate, eligible, score_shard, is_usable,
  measured, judge, empty_budget,
}
use one_mail.Fleet.Placement.Scores.{maximum_from-IsMaximum, below_of_Le}

-- Less than seven tenths of a limit.
abbrev pub BelowTarget : ℕ → ℕ → Type 0
BelowTarget used limit = used * 10 < limit * 7

-- The shard may take a mailbox: a healthy shard, not the primary one, of the required versions, on
-- an enabled account with a fresh authoritative sample, whose forecast with what is reserved and
-- what the mailbox demands stays below seven tenths of each of four limits.
pub record Qualifies (i : PlacementInput) (sh : Shard) (account : CloudAccount) : Type 0 where
  pub listed : In account i.config.accounts
  pub holder : account.account_key ≡ sh.account_key
  pub enabled : account.enabled ≡ true
  pub not_primary : sh.shard_id ≢ i.config.primary_shard_id
  pub is_healthy : sh.state ≡ ShardState.healthy
  pub schema : sh.schema_version ≡ i.config.required_schema_version
  pub protocol : sh.protocol_version ≡ i.config.required_protocol_version
  pub series : MetricSeries
  pub size : ℕ
  pub found : get i.metrics account.account_key ≡ some series
  pub sized : get series.report.snapshot.shard_sizes sh.shard_id ≡ some size
  pub sampled : 3 ≤ series.consecutive_valid_samples
  pub is_authoritative : series.report.snapshot.confidence ≡ Confidence.authoritative
  pub observed_today : date_of series.report.snapshot.observed_at ≡ date_of i.now
  pub not_future : series.report.snapshot.observed_at ≤ i.now
  pub is_fresh : i.now ≤ series.report.snapshot.observed_at + metric_max_age_ms
  pub reads :
      BelowTarget
        (series.report.projected_rows_read
          + (or_else (get i.account_reservations account.account_key) empty_budget).reserved_read
          + i.config.allocation_budget.reserved_read)
        account.daily_read_limit
  pub writes :
      BelowTarget
        (series.report.projected_rows_written
          + (or_else (get i.account_reservations account.account_key) empty_budget).reserved_write
          + i.config.allocation_budget.reserved_write)
        account.daily_write_limit
  pub requests :
      BelowTarget
        (series.report.projected_worker_requests
          + (or_else
              (get i.account_reservations account.account_key)
              empty_budget).reserved_worker_requests
          + i.config.allocation_budget.reserved_worker_requests)
        account.worker_request_limit
  pub bytes :
      BelowTarget
        (size
          + or_else (get i.shard_reserved_bytes sh.shard_id) 0
          + i.config.allocation_budget.reserved_bytes)
        sh.storage_limit_bytes

-- The limits are positive, as the validation of a configuration makes them.
pub record HasLimits (sh : Shard) (account : CloudAccount) : Type 0 where
  pub reads : 0 < account.daily_read_limit
  pub writes : 0 < account.daily_write_limit
  pub requests : 0 < account.worker_request_limit
  pub bytes : 0 < sh.storage_limit_bytes

module _ (i : PlacementInput) (sh : Shard) (account : CloudAccount) (series : MetricSeries)
    (size : ℕ) where
  abbrev reserved : ResourceBudget
  reserved = or_else (get i.account_reservations account.account_key) empty_budget

  abbrev demand : ResourceBudget
  demand = i.config.allocation_budget

  -- The four sums of `score_shard`.
  abbrev sum_reads : ℕ
  sum_reads = series.report.projected_rows_read + reserved.reserved_read + demand.reserved_read

  abbrev sum_writes : ℕ
  sum_writes =
      series.report.projected_rows_written + reserved.reserved_write + demand.reserved_write

  abbrev sum_requests : ℕ
  sum_requests =
      series.report.projected_worker_requests + reserved.reserved_worker_requests
      + demand.reserved_worker_requests

  abbrev sum_bytes : ℕ
  sum_bytes = size + or_else (get i.shard_reserved_bytes sh.shard_id) 0 + demand.reserved_bytes

  abbrev ratios : List Score
  ratios =
      record { used = sum_reads; limit = account.daily_read_limit }
      ∷ record { used = sum_writes; limit = account.daily_write_limit }
      ∷ record { used = sum_requests; limit = account.worker_request_limit }
      ∷ record { used = sum_bytes; limit = sh.storage_limit_bytes }
      ∷ []

  score_shard-maximum :
      {s : Score} → score_shard i sh account series size ≡ ok s → s ≡ maximum_from zero_score ratios
  unfolding score_shard
  score_shard-maximum {s} h = ground (
    arith,
    safe_add-three series.report.projected_rows_read reserved.reserved_read demand.reserved_read,
    safe_add-three series.report.projected_rows_written reserved.reserved_write
        demand.reserved_write,
    safe_add-three series.report.projected_worker_requests reserved.reserved_worker_requests
        demand.reserved_worker_requests,
    safe_add-three size (or_else (get i.shard_reserved_bytes sh.shard_id) 0) demand.reserved_bytes,
  )

  -- A score below the target has all four ratios below it.
  pub score_shard_below :
      {s : Score}
      → HasLimits sh account
      → score_shard i sh account series size ≡ ok s
      → s.used * 10 < s.limit * 7
      → BelowTarget sum_reads account.daily_read_limit
        × BelowTarget sum_writes account.daily_write_limit
        × BelowTarget sum_requests account.worker_request_limit
        × BelowTarget sum_bytes sh.storage_limit_bytes
  score_shard_below {s} l h b =
      let m = maximum_from zero_score ratios in
      let e = score_shard-maximum h in
      let b' : m.used * 10 < m.limit * 7 = subst (λ (x : Score). x.used * 10 < x.limit * 7) e b in
      let x =
        maximum_from-IsMaximum zero_score ratios (omega arith)
          (l.reads, (l.writes, (l.requests, (l.bytes, tt)))) in
      (
        below_of_Le _ m x.0 l.reads x.2.0 b',
        below_of_Le _ m x.0 l.writes x.2.1.0 b',
        below_of_Le _ m x.0 l.requests x.2.1.1.0 b',
        below_of_Le _ m x.0 l.bytes x.2.1.1.1.0 b',
      )

abbrev pub account_of : PlacementInput → Shard → Option CloudAccount
account_of i sh = get (put_all (λ a. a.account_key) [] i.config.accounts) sh.account_key

-- A shard that is judged eligible has an account and a measured series.
pub record Judged (i : PlacementInput) (sh : Shard) (c : Candidate) : Type 0 where
  pub account : CloudAccount
  pub series : MetricSeries
  pub size : ℕ
  pub held_by : account_of i sh ≡ some account
  pub usable : is_usable i sh account ≡ true
  pub is_measured : measured i sh (get i.metrics account.account_key) ≡ some (series, size)
  pub scored : score_shard i sh account series size ≡ ok c.score
  pub below : c.score.used * 10 < c.score.limit * 7
  pub shard_named : c.shard_id ≡ sh.shard_id
  pub account_named : c.account_key ≡ account.account_key

pub judge-Judged :
    (i : PlacementInput) (sh : Shard) (c : Candidate) → judge i sh ≡ ok (eligible c) → Judged i sh c
unfolding judge
judge-Judged i sh c h = elim (Option-cases (account_of i sh)) [
  | inl n ↦ ground arith
  | inr (a, e) ↦ elim (Bool-cases (is_usable i sh a)) [
    | inr u ↦ ground arith
    | inl u ↦ elim (Option-cases (measured i sh (get i.metrics a.account_key))) [
      | inl n ↦ ground arith
      | inr ((series, size), m) ↦ record {
        account = a;
        series = series;
        size = size;
        held_by = e;
        usable = u;
        is_measured = m;
        scored = ground arith;
        below = ground arith;
        shard_named = ground arith;
        account_named = ground arith;
      }
    ]
  ]
]

-- The conditions that `is_usable` and `measured` test.
module _ (i : PlacementInput) (sh : Shard) (account : CloudAccount) where
  pub usable_facts :
      is_usable i sh account ≡ true
      → (account.enabled ≡ true)
        × (sh.shard_id ≢ i.config.primary_shard_id)
        × (sh.state ≡ ShardState.healthy)
        × (sh.schema_version ≡ i.config.required_schema_version)
        × (sh.protocol_version ≡ i.config.required_protocol_version)
  unfolding is_usable
  usable_facts h = (ground arith, λ e. ground arith, ground arith, ground arith, ground arith)

  pub measured_facts :
      (found : Option MetricSeries) (series : MetricSeries) (size : ℕ)
      → measured i sh found ≡ some (series, size)
      → (found ≡ some series)
        × (get series.report.snapshot.shard_sizes sh.shard_id ≡ some size)
        × (3 ≤ series.consecutive_valid_samples)
        × (is_current series.report.snapshot i.now ≡ true)
  unfolding measured
  measured_facts found series size h = (ground arith, ground arith, ground arith, ground arith)

pub current_facts :
    (s : MetricSnapshot) (now : ℕ)
    → is_current s now ≡ true
    → (s.confidence ≡ Confidence.authoritative)
      × (date_of s.observed_at ≡ date_of now)
      × (s.observed_at ≤ now)
      × (now ≤ s.observed_at + metric_max_age_ms)
unfolding is_current
current_facts s now h = (ground arith, ground arith, ground arith, ground arith)
