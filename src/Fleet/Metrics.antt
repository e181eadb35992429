-- ===== src/Fleet/Metrics.antt =====
-- worker/src/fleet/placement.ts: the samples of an account's metrics.
use one_mail.Base.{
  ℕ, suc, ◌-◌, ◌/◌, Option, none, some, Bool, true, false, not, ◌&&◌, ◌||◌, ltb, leb, ◌==◌,
  if◌then◌else◌,
}
use one_mail.Fleet.Contracts.{Confidence, Source, MetricSnapshot, MetricReport, MetricSeries}

abbrev pub day_ms : ℕ
day_ms = 86400000

abbrev pub metric_max_age_ms : ℕ
metric_max_age_ms = 900000

abbrev pub metric_sample_interval_ms : ℕ
metric_sample_interval_ms = 300000

abbrev pub date_of : ℕ → ℕ
date_of ms = ms / day_ms

abbrev is_authoritative : Confidence → Bool
is_authoritative Confidence.authoritative = true
is_authoritative _ = false

abbrev is_application_meta : Source → Bool
is_application_meta Source.application_meta = true
is_application_meta _ = false

-- The tests that make a sample count, in `updateMetricSeries` and in `choosePlacement`.
unfoldable pub is_current : MetricSnapshot → ℕ → Bool
is_current s now =
    is_authoritative s.confidence
    && not (is_application_meta s.source)
    && s.utc_date == date_of now
    && date_of s.observed_at == s.utc_date
    && leb s.observed_at now
    && leb (now - s.observed_at) metric_max_age_ms

abbrev pub prior_baseline : Option MetricSeries → Option MetricReport
prior_baseline none = none
prior_baseline (some p) = elim p.baseline [
  | some b ↦ some b
  | none ↦ if ltb 0 p.consecutive_valid_samples then some p.report else none
]

abbrev pub previous_count : Option MetricSeries → ℕ
previous_count none = 0
previous_count (some p) = p.consecutive_valid_samples

abbrev min_3 : ℕ → ℕ
min_3 n = if ltb n 3 then n else 3

-- The count after a valid sample that does not regress from the baseline.
abbrev next_count : ℕ → ℕ → ℕ → ℕ
next_count bucket previous count =
    if bucket == suc previous && ltb 0 count
    then min_3 (suc count)
    else if bucket == previous && ltb 0 count
    then count
    else 1

abbrev regresses : MetricSnapshot → MetricSnapshot → Bool
regresses current before =
    ltb current.observed_at before.observed_at
    || ltb current.rows_read before.rows_read
    || ltb current.rows_written before.rows_written
    || ltb current.worker_requests before.worker_requests

-- The sample against the baseline: `none` and another day start a new count.
compare_with : MetricReport → ℕ → Option MetricReport → MetricSeries
compare_with report count none = record {
  report = report;
  consecutive_valid_samples = 1;
  baseline = some report;
}
compare_with report count (some base) =
    let current = report.snapshot in
    let before = base.snapshot in
    if not (before.utc_date == current.utc_date)
    then record { report = report; consecutive_valid_samples = 1; baseline = some report }
    else if regresses current before
    then record { report = report; consecutive_valid_samples = 0; baseline = some base }
    else record {
      report = report;
      consecutive_valid_samples =
          next_count (current.observed_at / metric_sample_interval_ms)
            (before.observed_at / metric_sample_interval_ms) count;
      baseline = some report;
    }

unfoldable pub update_metric_series : Option MetricSeries → MetricReport → ℕ → MetricSeries
unfolding is_current compare_with
update_metric_series previous report now =
    if is_current report.snapshot now
    then compare_with report (previous_count previous) (prior_baseline previous)
    else record {
      report = report;
      consecutive_valid_samples = 0;
      baseline = prior_baseline previous;
    }
